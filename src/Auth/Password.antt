-- ===== src/Auth/Password.antt =====
-- internal/auth/password.go. scrypt is a parameter, none where it fails; the salt is what rand.Read gave.
-- The comparison in constant time is an equality.
use post_lite.Base.{
  ltb, ◌==◌, if◌then◌else◌, length, take, get_elem?, All, Str, codes, str_eq, str_eq_refl,
  encode_hex, decode_hex, decode_hex-encode_hex, ℕ, ◌%◌, ◌<◌, ◌≡◌, Bool, true, false, not, ◌&&◌,
  ◌||◌, Option, none, some, [], ◌∷◌, arith,
}

abbrev pub salt_len : ℕ
salt_len = 16

abbrev pub key_len : ℕ
key_len = 64

module _ (scrypt : Str → Str → ℕ → Option Str) where
  abbrev pub hashed : Str → Option Str → Option (Str × Str)
  hashed salt none = none
  hashed salt (some dk) = some (encode_hex dk, encode_hex salt)

  -- HashPassword: the hash and the salt
  unfoldable pub hash_password : Str → Str → Option (Str × Str)
  hash_password salt plain = hashed salt (scrypt plain salt key_len)

  abbrev pub derived_is : Str → Option Str → Bool
  derived_is want none = false
  derived_is want (some dk) = str_eq dk want

  abbrev pub verify_bytes : Str → Option Str → Option Str → Bool
  verify_bytes plain (some salt) (some want) =
      not (length want == 0) && derived_is want (scrypt plain salt (length want))
  verify_bytes plain _ _ = false

  unfoldable pub verify_password : Str → Str → Str → Bool
  verify_password plain hash_hex salt_hex =
      verify_bytes plain (decode_hex salt_hex) (decode_hex hash_hex)

  -- A password is accepted against what HashPassword made of it, if scrypt gives as many bytes as it is
  -- asked for.
  pub verify_password-hash_password :
      (salt plain dk : Str)
      → All (λ b. b < 256) salt
      → All (λ b. b < 256) dk
      → scrypt plain salt key_len ≡ some dk
      → length dk ≡ key_len
      → (hash : Str) × (salt_hex : Str) × (hash_password salt plain ≡ some (hash, salt_hex))
        × (verify_password plain hash salt_hex ≡ true)
  unfolding hash_password verify_password
  verify_password-hash_password salt plain dk s_bytes dk_bytes made sized = (
    encode_hex dk,
    encode_hex salt,
    rw made,
    rw (decode_hex-encode_hex salt s_bytes, decode_hex-encode_hex dk dk_bytes)
        (rw (sized, made) (ground (arith, str_eq_refl dk))),
  )

-- RandomPassword
abbrev pub alphabet : Str
alphabet = codes "abcdefghijkmnopqrstuvwxyzABCDEFGHJKLMNPQRSTUVWXYZ23456789"

abbrev pub nth_or_zero : Option ℕ → ℕ
nth_or_zero none = 0
nth_or_zero (some c) = c

unfoldable pub letters_of : Str → Str
letters_of [] = []
letters_of (c ∷ b) = nth_or_zero (get_elem? alphabet (c % length alphabet)) ∷ letters_of b

-- How many bytes it draws
abbrev pub password_bytes : ℕ → ℕ
password_bytes n = if ltb n 8 then 16 else n

-- `b` is what rand.Read gave for the call with n
unfoldable pub random_password : ℕ → Str → Str
unfolding letters_of
random_password n b = letters_of (take (password_bytes n) b)

-- EnsureRole
abbrev pub ensure_role : Str → Option Str
ensure_role role =
    if str_eq role (codes "admin") || str_eq role (codes "user") then some role else none
