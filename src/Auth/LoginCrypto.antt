-- ===== src/Auth/LoginCrypto.antt =====
-- internal/auth/loginenc.go: the challenges of the login handshake, and Decrypt. Base64, RSA-OAEP with
-- the server's key and the JSON envelope are parameters; the clock and the drawn nonce are arguments,
-- none where the random source fails. Keys of a map are distinct, so that deleting the entries that
-- a loop has found is filtering them out.
pub mod Replay
pub mod Cap
use post_lite.Base.{
  ltb, leb, if◌then◌else◌, length, Str, str_eq, GoMap, lookup, delete, insert, ℕ, ◌+◌, ◌*◌, ◌%◌,
  ◌^◌, Bool, false, not, ◌||◌, Option, none, some, [], ◌∷◌,
}

-- 2 minutes, in nanoseconds
abbrev pub challenge_ttl : ℕ
challenge_ttl = 2 * 60 * 1000000000

abbrev pub max_challenges : ℕ
max_challenges = 4096

pub record Challenge : Type 0 where
  pub exp : ℕ
  pub seq : ℕ

pub record LoginCrypto : Type 0 where
  pub challenges : GoMap Challenge
  pub next_seq : ℕ

abbrev pub new_login_crypto : LoginCrypto
new_login_crypto = record { challenges = []; next_seq = 0 }

-- The loop that deletes the expired ones
unfoldable pub drop_expired : ℕ → GoMap Challenge → GoMap Challenge
drop_expired now [] = []
drop_expired now ((k, c) ∷ m) =
    let rest = drop_expired now m in if ltb c.exp now then rest else (k, c) ∷ rest

-- The loop that looks for the oldest, from what it has found so far
unfoldable pub oldest_from : Str → ℕ → GoMap Challenge → Str
oldest_from oldest seq [] = oldest
oldest_from oldest seq ((k, c) ∷ m) =
    let newer = oldest_from oldest seq m in
    let older = oldest_from k c.seq m in if str_eq oldest [] || ltb c.seq seq then older else newer

unfoldable pub make_room : GoMap Challenge → GoMap Challenge
unfolding oldest_from
make_room m = if leb max_challenges (length m) then delete (oldest_from [] 0 m) m else m

-- c.nextSeq++ on a uint64, and the new entry
unfoldable pub add_challenge : ℕ → Str → LoginCrypto → LoginCrypto
unfolding drop_expired make_room
add_challenge now ch c =
    let seq = (c.next_seq + 1) % 2 ^ 64 in
    record {
      challenges =
          insert ch (record { exp = now + challenge_ttl; seq = seq })
            (make_room (drop_expired now c.challenges));
      next_seq = seq;
    }

-- NewChallenge
unfoldable pub new_challenge : ℕ → Option Str → LoginCrypto → Option Str × LoginCrypto
unfolding add_challenge
new_challenge now none c = (none, c)
new_challenge now (some ch) c = (some ch, add_challenge now ch c)

abbrev pub consume_found : ℕ → Str → LoginCrypto → Option Challenge → Bool × LoginCrypto
consume_found now ch c none = (false, c)
consume_found now ch c (some c0) =
    (not (ltb c0.exp now), record c { challenges = delete ch c.challenges })

unfoldable pub consume : ℕ → Str → LoginCrypto → Bool × LoginCrypto
consume now ch c =
    if str_eq ch [] then (false, c) else consume_found now ch c (lookup ch c.challenges)

pub record LoginPayload : Type 0 where
  pub challenge : Str
  pub password : Str

module _ (decode_base64 decrypt_oaep : Str → Option Str)
    (parse_payload : Str → Option LoginPayload) where
  -- What is in the envelope, before its challenge is looked at
  unfoldable pub open_envelope : Str → Option LoginPayload
  open_envelope enc = elim (decode_base64 enc) [
    | none ↦ none
    | some ct ↦ elim (decrypt_oaep ct) [ none ↦ none | some plain ↦ parse_payload plain ]
  ]

  abbrev pub check_payload : ℕ → Option LoginPayload → LoginCrypto → Option Str × LoginCrypto
  check_payload now none c = (none, c)
  check_payload now (some p) c =
      let (fresh, c') = consume now p.challenge c in (if fresh then some p.password else none, c')

  -- Decrypt; every failure is ErrBadLoginPayload
  unfoldable pub decrypt : ℕ → Str → LoginCrypto → Option Str × LoginCrypto
  unfolding consume
  decrypt now enc c = check_payload now (open_envelope enc) c
