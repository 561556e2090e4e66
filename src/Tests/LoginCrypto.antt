-- ===== src/Tests/LoginCrypto.antt =====
-- The login handshake and passwords at concrete inputs.
use post_lite.Base.{
  length, All, Str, codes, lookup, delete, insert, encode_hex, decode_hex, ℕ, zero, suc, ◌≤◌, ◌<◌,
  ◌≡◌, refl, true, false, Option, some, List, [], ◌∷◌, arith,
}
use post_lite.Auth.LoginCrypto.{
  max_challenges, LoginCrypto, new_login_crypto, drop_expired, oldest_from, make_room,
  add_challenge, new_challenge, consume,
}
use post_lite.Auth.LoginCrypto.Cap.{issue, attempt, start, later, Reach-cap}
use post_lite.Auth.LoginCrypto.Replay.{
  Call, issued, tried, run, times_issued, times_accepted, accepted-le-issued,
}
use post_lite.Auth.Password.{hash_password, verify_password, letters_of, random_password}

handshake : Unit {0}
unfolding drop_expired oldest_from make_room add_challenge new_challenge consume run times_issued
    times_accepted delete hash_password verify_password random_password letters_of encode_hex
    decode_hex lookup insert
handshake = tt

abbrev one : LoginCrypto
one = (new_challenge 5 (some (codes "c1")) new_login_crypto).1

abbrev two : LoginCrypto
two = (consume 6 (codes "c1") one).1

handshake_tests :
    ((consume 6 (codes "c1") one).0 ≡ true)
    × ((consume 6 (codes "c2") one).0 ≡ false)
    × ((consume 120000000005 (codes "c1") one).0 ≡ true)
    × ((consume 120000000006 (codes "c1") one).0 ≡ false)
    × ((new_challenge 120000000006 (some (codes "c2")) one).1 ≡ record {
      challenges = (codes "c2", record { exp = 240000000006; seq = 2 }) ∷ [];
      next_seq = 2;
    })
unfolding handshake
handshake_tests = (refl, refl, refl, refl, refl)

Reach-cap_example : length two.challenges ≤ max_challenges
Reach-cap_example =
    Reach-cap (later (later start (issue 5 (some (codes "c1")))) (attempt 6 (codes "c1")))

abbrev calls : List Call
calls = tried 8 (codes "c1") ∷ tried 7 (codes "c1") ∷ issued 5 (codes "c1") ∷ []

accepted-le-issued_example : times_accepted (codes "c1") calls ≤ times_issued (codes "c1") calls
accepted-le-issued_example = accepted-le-issued (codes "c1") calls

calls_tests : (times_accepted (codes "c1") calls ≡ 1) × (times_issued (codes "c1") calls ≡ 1)
unfolding handshake
calls_tests = (refl, refl)

-- A scrypt that gives zero bytes
abbrev zeros : ℕ → Str
zeros zero = []
zeros (suc n) = 0 ∷ zeros n

abbrev null_key : Str → Str → ℕ → Option Str
null_key plain salt n = some (zeros n)

All-zeros : (n : ℕ) → All (λ b. b < 256) (zeros n)
All-zeros zero = tt
All-zeros (suc n) = (omega arith, All-zeros n)

password_tests :
    (verify_password null_key (codes "pw") [] (codes "6e61") ≡ false)
    × (verify_password null_key (codes "pw") (codes "0000") (codes "6e61") ≡ true)
    × (verify_password null_key (codes "pw") (codes "0001") (codes "6e61") ≡ false)
    × (random_password 9 (codes "abcdefghijk") ≡ codes "RSTUVWXYZ")
unfolding handshake
password_tests = (refl, refl, refl, refl)
