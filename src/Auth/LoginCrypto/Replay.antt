-- ===== src/Auth/LoginCrypto/Replay.antt =====
-- How often a challenge is good for a login.
use post_lite.Base.{
  leb, if◌then◌else◌, Option-cases, Str, str_eq, str_eq_iff, str_eq_refl, GoMap, lookup, insert,
  lookup-delete, lookup-insert, ℕ, ◌+◌, ◌%◌, ◌^◌, ◌≤◌, ◌≡◌, ◌≢◌, inl, inr, false, ◌&&◌, Option,
  none, some, List, [], ◌∷◌, arith,
}
use post_lite.Auth.LoginCrypto.{
  challenge_ttl, Challenge, LoginCrypto, new_login_crypto, drop_expired, oldest_from, make_room,
  add_challenge, new_challenge, consume, LoginPayload, open_envelope, decrypt,
}

-- A call, with the clock that it reads; the newest stands first.
pub data Call : Type 0 where
  issued : ℕ → Str → Call
  tried : ℕ → Str → Call

unfoldable pub run : List Call → LoginCrypto
run [] = new_login_crypto
run (issued now ch ∷ cs) = (new_challenge now (some ch) (run cs)).1
run (tried now ch ∷ cs) = (consume now ch (run cs)).1

-- How often `ch` was handed out, and how often it was accepted
unfoldable pub times_issued : Str → List Call → ℕ
times_issued ch [] = 0
times_issued ch (issued now k ∷ cs) = let n = times_issued ch cs in if str_eq k ch then n + 1 else n
times_issued ch (tried now k ∷ cs) = times_issued ch cs

unfoldable pub times_accepted : Str → List Call → ℕ
times_accepted ch [] = 0
times_accepted ch (issued now k ∷ cs) = times_accepted ch cs
times_accepted ch (tried now k ∷ cs) =
    let n = times_accepted ch cs in if str_eq k ch && (consume now k (run cs)).0 then n + 1 else n

abbrev present : Option Challenge → ℕ
present none = 0
present (some c) = 1

present_bound : (o : Option Challenge) → present o ≤ 1
present_bound o = ground arith

lookup-drop_expired :
    (now : ℕ) (ch : Str) (m : GoMap Challenge)
    → present (lookup ch (drop_expired now m)) ≤ present (lookup ch m)
unfolding drop_expired lookup
lookup-drop_expired now ch [] = omega arith
lookup-drop_expired now ch ((k, c) ∷ m) =
    ground (arith, lookup-drop_expired now ch m, present_bound (lookup ch (drop_expired now m)))

lookup-make_room :
    (ch : Str) (m : GoMap Challenge) → present (lookup ch (make_room m)) ≤ present (lookup ch m)
unfolding make_room
lookup-make_room ch m = ground (arith, lookup-delete (oldest_from [] 0 m) ch m)

abbrev held : Str → List Call → ℕ
held ch cs = present (lookup ch (run cs).challenges)

held-issued :
    (now : ℕ) (k ch : Str) (cs : List Call)
    → held ch (issued now k ∷ cs) ≤ (if str_eq k ch then 1 else held ch cs)
unfolding run new_challenge add_challenge
held-issued now k ch cs =
    let m = (run cs).challenges in
    let new : Challenge = record {
      exp = now + challenge_ttl;
      seq = ((run cs).next_seq + 1) % 2 ^ 64;
    } in
    ground (
      arith,
      lookup-insert k ch new (make_room (drop_expired now m)),
      lookup-make_room ch (drop_expired now m),
      lookup-drop_expired now ch m,
    )

held-tried :
    (now : ℕ) (k ch : Str) (cs : List Call)
    → held ch (tried now k ∷ cs) + (if str_eq k ch && (consume now k (run cs)).0 then 1 else 0)
      ≤ held ch cs
unfolding run consume
held-tried now k ch cs =
    let m = (run cs).challenges in
    elim (Option-cases (lookup k m)) [
      | inl missing ↦ rw missing (ground arith)
      | inr (c, found) ↦ rw found (ground (arith, lookup-delete k ch m, str_eq_iff k ch))
    ]

held_start : (ch : Str) → 0 + held ch [] ≤ 0
unfolding run lookup
held_start ch = omega arith

balance : (ch : Str) (cs : List Call) → times_accepted ch cs + held ch cs ≤ times_issued ch cs
unfolding times_accepted times_issued
balance ch [] = held_start ch
balance ch (issued now k ∷ cs) = ground (arith, balance ch cs, held-issued now k ch cs)
balance ch (tried now k ∷ cs) = ground (arith, balance ch cs, held-tried now k ch cs)

-- In any sequence of calls a challenge is accepted at most as often as it was handed out: one that was
-- handed out once is good for one login, and no captured envelope can be sent again.
pub accepted-le-issued : (ch : Str) (cs : List Call) → times_accepted ch cs ≤ times_issued ch cs
accepted-le-issued ch cs = omega (arith, balance ch cs)

consume_twice :
    (now later : ℕ) (ch : Str) (c : LoginCrypto) → (consume later ch (consume now ch c).1).0 ≡ false
unfolding consume
consume_twice now later ch c = elim (Option-cases (lookup ch c.challenges)) [
  | inl missing ↦ rw missing (ground arith)
  | inr (c0, found) ↦ rw found (ground (arith, lookup-delete ch ch c.challenges, str_eq_refl ch))
]

-- An envelope that was looked at, whatever came of it, gives no password when it is sent again.
pub decrypt_twice :
    (decode_base64 decrypt_oaep : Str → Option Str) (parse_payload : Str → Option LoginPayload)
    (now later : ℕ) (enc : Str) (c : LoginCrypto)
    → let decrypt = decrypt decode_base64 decrypt_oaep parse_payload in
      (decrypt later enc (decrypt now enc c).1).0 ≡ none
unfolding decrypt
decrypt_twice decode_base64 decrypt_oaep parse_payload now later enc c =
    elim (Option-cases (open_envelope decode_base64 decrypt_oaep parse_payload enc)) [
      | inl bad ↦ rw bad
      | inr (p, good) ↦ rw good (ground (arith, consume_twice now later p.challenge c))
    ]

-- A challenge is accepted for two minutes after it was handed out, if nothing is done in between; and
-- once it was looked at, accepted or not, it is not accepted again.
pub consume_lem :
    (now t later : ℕ) (ch : Str) (c : LoginCrypto)
    → ch ≢ []
    → let c' = (new_challenge now (some ch) c).1 in
      ((consume t ch c').0 ≡ leb t (now + challenge_ttl))
      × ((consume later ch (consume t ch c').1).0 ≡ false)
unfolding new_challenge add_challenge consume
consume_lem now t later ch c full =
    let m = make_room (drop_expired now c.challenges) in
    let new : Challenge = record { exp = now + challenge_ttl; seq = (c.next_seq + 1) % 2 ^ 64 } in
    rw (lookup-insert ch ch new m, str_eq_refl ch)
      (ground (arith, str_eq_iff ch [], lookup-delete ch ch (insert ch new m), str_eq_refl ch))
