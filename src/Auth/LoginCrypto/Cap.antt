-- ===== src/Auth/LoginCrypto/Cap.antt =====
-- How many challenges are outstanding, whatever calls are made in whatever order.
use post_lite.Base.{
  length, Str, str_eq_refl, GoMap, lookup, delete, insert, ℕ, ◌+◌, ◌%◌, ◌^◌, ◌≤◌, ◌<◌, refl, ◌≢◌,
  Option, none, some, [], ◌∷◌, arith,
}
use post_lite.Auth.LoginCrypto.{
  challenge_ttl, max_challenges, Challenge, LoginCrypto, new_login_crypto, drop_expired,
  oldest_from, make_room, add_challenge, new_challenge, consume,
}

length-drop_expired : (now : ℕ) (m : GoMap Challenge) → length (drop_expired now m) ≤ length m
unfolding drop_expired
length-drop_expired now [] = omega arith
length-drop_expired now ((k, c) ∷ m) = ground (arith, length-drop_expired now m)

length-insert-le :
    (k : Str) (c : Challenge) (m : GoMap Challenge) → length (insert k c m) ≤ length m + 1
unfolding insert
length-insert-le k c [] = omega arith
length-insert-le k c ((j, d) ∷ m) = ground (arith, length-insert-le k c m)

length-delete-le : (k : Str) (m : GoMap Challenge) → length (delete k m) ≤ length m
unfolding delete
length-delete-le k [] = omega arith
length-delete-le k ((j, d) ∷ m) = ground (arith, length-delete-le k m)

length-delete-lt :
    (k : Str) (m : GoMap Challenge) → lookup k m ≢ none → length (delete k m) < length m
unfolding delete lookup
length-delete-lt k [] h = absurd (h refl)
length-delete-lt k ((j, d) ∷ m) h = ground (arith, length-delete-lt k m, length-delete-le k m)

-- Every key of the one is a key of the other.
abbrev Covers : GoMap Challenge → GoMap Challenge → Type 0
Covers n m = (k : Str) → lookup k m ≢ none → lookup k n ≢ none

lookup_head : (k : Str) (c : Challenge) (m : GoMap Challenge) → lookup k ((k, c) ∷ m) ≢ none
unfolding lookup
lookup_head k c m = ground (arith, str_eq_refl k)

Covers-tail : (n m : GoMap Challenge) (k : Str) (c : Challenge) → Covers n ((k, c) ∷ m) → Covers n m
unfolding lookup
Covers-tail n m k c h j there = h j (ground arith)

-- The search from a key of the map ends at a key of the map.
oldest_from-lookup :
    (o : Str) (q : ℕ) (m n : GoMap Challenge)
    → lookup o n ≢ none
    → Covers n m
    → lookup (oldest_from o q m) n ≢ none
unfolding oldest_from
oldest_from-lookup o q [] n found h = found
oldest_from-lookup o q ((k, c) ∷ m) n found h =
    let here = h k (lookup_head k c m) in
    ground (
      arith,
      oldest_from-lookup o q m n found (Covers-tail n m k c h),
      oldest_from-lookup k c.seq m n here (Covers-tail n m k c h),
    )

oldest-lookup :
    (k : Str) (c : Challenge) (m : GoMap Challenge)
    → lookup (oldest_from [] 0 ((k, c) ∷ m)) ((k, c) ∷ m) ≢ none
unfolding oldest_from
oldest-lookup k c m =
    oldest_from-lookup k c.seq m ((k, c) ∷ m) (lookup_head k c m)
      (Covers-tail ((k, c) ∷ m) m k c (λ j h. h))

length-make_room :
    (m : GoMap Challenge) → length m ≤ max_challenges → length (make_room m) < max_challenges
unfolding make_room
length-make_room [] h = omega arith
length-make_room ((k, c) ∷ m) h =
    ground
      (arith, length-delete-lt (oldest_from [] 0 ((k, c) ∷ m)) ((k, c) ∷ m) (oldest-lookup k c m))

dropped :
    (now : ℕ) (c : LoginCrypto)
    → length c.challenges ≤ max_challenges
    → length (drop_expired now c.challenges) ≤ max_challenges
dropped now c h = omega (arith, length-drop_expired now c.challenges)

pub data Step (c : LoginCrypto) : LoginCrypto → Type 0 where
  issue : (now : ℕ) (drawn : Option Str) → Step c (new_challenge now drawn c).1
  attempt : (now : ℕ) (ch : Str) → Step c (consume now ch c).1

-- What calls lead to from a new LoginCrypto
pub data Reach : LoginCrypto → Type 0 where
  start : Reach new_login_crypto
  later : {c d : LoginCrypto} → Reach c → Step c d → Reach d

Step-cap :
    {c d : LoginCrypto}
    → Step c d
    → length c.challenges ≤ max_challenges
    → length d.challenges ≤ max_challenges
unfolding new_challenge add_challenge consume
Step-cap (issue now none) h = h
Step-cap {c} (issue now (some ch)) h = omega (
  arith,
  length-insert-le ch (record { exp = now + challenge_ttl; seq = (c.next_seq + 1) % 2 ^ 64 })
      (make_room (drop_expired now c.challenges)),
  length-make_room (drop_expired now c.challenges) (dropped now c h),
)
Step-cap {c} (attempt now ch) h = ground (arith, length-delete-le ch c.challenges)

-- However often the endpoint is called without a login, at most 4096 challenges are outstanding.
pub Reach-cap : {c : LoginCrypto} → Reach c → length c.challenges ≤ max_challenges
Reach-cap start = omega arith
Reach-cap (later r s) = Step-cap s (Reach-cap r)
