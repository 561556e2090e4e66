-- ===== src/Auth/RateLimit/Trace.antt =====
-- Sequences of limiter calls, and what can be said of a record after any of them.
use Prim.Native.Nat.{max}
use post_lite.Base.{
  if◌then◌else◌, Bool-cases, Option-cases, Str, str_eq, str_eq_iff, lookup, lookup-delete,
  lookup-insert, ℕ, ◌+◌, ◌≤◌, ◌≡◌, ◌⊎◌, inl, inr, Option, none, some, List, [], ◌∷◌, arith,
}
use post_lite.Auth.RateLimit.{
  RecEntry, RateLimiter, max_fails, lock_window, new_rate_limiter, is_stale, gc, is_locked, current,
  count_fail, note_fail, reset,
}

-- A call, with the clock that it reads.
pub data Call : Type 0 where
  query : ℕ → Str → Call
  fail : ℕ → Str → Call
  clear : Str → Call

unfoldable pub step : RateLimiter → Call → RateLimiter
step r (query now ip) = (is_locked now ip r).1
step r (fail now ip) = note_fail now ip r
step r (clear ip) = reset ip r

-- The newest call stands first.
unfoldable pub run : List Call → RateLimiter
run [] = new_rate_limiter
run (c ∷ cs) = step (run cs) c

-- The failures of `ip` since its last reset.
unfoldable pub fails_since_reset : Str → List Call → ℕ
fails_since_reset ip [] = 0
fails_since_reset ip (query now j ∷ cs) = fails_since_reset ip cs
fails_since_reset ip (fail now j ∷ cs) =
    let n = fails_since_reset ip cs in if str_eq j ip then n + 1 else n
fails_since_reset ip (clear j ∷ cs) =
    let n = fails_since_reset ip cs in if str_eq j ip then 0 else n

-- The latest clock at which a failure of `ip` was noted.
unfoldable pub latest_fail : Str → List Call → ℕ
latest_fail ip [] = 0
latest_fail ip (fail now j ∷ cs) = let t = latest_fail ip cs in if str_eq j ip then max now t else t
latest_fail ip (_ ∷ cs) = latest_fail ip cs

-- What a record tells of the failures noted so far: `n` since the last reset, the latest at `t`.
pub record Explains (n t : ℕ) (e : RecEntry) : Type 0 where
  pub counted : e.fails ≤ n
  pub earned : (e.locked_until ≡ 0) ⊎ (max_fails ≤ e.fails)
  pub bounded : e.locked_until ≤ t + lock_window

abbrev pub ExplainsOption : ℕ → ℕ → Option RecEntry → Type 0
ExplainsOption n t none = Unit
ExplainsOption n t (some e) = Explains n t e

count_fail-Explains :
    (n t now : ℕ) (o : Option RecEntry)
    → ExplainsOption n t o
    → Explains (n + 1) (max now t) (count_fail now (current now o))
count_fail-Explains n t now none h = ground arith
count_fail-Explains n t now (some e) h = ground arith

lookup-gc :
    (now : ℕ) (e : RecEntry) (j ip : Str) (r : RateLimiter)
    → lookup ip (gc now e j r).m
      ≡ (if is_stale now e then (if str_eq j ip then none else lookup ip r.m) else lookup ip r.m)
unfolding gc
lookup-gc now e j ip r = ground (arith, lookup-delete j ip r.m)

is_locked-Explains :
    (n t now : ℕ) (j ip : Str) (r : RateLimiter)
    → ExplainsOption n t (lookup ip r.m)
    → ExplainsOption n t (lookup ip (is_locked now j r).1.m)
unfolding is_locked
is_locked-Explains n t now j ip r h = elim (Option-cases (lookup j r.m)) [
  | inl missed ↦ rw missed h
  | inr (e, found) ↦ rw found (rw lookup-gc (ground arith))
]

note_fail-Explains :
    (n t now : ℕ) (j ip : Str) (r : RateLimiter)
    → ExplainsOption n t (lookup ip r.m)
    → ExplainsOption
        (if str_eq j ip then n + 1 else n)
        (if str_eq j ip then max now t else t)
        (lookup ip (note_fail now j r).m)
unfolding note_fail
note_fail-Explains n t now j ip r h = elim (Bool-cases (str_eq j ip)) [
  | inl same ↦
      rw (lookup-insert, same, (str_eq_iff j ip).0 same)
        (count_fail-Explains n t now (lookup ip r.m) h)
  | inr other ↦ rw (lookup-insert, other) h
]

reset-Explains :
    (n t : ℕ) (j ip : Str) (r : RateLimiter)
    → ExplainsOption n t (lookup ip r.m)
    → ExplainsOption (if str_eq j ip then 0 else n) t (lookup ip (reset j r).m)
unfolding reset
reset-Explains n t j ip r h = elim (Bool-cases (str_eq j ip)) [
  | inl same ↦ rw (lookup-delete, same) tt
  | inr other ↦ rw (lookup-delete, other) h
]

-- Every record is explained by the calls that led to it.
pub run-Explains :
    (cs : List Call) (ip : Str)
    → ExplainsOption (fails_since_reset ip cs) (latest_fail ip cs) (lookup ip (run cs).m)
unfolding run step fails_since_reset latest_fail
run-Explains [] ip = unfold lookup in tt
run-Explains (query now j ∷ cs) ip = is_locked-Explains _ _ now j ip (run cs) (run-Explains cs ip)
run-Explains (fail now j ∷ cs) ip = note_fail-Explains _ _ now j ip (run cs) (run-Explains cs ip)
run-Explains (clear j ∷ cs) ip = reset-Explains _ _ j ip (run cs) (run-Explains cs ip)
