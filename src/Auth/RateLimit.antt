-- ===== src/Auth/RateLimit.antt =====
-- internal/auth/ratelimit.go. A time is a number of nanoseconds, the zero time is 0, and each call
-- reads the clock once: `now` is its argument. The mutex makes every method one step.
pub mod Trace
pub mod Lockout
use post_lite.Base.{
  ltb, leb, if◌then◌else◌, Str, GoMap, lookup, delete, insert, ℕ, ◌+◌, ◌-◌, ◌*◌, Bool, false,
  Option, none, some, [],
}

pub record RecEntry : Type 0 where
  pub fails : ℕ
  pub first_fail : ℕ
  pub locked_until : ℕ

pub record RateLimiter : Type 0 where
  pub m : GoMap RecEntry

abbrev pub max_fails : ℕ
max_fails = 5

-- 15 minutes
abbrev pub lock_window : ℕ
lock_window = 15 * 60 * 1000000000

abbrev pub new_rate_limiter : RateLimiter
new_rate_limiter = record { m = [] }

-- time.Since(e.firstFail) > lockWindow
abbrev pub is_stale : ℕ → RecEntry → Bool
is_stale now e = ltb lock_window (now - e.first_fail)

unfoldable pub gc : ℕ → RecEntry → Str → RateLimiter → RateLimiter
gc now e ip r = if is_stale now e then record { m = delete ip r.m } else r

abbrev is_locked_entry : ℕ → Str → RateLimiter → Option RecEntry → Bool × RateLimiter
is_locked_entry now ip r none = (false, r)
is_locked_entry now ip r (some e) = (ltb now e.locked_until, gc now e ip r)

unfoldable pub is_locked : ℕ → Str → RateLimiter → Bool × RateLimiter
is_locked now ip r = is_locked_entry now ip r (lookup ip r.m)

-- The record that NoteFail counts in: the old one, or a new one in its place.
abbrev pub current : ℕ → Option RecEntry → RecEntry
current now none = record { fails = 0; first_fail = now; locked_until = 0 }
current now (some e) =
    if is_stale now e then record { fails = 0; first_fail = now; locked_until = 0 } else e

abbrev pub count_fail : ℕ → RecEntry → RecEntry
count_fail now e = record {
  fails = e.fails + 1;
  first_fail = e.first_fail;
  locked_until = if leb max_fails (e.fails + 1) then now + lock_window else e.locked_until;
}

unfoldable pub note_fail : ℕ → Str → RateLimiter → RateLimiter
note_fail now ip r = record { m = insert ip (count_fail now (current now (lookup ip r.m))) r.m }

unfoldable pub reset : Str → RateLimiter → RateLimiter
reset ip r = record { m = delete ip r.m }
