-- ===== src/Auth/RateLimit/Lockout.antt =====
-- When the limiter locks an address out, and for how long.

use post_lite.Base.{
  Str, str_eq_iff, str_eq_refl, lookup, lookup-delete, lookup-insert, ℕ, ◌+◌, ◌-◌, ◌≤◌, ◌<◌, ◌≡◌,
  ◌≢◌, true, false, some, List, arith,
}
use post_lite.Auth.RateLimit.{
  RecEntry, RateLimiter, max_fails, lock_window, gc, is_locked, note_fail,
}
use post_lite.Auth.RateLimit.Trace.{
  Call, run, fails_since_reset, latest_fail, ExplainsOption, run-Explains,
}

is_locked_inv :
    (n t now : ℕ) (ip : Str) (r : RateLimiter)
    → ExplainsOption n t (lookup ip r.m)
    → (is_locked now ip r).0 ≡ true
    → (max_fails ≤ n) × (now < t + lock_window)
unfolding is_locked
is_locked_inv n t now ip r h locked = ground arith

-- After any sequence of calls, an address is reported locked only if at least five failures were
-- noted for it since its last reset, and only before the latest of them is 15 minutes old.
pub is_locked-run :
    (cs : List Call) (now : ℕ) (ip : Str)
    → (is_locked now ip (run cs)).0 ≡ true
    → (max_fails ≤ fails_since_reset ip cs) × (now < latest_fail ip cs + lock_window)
is_locked-run cs now ip = is_locked_inv _ _ now ip (run cs) (run-Explains cs ip)

-- A failure that brings the count of a record that is not stale to five locks the address: every
-- query in the next 15 minutes that is the first since then reports it locked.
pub is_locked-note_fail :
    (r : RateLimiter) (ip : Str) (e : RecEntry) (now t : ℕ)
    → lookup ip r.m ≡ some e
    → now - e.first_fail ≤ lock_window
    → max_fails ≤ e.fails + 1
    → t < now + lock_window
    → (is_locked t ip (note_fail now ip r)).0 ≡ true
unfolding is_locked note_fail
is_locked-note_fail r ip e now t found fresh many soon =
    rw (lookup-insert, str_eq_refl ip, found) (ground arith)

-- What another address does changes nothing for this one.
pub is_locked-note_fail_ne :
    (r : RateLimiter) (ip j : Str) (now t : ℕ)
    → j ≢ ip
    → (is_locked t ip (note_fail now j r)).0 ≡ (is_locked t ip r).0
unfolding is_locked note_fail
is_locked-note_fail_ne r ip j now t h = rw lookup-insert (ground (arith, str_eq_iff j ip))

-- A query more than 15 minutes after the record's first failure deletes the record, so that the next query
-- reports the address unlocked, also while the lock that it stored still runs.
pub is_locked_forgets :
    (r : RateLimiter) (ip : Str) (e : RecEntry) (now t : ℕ)
    → lookup ip r.m ≡ some e
    → e.first_fail + lock_window < now
    → now < e.locked_until
    → ((is_locked now ip r).0 ≡ true) × ((is_locked t ip (is_locked now ip r).1).0 ≡ false)
unfolding is_locked gc
is_locked_forgets r ip e now t found old running =
    rw found (ground (arith, lookup-delete ip ip r.m, str_eq_refl ip))
