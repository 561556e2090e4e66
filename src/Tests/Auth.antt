-- ===== src/Tests/Auth.antt =====
-- The login limiter of internal/auth/ratelimit.go at concrete inputs.
use post_lite.Base.{
  Str, codes, lookup, delete, insert, ◌+◌, ◌≤◌, ◌<◌, ◌≡◌, refl, true, false, List, [], ◌∷◌, arith,
}
use post_lite.Auth.RateLimit.{RecEntry, max_fails, lock_window, gc, is_locked, note_fail, reset}
use post_lite.Auth.RateLimit.Trace.{
  Call, query, fail, clear, step, run, fails_since_reset, latest_fail,
}
use post_lite.Auth.RateLimit.Lockout.{is_locked-run, is_locked_forgets}

limiter : Unit {0}
unfolding run step is_locked note_fail reset gc lookup insert delete fails_since_reset latest_fail
limiter = tt

abbrev ann : Str
ann = codes "10.0.0.7"

abbrev bob : Str
bob = codes "10.0.0.8"

-- The newest first: five failures within 40 ns, with another address in between
abbrev five_fails : List Call
five_fails =
    fail 1040 ann
    ∷ fail 1030 ann
    ∷ query 1025 bob
    ∷ fail 1020 ann
    ∷ fail 1015 bob
    ∷ fail 1010 ann
    ∷ fail 1000 ann
    ∷ []

is_locked_tests :
    ((is_locked 1041 ann (run five_fails)).0 ≡ true)
    × ((is_locked 1041 bob (run five_fails)).0 ≡ false)
    × ((is_locked 1041 ann (run (clear ann ∷ five_fails))).0 ≡ false)
unfolding limiter
is_locked_tests = (refl, refl, refl)

is_locked-run_example :
    (max_fails ≤ fails_since_reset ann five_fails)
    × (1041 < latest_fail ann five_fails + lock_window)
unfolding limiter
is_locked-run_example = is_locked-run five_fails 1041 ann refl

abbrev four : RecEntry
four = record { fails = 4; locked_until = 0; first_fail = 1000 }

-- The lock was set in second 890, for 15 minutes; the record, from second 0, is stale in second 901.
abbrev late : RecEntry
late = record { fails = 5; locked_until = 1790000000000; first_fail = 0 }

is_locked_forgets_example :
    ((is_locked 901000000000 ann (record { m = (ann, late) ∷ [] })).0 ≡ true)
    × ((is_locked 902000000000 ann
          (is_locked 901000000000 ann (record { m = (ann, late) ∷ [] })).1).0
        ≡ false)
unfolding limiter
is_locked_forgets_example =
    is_locked_forgets (record { m = (ann, late) ∷ [] }) ann late 901000000000 902000000000 refl
      (omega arith) (omega arith)
