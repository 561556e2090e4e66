-- ===== src/Tests/Http.antt =====
-- Execute of internal/executor/http.go against small servers.
use post_lite.Base.{
  if◌then◌else◌, length, All, Str, codes, lookup, insert, ℕ, ◌≤◌, ◌≡◌, refl, ◌≢◌, true, false, [],
  ◌∷◌,
}
use post_lite.Executor.Target.{outside_whitelist, passed, check_target_for}
use post_lite.Executor.Http.{
  max_redirects, Reply, redirect, bad_proxy, ssrf, too_many_redirects, response, failed,
  out_of_fuel, capture, history_body, Transport, transport_for, do_from, execute,
}
use post_lite.Executor.Http.Redirects.{execute_confined}
use post_lite.Tests.Net.{lab, policy}

client : Unit {0}
unfolding policy execute transport_for do_from capture history_body lookup insert
client = tt

-- A server that redirects to itself, and one that redirects into the private network
abbrev circular : ℕ → Transport → Str → Reply
circular via t url = redirect (codes "http://good.test") []

abbrev inward : ℕ → Transport → Str → Reply
inward via t url = redirect (codes "http://10.0.0.1") []

abbrev start : Str
start = codes "http://good.test"

execute_tests :
    ((execute lab circular [] [] true [] start).0
      ≡ (start ∷ start ∷ start ∷ start ∷ start ∷ [], failed too_many_redirects))
    × ((execute lab circular [] [] false [] start).0 ≡ (start ∷ [], response start []))
    × ((execute lab inward [] [] true [] start).0 ≡ (start ∷ [], failed (ssrf outside_whitelist)))
    × ((execute lab inward [] [] true (codes "file://p") start).0 ≡ ([], failed bad_proxy))
unfolding client
execute_tests = (refl, refl, refl, refl)

execute_confined_example :
    (let r = (execute lab circular [] [] true [] start).0 in
      All (λ u. check_target_for lab [] [] u ≡ passed tt) r.0
      × (length r.0 ≤ (if true then max_redirects else 1))
      × (r.1 ≢ out_of_fuel))
execute_confined_example = execute_confined lab circular [] [] true [] start
