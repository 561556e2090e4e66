-- ===== src/Executor/Http/Redirects.antt =====
-- Which URLs a request can make the server contact.
use post_lite.Base.{
  if◌then◌else◌, Option-cases, length, All, Str, GoMap, ℕ, zero, suc, ◌+◌, ◌≤◌, ◌<◌, ◌≡◌, ◌≢◌, inl,
  inr, Bool, true, false, Option, none, some, List, [], ◌∷◌, arith,
}
use post_lite.Executor.Target.{Net, passed, check_target_for}
use post_lite.Executor.Target.Policy.{Checked-cases}
use post_lite.Executor.Http.{
  max_redirects, Reply, final, redirect, broken, upstream, Outcome, response, failed, out_of_fuel,
  Transport, transport_for, check_redirect, on_reply, do_from, visit, execute,
}

module _ (n : Net) (respond : ℕ → Transport → Str → Reply) (wl : List (n.Cidr)) (follow : Bool)
    (proxy : Str) where
  -- Every URL has passed the check for its proxy.
  abbrev pub AllChecked : List Str → Type 0
  AllChecked = All (λ url. check_target_for n wl proxy url ≡ passed tt)

  check_redirect-eq-none :
      (t : Transport) (via : ℕ) (url target body : Str)
      → check_redirect n respond wl follow proxy t via url target body ≡ none
      → (via < max_redirects) × (follow ≡ true) × (check_target_for n wl proxy target ≡ passed tt)
  check_redirect-eq-none t via url target body e = ground arith

  -- What the rounds from a checked URL on contact
  record IsConfined (via : ℕ) (r : List Str × Outcome) : Type 0 where
    checked : AllChecked r.0
    few : length r.0 + via ≤ max_redirects
    single : follow ≡ false → length r.0 ≤ 1
    ended : r.1 ≢ out_of_fuel

  module _ (t : Transport) (via : ℕ) (url : Str) (next : Str → List Str × Outcome)
      (room : via < max_redirects) (ok : check_target_for n wl proxy url ≡ passed tt)
      (ih : (target : Str)
        → via + 1 < max_redirects
        → check_target_for n wl proxy target ≡ passed tt
        → IsConfined (via + 1) (next target)) where
    alone-IsConfined : (out : Outcome) → out ≢ out_of_fuel → IsConfined via (url ∷ [], out)
    alone-IsConfined out h = record {
      checked = (ok, tt);
      few = omega arith;
      single = λ _. omega arith;
      ended = h;
    }

    followed-IsConfined :
        (target : Str)
        → follow ≡ true
        → IsConfined (via + 1) (next target)
        → IsConfined via (url ∷ (next target).0, (next target).1)
    followed-IsConfined target f c = record {
      checked = (ok, c.checked);
      few = omega (arith, c.few);
      single = λ off. cc;
      ended = c.ended;
    }

    check_redirect-ne-fuel :
        (target body : Str) (out : Outcome)
        → check_redirect n respond wl follow proxy t (via + 1) url target body ≡ some out
        → out ≢ out_of_fuel
    check_redirect-ne-fuel target body out e = ground arith

    on_reply-IsConfined :
        (r : Reply) → IsConfined via (on_reply n respond wl follow proxy t (via + 1) url next r)
    on_reply-IsConfined (final body) = alone-IsConfined (response url body) (λ e. cc)
    on_reply-IsConfined broken = alone-IsConfined (failed upstream) (λ e. cc)
    on_reply-IsConfined (redirect target body) =
        elim (Option-cases (check_redirect n respond wl follow proxy t (via + 1) url target body)) [
          | inr (out, stopped) ↦
              rw stopped (alone-IsConfined out (check_redirect-ne-fuel target body out stopped))
          | inl on ↦
              let (more, following, good) = check_redirect-eq-none t (via + 1) url target body on in
              rw on (followed-IsConfined target following (ih target more good))
        ]

  do_from-IsConfined :
      (t : Transport) (fuel via : ℕ) (url : Str)
      → max_redirects ≤ via + fuel
      → via < max_redirects
      → check_target_for n wl proxy url ≡ passed tt
      → IsConfined via (do_from n respond wl follow proxy t fuel via url)
  unfolding do_from
  do_from-IsConfined t zero via url enough room ok = absurd (omega arith)
  do_from-IsConfined t (suc fuel) via url enough room ok =
      on_reply-IsConfined t via url
        (λ target. do_from n respond wl follow proxy t fuel (via + 1) target) room ok
        (λ target more good. do_from-IsConfined t fuel (via + 1) target (omega arith) more good)
        (respond via t url)

  visit-IsConfined :
      (url : Str) (o : Option Transport) → IsConfined 0 (visit n respond wl follow proxy url o)
  visit-IsConfined url none = record {
    checked = tt;
    few = omega arith;
    single = λ _. omega arith;
    ended = λ e. cc;
  }
  visit-IsConfined url (some t) = elim (Checked-cases (check_target_for n wl proxy url)) [
    | inl (ok, good) ↦
        rw (good, visit)
          (do_from-IsConfined t (max_redirects + 1) 0 url (omega arith) (omega arith) good)
    | inr (why, bad) ↦
        rw (bad, visit)
          (record { checked = tt; few = omega arith; single = λ _. omega arith; ended = λ e. cc })
  ]

-- Whatever the servers answer, Execute ends; every URL that it contacts, the first and every one
-- that a redirect names, has passed the policy for its proxy; and it contacts at most five, so follows
-- at most four redirects, and only one where redirects are not followed.
pub execute_confined :
    (n : Net) (respond : ℕ → Transport → Str → Reply) (proxied : GoMap Transport)
    (wl : List (n.Cidr)) (follow : Bool) (proxy url : Str)
    → (let r = (execute n respond proxied wl follow proxy url).0 in
        All (λ u. check_target_for n wl proxy u ≡ passed tt) r.0
        × (length r.0 ≤ (if follow then max_redirects else 1))
        × (r.1 ≢ out_of_fuel))
unfolding execute
execute_confined n respond proxied wl follow proxy url =
    let c = visit-IsConfined n respond wl follow proxy url (transport_for n proxied proxy).0 in
    (c.checked, ground (arith, c.few, c.single), c.ended)
