-- ===== src/Api/Execute/Outcomes.antt =====
-- What an execution has passed when it is answered, and what it changes.
use post_lite.Executor.Redact.{new_redactor, text}
use post_lite.Base.{
  if◌then◌else◌, Bool-cases, Option-cases, Str, codes, str_eq, contains, trim_space, sort_strings,
  GoMap, ℕ, ◌≡◌, refl, inl, inr, Bool, false, not, ◌||◌, Option, some, List, [], arith,
}
use post_lite.Executor.Resolve.{Resolver, used_secrets}
use post_lite.Executor.Target.{Net, passed, parse_whitelist, check_target_for}
use post_lite.Executor.Http.{
  Reply, Outcome, response, failed, out_of_fuel, Transport, transport_for, execute,
}
use post_lite.Store.{User}
use post_lite.Api.{State, ret, and_then-eq-ret}
use post_lite.Api.Settings.{whitelist_key, proxy_key, setting_or}
use post_lite.Api.Execute.{AdHoc, ExecuteBody, In, ExecEnv}
use post_lite.Api.Execute.Scripts.{Prepared}
use post_lite.Api.Execute.Sending.{Out, read_timeout, on_outcome, sent, in_of}
use post_lite.Api.Execute.Handler.{ExecuteOut, finish, execute_with, execute_composed}

-- A response of Execute is for a URL that has passed the policy.
execute_response :
    (n : Net) (reply : ℕ → Transport → Str → Reply) (proxied : GoMap Transport) (wl : List (n.Cidr))
    (follow : Bool) (proxy url last stream : Str)
    → (execute n reply proxied wl follow proxy url).0.1 ≡ response last stream
    → check_target_for n wl proxy url ≡ passed tt
unfolding execute
execute_response n reply proxied wl follow proxy url last stream done =
    elim (Option-cases (transport_for n proxied proxy).0) [
      | inl bad ↦ ground arith
      | inr (t, usable) ↦ ground arith
    ]

module _ (env : ExecEnv) where
  on_outcome-response :
      (u : User) (r : List Str) (safe_url : Str) (i : In) (o : Outcome) (s : State) (out : Out)
      (s' : State)
      → on_outcome env u r safe_url i o s ≡ (ret out, s')
      → (last : Str) × (stream : Str) × (o ≡ response last stream)
  on_outcome-response u r safe_url i (response last stream) s out s' done = (last, stream, refl)
  on_outcome-response u r safe_url i (failed e) s out s' done = absurd (ground arith)
  on_outcome-response u r safe_url i out_of_fuel s out s' done = absurd (ground arith)

  -- An answer of `sent` is for a URL that has passed the policy.
  sent_checked :
      (u : User) (r : List Str) (safe_url : Str) (i : In) (wl : List (env.net.Cidr)) (s : State)
      (out : Out) (s' : State)
      → sent env u r safe_url i wl s ≡ (ret out, s')
      → check_target_for env.net wl i.proxy_url i.url ≡ passed tt
  unfolding sent
  sent_checked u r safe_url i wl s out s' done =
      let m = execute env.net (env.reply i) s.transports wl i.follow i.proxy_url i.url in
      let (last, stream, same) =
        on_outcome-response u r safe_url i m.0.1 (record s { transports = m.1 }) out s' done in
      execute_response env.net (env.reply i) s.transports wl i.follow i.proxy_url i.url last stream
        same

module _ (env : ExecEnv) (now : ℕ) (u : User) (b : ExecuteBody) (id : Option ℕ) (p : Prepared)
    (resolver : Resolver) (a : AdHoc) (s : State) where
  execute_with_checked :
      (wl : List (env.net.Cidr)) (proxy : Str) (out : ExecuteOut) (s' : State)
      → execute_with env now u b id p resolver a wl proxy s ≡ (ret out, s')
      → check_target_for env.net wl proxy a.url ≡ passed tt
  unfolding execute_with
  execute_with_checked wl proxy out s' done =
      let r = new_redactor (used_secrets resolver) in
      let i = in_of env b a (read_timeout env s.db) proxy in
      let (got, s₁, first, last) =
        and_then-eq-ret (sent env u r (text r a.url) i wl s)
          (finish env now u id r (text r a.url) (sort_strings resolver.warnings) p a
            (not (str_eq proxy [])))
          out s' done in
      sent_checked env u r (text r a.url) i wl s got s₁ first

  -- What the request was sent with
  abbrev pub IsChecked : Type 0
  IsChecked =
      (wl : List (env.net.Cidr)) × (proxy : Str) × (parse_whitelist env.net
          (setting_or whitelist_key [] s.db)
        ≡ some wl)
      × (proxy ≡ (if a.use_proxy then trim_space (setting_or proxy_key [] s.db) else []))
      × (contains a.url (codes "{{") ≡ false)
      × (check_target_for env.net wl proxy a.url ≡ passed tt)

  -- A request is only answered with a response if its URL has no placeholder left and has passed the
  -- policy under the whitelist that is stored, for the proxy that is stored, if the request uses one.
  pub execute_composed-IsChecked :
      (out : ExecuteOut) (s' : State)
      → execute_composed env now u b id p resolver a s ≡ (ret out, s')
      → IsChecked
  unfolding execute_composed
  execute_composed-IsChecked out s' done =
      let proxy = if a.use_proxy then trim_space (setting_or proxy_key [] s.db) else [] in
      elim (Bool-cases (contains a.url (codes "{{"))) [
        | inl left ↦ absurd (ground arith)
        | inr clean ↦
            elim (Option-cases (parse_whitelist env.net (setting_or whitelist_key [] s.db))) [
              | inl bad ↦ absurd (ground arith)
              | inr (wl, good) ↦ elim (Bool-cases (not a.use_proxy || not (str_eq proxy []))) [
                | inr unset ↦ absurd (ground arith)
                | inl usable ↦ (
                  wl,
                  proxy,
                  good,
                  refl,
                  clean,
                  execute_with_checked wl proxy out s' (ground arith),
                )
              ]
            ]
      ]
