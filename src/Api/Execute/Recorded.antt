-- ===== src/Api/Execute/Recorded.antt =====
-- What an execution writes into the history, and what it hides.
use post_lite.Base.{
  if◌then◌else◌, Bool-cases, Option-cases, Str, codes, str_eq, contains, trim_space, sort_strings,
  ℕ, String, ◌≡◌, sym, ap, ◌∙◌, ◌≢◌, ◌⊎◌, inl, inr, true, false, not, ◌||◌, Option, List, [], arith,
}
use post_lite.Executor.Resolve.{Resolver, used_secrets}
use post_lite.Executor.Redact.{is_member, new_redactor, text}
use post_lite.Executor.Redact.Masking.{NoStar, text-new_redactor}
use post_lite.Executor.Target.{parse_whitelist}
use post_lite.Store.{User, HistoryItem}
use post_lite.Store.History.{purge_history}
use post_lite.Api.{State, Res, ret, fail, M, and_then}
use post_lite.Api.Settings.{whitelist_key, proxy_key, setting_or}
use post_lite.Api.Execute.{AdHoc, ExecuteBody, ExecEnv}
use post_lite.Api.Execute.Scripts.{Prepared}
use post_lite.Api.Execute.Sending.{Out, read_timeout, sent, in_of}
use post_lite.Api.Execute.Handler.{ExecuteOut, read_keep, finish, execute_with, execute_composed}
use post_lite.Api.Execute.Finish.{with_row, IsRow, IsFinished, finish-IsFinished, sent_db}

-- A value that is masked
abbrev Hides : Str → Str → Type 0
Hides v s = contains s v ≡ false

module _ (env : ExecEnv) (now : ℕ) (u : User) (b : ExecuteBody) (id : Option ℕ) (p : Prepared)
    (resolver : Resolver) (a : AdHoc) where
  abbrev redactor : List Str
  redactor = new_redactor (used_secrets resolver)

  -- A response of the handler leaves one row more in the history, before it is purged: of this user,
  -- for this request, with the masked URL and the status of the answer.
  abbrev pub IsRecorded : State → ExecuteOut → State → Type 0
  IsRecorded s o s' =
      (row : HistoryItem) × IsRow env now u id redactor (text redactor a.url) o.status row
      × (s'.db ≡ purge_history (read_keep env (with_row row s.db)) (with_row row s.db))

  -- Neither the body nor the final URL contains the value.
  abbrev pub IsMasked : ExecuteOut → Str → Type 0
  IsMasked o v = Hides v o.body × Hides v o.final_url

  abbrev next : Str → Out → M ExecuteOut
  next proxy =
      finish env now u id redactor (text redactor a.url) (sort_strings resolver.warnings) p a
        (not (str_eq proxy []))

  abbrev IsDone : State → Out → ExecuteOut → State → Type 0
  IsDone s out = IsFinished env now u id redactor (text redactor a.url) out s

  IsDone-eq :
      (s : State) (out : Out) (o₁ o : ExecuteOut) (s₁ s' : State)
      → ◌≡◌ {A = Res ExecuteOut × State} (ret o₁, s₁) (ret o, s')
      → IsDone s out o₁ s₁
      → IsDone s out o s'
  IsDone-eq s out o₁ o s₁ s' same h =
      let same_out : o₁ ≡ o = ground arith in
      let same_state : s₁ ≡ s' = ap (λ m. m.1) same in rw (← same_out, ← same_state) h

  after_sent :
      (proxy : Str) (m : Res Out × State) (s : State) (o : ExecuteOut) (s' : State)
      → m.1.db ≡ s.db
      → and_then m (next proxy) ≡ (ret o, s')
      → (out : Out) × IsDone s out o s'
  after_sent proxy (fail status code, s₁) s o s' kept done = absurd (ground arith)
  after_sent proxy (ret out, s₁) s o s' kept done =
      let (o₁, s₂, finished, h) =
        finish-IsFinished env now u id redactor (text redactor a.url)
          (sort_strings resolver.warnings) p a (not (str_eq proxy [])) out s₁ in
      (out, rw (← kept) (IsDone-eq s₁ out o₁ o s₂ s' (sym finished ∙ done) h))

  ret_not_fail :
      (o : ExecuteOut) (status : ℕ) (code : String) (s s' : State)
      → ◌≢◌ {A = Res ExecuteOut × State} (ret o, s) (fail status code, s')
  ret_not_fail o status code s s' same = absurd (ground arith)

  after_failed :
      (proxy : Str) (m : Res Out × State) (s : State) (status : ℕ) (code : String) (s' : State)
      → m.1.db ≡ s.db
      → and_then m (next proxy) ≡ (fail status code, s')
      → s'.db ≡ s.db
  after_failed proxy (fail status₁ code₁, s₁) s status code s' kept done =
      ap (λ m. m.1.db) (sym done) ∙ kept
  after_failed proxy (ret out, s₁) s status code s' kept done =
      let (o₁, s₂, finished, h) =
        finish-IsFinished env now u id redactor (text redactor a.url)
          (sort_strings resolver.warnings) p a (not (str_eq proxy [])) out s₁ in
      absurd (ret_not_fail o₁ status code s₂ s' (sym finished ∙ done))

  composed-cases :
      (s : State)
      → ((status : ℕ) × (code : String) × (execute_composed env now u b id p resolver a s
            ≡ (fail status code, s)))
        ⊎ ((wl : List (env.net.Cidr)) × (proxy : Str) × (execute_composed env now u b id p resolver
                a s
              ≡ execute_with env now u b id p resolver a wl proxy s))
  unfolding execute_composed
  composed-cases s =
      let proxy = if a.use_proxy then trim_space (setting_or proxy_key [] s.db) else [] in
      elim (Bool-cases (contains a.url (codes "{{"))) [
        | inl left ↦ inl (400, "unresolved_variable", ground arith)
        | inr clean ↦
            elim (Option-cases (parse_whitelist env.net (setting_or whitelist_key [] s.db))) [
              | inl bad ↦ inl (400, "bad_request", ground arith)
              | inr (wl, good) ↦ elim (Bool-cases (not a.use_proxy || not (str_eq proxy []))) [
                | inr unset ↦ inl (400, "proxy_not_configured", ground arith)
                | inl usable ↦ inr (wl, proxy, ground arith)
              ]
            ]
      ]

  execute_with-IsDone :
      (wl : List (env.net.Cidr)) (proxy : Str) (s : State) (o : ExecuteOut) (s' : State)
      → execute_with env now u b id p resolver a wl proxy s ≡ (ret o, s')
      → (out : Out) × IsDone s out o s'
  unfolding execute_with
  execute_with-IsDone wl proxy s o s' done =
      let i = in_of env b a (read_timeout env s.db) proxy in
      after_sent proxy (sent env u redactor (text redactor a.url) i wl s) s o s'
        (sent_db env u redactor (text redactor a.url) i wl s) done

  with_failed :
      (wl : List (env.net.Cidr)) (proxy : Str) (s : State) (status : ℕ) (code : String) (s' : State)
      → execute_with env now u b id p resolver a wl proxy s ≡ (fail status code, s')
      → s'.db ≡ s.db
  unfolding execute_with
  with_failed wl proxy s status code s' done =
      let i = in_of env b a (read_timeout env s.db) proxy in
      after_failed proxy (sent env u redactor (text redactor a.url) i wl s) s status code s'
        (sent_db env u redactor (text redactor a.url) i wl s) done

  execute_composed-IsDone :
      (s : State) (o : ExecuteOut) (s' : State)
      → execute_composed env now u b id p resolver a s ≡ (ret o, s')
      → (out : Out) × IsDone s out o s'
  execute_composed-IsDone s o s' done = elim (composed-cases s) [
    | inl (status, code, stopped) ↦ absurd (ret_not_fail o status code s' s (sym done ∙ stopped))
    | inr (wl, proxy, same) ↦ execute_with-IsDone wl proxy s o s' (sym same ∙ done)
  ]

  -- A response leaves one row more in the history, before the history is purged: of this user, for this
  -- request, with the masked URL and the status of the answer; no other table of the store changes, where
  -- the audit log, which a failing test script writes, counts as none of them.
  pub execute_composed-IsRecorded :
      (s : State) (o : ExecuteOut) (s' : State)
      → execute_composed env now u b id p resolver a s ≡ (ret o, s')
      → IsRecorded s o s'
  execute_composed-IsRecorded s o s' done = (execute_composed-IsDone s o s' done).1.2

  -- An execution that is answered with a failure has changed nothing in the store, so that it is not in
  -- the history.
  pub execute_composed_fails :
      (s : State) (status : ℕ) (code : String) (s' : State)
      → execute_composed env now u b id p resolver a s ≡ (fail status code, s')
      → s'.db ≡ s.db
  execute_composed_fails s status code s' done = elim (composed-cases s) [
    | inl (status₁, code₁, stopped) ↦ ap (λ m. m.1.db) (sym done ∙ stopped)
    | inr (wl, proxy, same) ↦ with_failed wl proxy s status code s' (sym same ∙ done)
  ]

  -- Neither the body that is answered nor the final URL contains a secret that was put into the request,
  -- whatever the server has sent back, if the secret is not empty and has no star in it.
  pub execute_composed_masks :
      (s : State) (o : ExecuteOut) (s' : State) (v : Str)
      → execute_composed env now u b id p resolver a s ≡ (ret o, s')
      → is_member v (used_secrets resolver) ≡ true
      → v ≢ []
      → NoStar v
      → IsMasked o v
  execute_composed_masks s o s' v done used full plain =
      let (out, (body, url, row)) = execute_composed-IsDone s o s' done in
      (
        rw body (text-new_redactor (used_secrets resolver) v out.captured.body used full plain),
        rw url (text-new_redactor (used_secrets resolver) v out.details.final_url used full plain),
      )
