-- ===== src/Api/Execute/Finish.antt =====
-- What the end of an execution answers and writes.
use post_lite.Base.{
  Bool-cases, Str, GoMap, ℕ, ◌≡◌, refl, ap, ◌∙◌, inl, inr, Bool, false, Option, none, some, List,
  [], ◌∷◌, ◌++◌, arith,
}
use post_lite.Executor.Redact.{text}
use post_lite.Executor.Http.{HttpError, Outcome, response, failed, out_of_fuel, execute}
use post_lite.Store.{User, HistoryItem, Db}
use post_lite.Store.History.{insert_history, purge_history}
use post_lite.Api.{State, ret, and_then, ◌>>◌, respond}
use post_lite.Api.Execute.{AdHoc, Sandbox, ScriptResponse, ScriptError, In, ExecEnv}
use post_lite.Api.Execute.Scripts.{
  is_blank, Prepared, Tested, on_test, same_sandbox, test_sandbox, run_test,
}
use post_lite.Api.Execute.Sending.{Out, on_error, on_outcome, sent}
use post_lite.Api.Execute.Handler.{
  ExecuteOut, read_keep, record_out, script_response, answer_of, finish,
}

abbrev pub with_row : HistoryItem → Db → Db
with_row row db = record db { history = db.history ++ row ∷ [] }

module _ (env : ExecEnv) (now : ℕ) (u : User) (id : Option ℕ) (r : List Str) where
  -- The row that a response leaves
  abbrev pub IsRow : Str → ℕ → HistoryItem → Type 0
  IsRow url status row =
      (row.user_id ≡ u.id) × (row.request_id ≡ id) × (row.url ≡ url) × (row.status ≡ status)

  record_out-IsRow :
      (safe_url : Str) (a : AdHoc) (out : Out) (s : State)
      → (row : HistoryItem) × IsRow safe_url out.details.status row
        × (record_out env now u id r safe_url a out s ≡ (
          ret tt,
          record s { db = purge_history (read_keep env (with_row row s.db)) (with_row row s.db) },
        ))
  unfolding record_out insert_history
  record_out-IsRow safe_url a out s = (_, (refl, refl, refl, refl), refl)

  on_test_db :
      (t : Option ScriptError × Sandbox) (s : State)
      → (t' : Tested) × (s' : State) × (on_test u t s ≡ (ret t', s')) × (s'.db ≡ s.db)
  on_test_db (none, box) s = (_, s, refl, refl)
  on_test_db (some e, box) s = (_, _, refl, refl)

  run_test_db :
      (safe_url : Str) (a : AdHoc) (values : GoMap Str) (box : Option Sandbox)
      (seen : ScriptResponse) (s : State)
      → (t : Tested) × (s' : State) × (run_test env u r safe_url a values box seen s ≡ (ret t, s'))
        × (s'.db ≡ s.db)
  unfolding run_test
  run_test_db safe_url a values box seen s = elim (Bool-cases (is_blank a.test_script)) [
    | inl blank ↦ (record { box = box; ran = false; error = none }, s, ground arith, refl)
    | inr full ↦
        let t =
          env.run a.test_script (some seen)
            (test_sandbox env r safe_url a (same_sandbox env a values box)) in
        let (t', s', same, kept) = on_test_db t s in (t', s', ground arith, kept)
  ]

  -- What `finish` answers and leaves for a response
  abbrev pub IsFinished : Str → Out → State → ExecuteOut → State → Type 0
  IsFinished safe_url out s o s' =
      (o.body ≡ text r out.captured.body)
      × (o.final_url ≡ text r out.details.final_url)
      × ((row : HistoryItem) × IsRow safe_url o.status row
          × (s'.db ≡ purge_history (read_keep env (with_row row s.db)) (with_row row s.db)))

  pub finish-IsFinished :
      (safe_url : Str) (warnings : List Str) (p : Prepared) (a : AdHoc) (proxied : Bool) (out : Out)
      (s : State)
      → (o : ExecuteOut) × (s' : State) × (finish env now u id r safe_url warnings p a proxied out s
          ≡ (ret o, s'))
        × IsFinished safe_url out s o s'
  unfolding finish
  finish-IsFinished safe_url warnings p a proxied out s =
      let (t, s₁, tested, kept) =
        run_test_db safe_url a p.values p.box (script_response env r out) s in
      let (row, is_row, written) = record_out-IsRow safe_url a out s₁ in
      (
        answer_of env r warnings proxied out t,
        record s₁ { db = purge_history (read_keep env (with_row row s₁.db)) (with_row row s₁.db) },
        ap
              (λ m. and_then m (λ t'.
                record_out env now u id r safe_url a out
                >> respond (answer_of env r warnings proxied out t')))
              tested
            ∙ ap (λ m. and_then m (λ _. respond (answer_of env r warnings proxied out t))) written,
        (refl, refl, (row, is_row, rw kept refl)),
      )

module _ (env : ExecEnv) where
  on_error_db :
      (u : User) (r : List Str) (method safe_url : Str) (e : HttpError) (s : State)
      → (on_error env u r method safe_url e s).1.db ≡ s.db
  on_error_db u r method safe_url e s = ground arith

  on_outcome_db :
      (u : User) (r : List Str) (safe_url : Str) (i : In) (o : Outcome) (s : State)
      → (on_outcome env u r safe_url i o s).1.db ≡ s.db
  on_outcome_db u r safe_url i (response last stream) s = refl
  on_outcome_db u r safe_url i (failed e) s = on_error_db u r i.method safe_url e s
  on_outcome_db u r safe_url i out_of_fuel s = refl

  pub sent_db :
      (u : User) (r : List Str) (safe_url : Str) (i : In) (wl : List (env.net.Cidr)) (s : State)
      → (sent env u r safe_url i wl s).1.db ≡ s.db
  unfolding sent
  sent_db u r safe_url i wl s =
      let m = execute env.net (env.reply i) s.transports wl i.follow i.proxy_url i.url in
      on_outcome_db u r safe_url i m.0.1 (record s { transports = m.1 })
