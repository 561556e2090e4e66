-- ===== src/Api/Execute/Handler.antt =====
-- internal/httpapi/execute.go: execute, and what it does from the response on.
use post_lite.Base.{
  ◌==◌, if◌then◌else◌, Str, codes, str_eq, contains, sort_strings, GoMap, show_int, parse_int, ℕ,
  Bool, not, Option, none, some, List, [],
}
use post_lite.Executor.Resolve.{Resolver, used_secrets}
use post_lite.Executor.Redact.{new_redactor, text, headers, request_snapshot, response_snapshot}
use post_lite.Executor.Target.{parse_whitelist}
use post_lite.Executor.Http.{history_body_bytes, history_body}
use post_lite.Store.{User, Db}
use post_lite.Store.History.{insert_history, purge_history}
use post_lite.Api.{M, ◌>>=◌, ◌>>◌, respond, require_some, check, gets, modify, require_user, decode}
use post_lite.Api.Settings.{whitelist_key, history_key, setting_or}
use post_lite.Api.Execute.{AdHoc, ExecuteBody, ScriptResponse, ExecEnv, load_draft, request_values}
use post_lite.Api.Execute.Scripts.{Prepared, Tested, run_pre, run_test, script_log_tail}
use post_lite.Api.Execute.Content.{resolved}
use post_lite.Api.Execute.Sending.{Out, compose, read_timeout, read_proxy, sent, in_of}

pub record ScriptOut : Type 0 where
  pub logs : List Str
  pub vars : GoMap Str
  pub tests : List (Str × Option Str)
  pub test_error : Option Str

-- The payload of the answer
pub record ExecuteOut : Type 0 where
  pub status : ℕ
  pub status_text : Str
  pub duration_ms : ℕ
  pub headers : GoMap (List Str)
  pub body : Str
  pub body_truncated : Bool
  pub final_url : Str
  pub warnings : List Str
  pub proxied : Bool
  pub script : Option ScriptOut

module _ (env : ExecEnv) where
  open env use {net, max_history}

  abbrev pub keep_or : Option ℕ → ℕ
  keep_or none = max_history
  keep_or (some n) = if n == 0 then max_history else n

  -- The max_history setting, where it is a number above 0
  abbrev pub read_keep : Db → ℕ
  read_keep db =
      let v = setting_or history_key [] db in
      if str_eq v [] then max_history else keep_or (parse_int v)

  abbrev pub write_history : ℕ → Option ℕ → User → Str → Str → ℕ → ℕ → Str → Str → M (Unit {0})
  write_history now request_id u method url status duration req res = modify (λ db.
      let db' = (insert_history now request_id u.id method url status duration req res db).1 in
      purge_history (read_keep db') db')

  abbrev pub script_out : Tested → Option ScriptOut
  script_out t = elim t.box [
    | none ↦ none
    | some box ↦ some (record {
      logs = script_log_tail box.log;
      vars = box.changed;
      tests = box.tests;
      test_error = t.error;
    })
  ]

  -- The row in the history; the headers in both snapshots are those of the response.
  unfoldable pub record_out : ℕ → User → Option ℕ → List Str → Str → AdHoc → Out → M (Unit {0})
  record_out now u request_id r safe_url a out =
      let shown = headers r out.details.headers in
      write_history now request_id u a.method safe_url out.details.status out.details.duration_ms
        (request_snapshot r a.method out.details.final_url shown (text r a.body))
        (response_snapshot r (show_int out.details.status) shown
          (history_body history_body_bytes out.captured))

  -- What the test script sees of the response
  abbrev pub script_response : List Str → Out → ScriptResponse
  script_response r out = record {
    code = out.details.status;
    status = out.details.status_text;
    duration_ms = out.details.duration_ms;
    body = text r out.captured.body;
    headers = headers r out.details.headers;
    truncated = out.captured.truncated;
    final_url = text r out.details.final_url;
  }

  abbrev pub answer_of : List Str → List Str → Bool → Out → Tested → ExecuteOut
  answer_of r warnings proxied out t = record {
    status = out.details.status;
    status_text = out.details.status_text;
    duration_ms = out.details.duration_ms;
    headers = headers r out.details.headers;
    body = text r out.captured.body;
    body_truncated = out.captured.truncated;
    final_url = text r out.details.final_url;
    warnings = warnings;
    proxied = proxied;
    script = script_out t;
  }

  -- From the response on: the test script, the history and the answer
  unfoldable pub finish :
      ℕ → User → Option ℕ → List Str → Str → List Str → Prepared → AdHoc → Bool → Out → M ExecuteOut
  unfolding run_test record_out
  finish now u request_id r safe_url warnings prepared a proxied out = do
    t ← run_test env u r safe_url a prepared.values prepared.box (script_response r out)
    record_out now u request_id r safe_url a out
    respond (answer_of r warnings proxied out t)

  -- Execute on what has been read from the settings
  unfoldable pub execute_with :
      ℕ
      → User
      → ExecuteBody
      → Option ℕ
      → Prepared
      → Resolver
      → AdHoc
      → List (net.Cidr)
      → Str
      → M ExecuteOut
  unfolding sent finish
  execute_with now u b request_id prepared resolver a wl proxy = do
    timeout ← gets (read_timeout env)
    let r = new_redactor (used_secrets resolver)
    out ← sent env u r (text r a.url) (in_of env b a timeout proxy) wl
    finish now u request_id r (text r a.url) (sort_strings resolver.warnings) prepared a
        (not (str_eq proxy [])) out

  -- From the composed content on
  unfoldable pub execute_composed :
      ℕ → User → ExecuteBody → Option ℕ → Prepared → Resolver → AdHoc → M ExecuteOut
  unfolding execute_with
  execute_composed now u b request_id prepared resolver a = do
    check (not (contains a.url (codes "{{"))) 400 "unresolved_variable"
    found ← gets (λ db. parse_whitelist net (setting_or whitelist_key [] db))
    wl ← require_some 400 "bad_request" found
    proxy ← read_proxy env a.use_proxy
    execute_with now u b request_id prepared resolver a wl proxy

  -- `clock` is the clock of the vault in nanoseconds, `now` that of the store.
  unfoldable pub execute_handler : ℕ → ℕ → Option User → Option ExecuteBody → M ExecuteOut
  unfolding run_pre execute_composed
  execute_handler clock now requester body = do
    u ← require_user requester
    b ← decode body
    d ← load_draft env u b
    values ← gets (request_values env u b.active_env b.vars)
    prepared ← run_pre env u d.content values
    res ← resolved env clock prepared.content prepared.values
    a ← compose env res.content
    execute_composed now u b d.request_id prepared res.resolver a
