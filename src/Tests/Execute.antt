-- ===== src/Tests/Execute.antt =====
-- The execute handler at concrete inputs.
use post_lite.Api.Execute.Exposed.{request_values_expose}
use post_lite.Api.Execute.Values.{or_from, last_value, value_in, lookup-request_values}
use post_lite.Api.Execute.Recorded.{
  IsRecorded, IsMasked, execute_composed-IsRecorded, execute_composed_masks,
}
use post_lite.Store.{Environment}
use post_lite.Api.Execute.Outcomes.{IsChecked, execute_composed-IsChecked}
use post_lite.Base.{
  ◌++◌, if◌then◌else◌, length, Str, codes, str_eq, cut, sort_strings, GoMap, lookup, show_from,
  show_int, parse_digits, parse_int, ℕ, String, ◌≡◌, refl, false, Option, none, some, [], ◌∷◌,
  arith,
}
use post_lite.Executor.Resolve.{
  name_run, closed_name, placeholder, Resolver, new_resolver, add_once, substitute, resolve_from,
  resolve,
}
use post_lite.Executor.Redact.{
  dedup, insert_by_length, sort_by_length, new_redactor, replace_from, replace_all, text,
  is_sensitive, masked_values, headers, header_lines, lines_in_order, header_block,
  request_snapshot, response_snapshot,
}
use post_lite.Executor.Target.{parse_parts}
use post_lite.Executor.Http.{final, capture, history_body, transport_for, do_from, execute}
use post_lite.Store.Environments.{get_environment}
use post_lite.Store.History.{insert_history, purge_history}
use post_lite.Store.Settings.{get_setting, set_setting}
use post_lite.Api.{State, Res, ret, fail}
use post_lite.Api.Requests.{is_method_token_char, normalize_method}
use post_lite.Api.Settings.{setting_or}
use post_lite.Api.Secrets.Fresh.{create, happened}
use post_lite.Api.Environments.{ActivateBody, get_environment_handler, active_env_ids}
use post_lite.Api.Execute.{AdHoc, ExecuteBody, ExecEnv, insert_all, load_draft, request_values}
use post_lite.Api.Execute.Scripts.{
  sorted_headers, header_map, Prepared, redacted_request_headers, run_pre, run_test, fit_bytes,
  script_log_tail,
}
use post_lite.Api.Execute.Content.{resolve_values, resolve_pairs, resolve_content, look_up_all}
use post_lite.Api.Execute.Sending.{sent}
use post_lite.Api.Execute.Handler.{
  ScriptOut, ExecuteOut, record_out, finish, execute_with, execute_composed, execute_handler,
}
use post_lite.Tests.Store.{root, ann, bob, db}
use post_lite.Tests.Net.{lab, policy}
use post_lite.Tests.Vault.{vaults, plainly, nonce, empty}

unfoldable pub execution : Unit {0}
unfolding vaults policy execute_handler execute_composed execute_with finish record_out sent run_pre
    run_test load_draft request_values insert_all resolve_content resolve_values resolve_pairs
    look_up_all sorted_headers header_map redacted_request_headers script_log_tail fit_bytes
    setting_or get_setting set_setting insert_history purge_history normalize_method resolve
    resolve_from placeholder name_run closed_name substitute add_once new_redactor dedup
    sort_by_length insert_by_length text replace_all replace_from headers masked_values is_sensitive
    header_block lines_in_order header_lines request_snapshot response_snapshot capture history_body
    execute do_from transport_for active_env_ids parse_int parse_digits show_int show_from
    sort_strings get_environment is_method_token_char parse_parts last_value
execution = tt

-- One variable, "name=value"
abbrev one_var : Str → GoMap Str
one_var s = if str_eq s [] then [] else cut b'=' s ∷ []

-- A script "fail" fails; the server answers with the key that it was sent.
abbrev pub env : ExecEnv
env = record {
  aead = plainly;
  net = lab;
  parse_vars = one_var;
  headers_map = λ s. [];
  query_pairs = λ s. [];
  graphql_body = λ b v. none;
  parse_duration = λ s. none;
  run = λ src seen box.
      if str_eq src (codes "fail")
      then (some (record { is_timeout = false; message = codes "oops" }), box)
      else (none, record box { log = codes "done\n" });
  reply = λ i via t url. final (codes "key v1");
  details = λ i url. record {
    status = 200;
    status_text = codes "200 OK";
    duration_ms = 3;
    headers = [];
    final_url = url;
  };
  is_timeout = λ e. false;
  error_text = λ e. [];
  timeout = 60;
  max_history = 2;
}

abbrev stocked : State
stocked =
    happened plainly
      (create (some root) 5 nonce (some (record { name = codes "api"; value = codes "v1" })) ∷ [])
      empty

abbrev call : String → String → AdHoc
call url script = record {
  method = [];
  url = codes url;
  headers = (codes "X-Key", codes "{{sec.api}}") ∷ [];
  query = [];
  body_type = codes "none";
  body = [];
  variables = [];
  script = codes script;
  test_script = [];
  use_proxy = false;
}

abbrev body_of : AdHoc → ExecuteBody
body_of a = record {
  request_id = none;
  ad_hoc = some a;
  vars = [];
  active_env = none;
  follow_redirects = false;
}

abbrev status_of {ℓ} : {A : Type ℓ} → Res A × State → ℕ
status_of (ret a, s) = 200
status_of (fail status code, s) = status

abbrev run_call : String → String → Res ExecuteOut × State
run_call url script = execute_handler env 8 9 (some bob) (some (body_of (call url script))) stocked

abbrev answer : Option ScriptOut → ExecuteOut
answer script = record {
  status = 200;
  status_text = codes "200 OK";
  duration_ms = 3;
  headers = [];
  body = codes "key ***";
  body_truncated = false;
  final_url = codes "http://good.test";
  warnings = [];
  proxied = false;
  script = script;
}

execute_handler_tests :
    ((run_call "http://good.test" "").0 ≡ ret (answer none))
    × (status_of (run_call "http://10.0.0.1" "") ≡ 451)
    × (status_of (run_call "http://{{host}}" "") ≡ 400)
    × (status_of (run_call "http://good.test" "fail") ≡ 400)
    × (status_of (run_call "" "") ≡ 400)
    × (length (run_call "http://good.test" "").1.db.history ≡ 2)
    × ((run_call "http://good.test" "fail").1.db.history ≡ stocked.db.history)
unfolding execution
execute_handler_tests = (refl, refl, refl, refl, refl, refl, refl)

-- What is resolved of the call, and what comes of it
abbrev sent_call : AdHoc
sent_call = record (call "http://good.test" "") {
  method = codes "GET";
  headers = (codes "X-Key", codes "v1") ∷ [];
}

abbrev used_one : Resolver
used_one = record { values = []; warnings = []; used = (codes "api", codes "v1") ∷ [] }

abbrev prepared : Prepared
prepared = record { content = sent_call; values = []; box = none }

abbrev executed : Res ExecuteOut × State
executed =
    execute_composed env 9 bob (body_of (call "http://good.test" "")) none prepared used_one
      sent_call stocked

execute_composed-IsChecked_example :
    IsChecked env 9 bob
      (body_of (call "http://good.test" ""))
      none
      prepared
      used_one
      sent_call
      stocked
unfolding execution
execute_composed-IsChecked_example =
    execute_composed-IsChecked env 9 bob (body_of (call "http://good.test" "")) none prepared
      used_one sent_call stocked (answer none) executed.1 refl

execute_composed-IsRecorded_example :
    IsRecorded env 9 bob
      (body_of (call "http://good.test" ""))
      none
      prepared
      used_one
      sent_call
      stocked
      (answer none)
      executed.1
unfolding execution
execute_composed-IsRecorded_example =
    execute_composed-IsRecorded env 9 bob (body_of (call "http://good.test" "")) none prepared
      used_one sent_call stocked (answer none) executed.1 refl

execute_composed_masks_example :
    IsMasked env 9 bob
      (body_of (call "http://good.test" ""))
      none
      prepared
      used_one
      sent_call
      (answer none)
      (codes "v1")
unfolding execution
execute_composed_masks_example =
    execute_composed_masks env 9 bob (body_of (call "http://good.test" "")) none prepared used_one
      sent_call stocked (answer none) executed.1 (codes "v1") refl refl (λ e. cc) (ground arith)

abbrev anns_env : Environment
anns_env = record {
  id = 2;
  name = codes "mine";
  scope = codes "user";
  owner_id = some 2;
  vars = codes "host=h1";
}

abbrev with_env : State
with_env = record empty { db = record db { environments = anns_env ∷ [] } }

request_values_expose_example :
    let named : ActivateBody = record { global_env_id = none; user_env_id = some 2 } in
    let values = request_values env bob (some named) [] with_env.db in
    (get_environment_handler env.parse_vars (λ m. []) (some bob) (some 2) with_env
      ≡ (fail 403 "forbidden", with_env))
    × (lookup (codes "host") values ≡ some (codes "h1"))
    × ((resolve_content (λ n. none) (call "http://{{host}}" "") (new_resolver values)).0.url
        ≡ codes "http://" ++ codes "h1")
unfolding execution
request_values_expose_example =
    request_values_expose env bob anns_env with_env (codes "host") (codes "h1") (codes "http://")
      (λ n. none) (call "http://{{host}}" "") refl refl refl
      (λ e. cc, (refl, (refl, (refl, (refl, tt)))))
      (
        omega arith,
        (
          omega arith,
          (omega arith, (omega arith, (omega arith, (omega arith, (omega arith, tt))))),
        ),
      )
      refl

lookup-request_values_example :
    lookup (codes "host") (
      request_values env ann
        (some (record { global_env_id = none; user_env_id = some 2 }))
        []
        with_env.db)
    ≡ or_from (last_value (codes "host") []) (
        or_from
          (value_in env (codes "host") (some 2) with_env.db)
          (value_in env (codes "host") (active_env_ids ann with_env.db).0 with_env.db))
lookup-request_values_example =
    lookup-request_values env ann (some (record { global_env_id = none; user_env_id = some 2 })) []
      with_env.db (codes "host")
