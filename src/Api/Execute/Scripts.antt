-- ===== src/Api/Execute/Scripts.antt =====
-- internal/httpapi/execute.go: the two scripts of a request, and the tail of their console; with
-- NewEnv, HeaderMap and SortedHeaders of internal/script/context.go.
use post_lite.Base.{
  ltb, ◌==◌, if◌then◌else◌, length, drop, Str, codes, str_eq, trim_right, trim_space, split,
  sort_strings, GoMap, lookup, insert, show_int, ℕ, ◌+◌, ◌-◌, Bool, true, false, not, ◌&&◌, Option,
  none, some, List, [], ◌∷◌, ◌++◌, map, reverse,
}
use post_lite.Executor.Redact.{mask, text, is_sensitive, headers}
use post_lite.Store.{User}
use post_lite.Api.{audit, M, ◌>>◌, respond, refuse}
use post_lite.Api.Execute.{AdHoc, Sandbox, ScriptResponse, ScriptError, ExecEnv, insert_all}

abbrev pub text_or_empty : Option Str → Str
text_or_empty none = []
text_or_empty (some v) = v

unfoldable pub sorted_headers : GoMap Str → List (Str × Str)
sorted_headers m = map (λ k. (k, text_or_empty (lookup k m))) (sort_strings (map (λ p. p.0) m))

-- Later lines of the same name win.
unfoldable pub header_map : List (Str × Str) → GoMap Str
unfolding insert_all
header_map headers = insert_all headers []

-- NewEnv in the closure `sandbox`
abbrev pub new_sandbox : AdHoc → GoMap Str → Sandbox
new_sandbox a values = record {
  method = a.method;
  url = a.url;
  body_type = a.body_type;
  body = a.body;
  headers = sorted_headers a.headers;
  vars = insert_all values [];
  changed = [];
  log = [];
  tests = [];
}

abbrev pub is_blank : Str → Bool
is_blank s = str_eq (trim_space s) []

-- A body that a script has written is sent.
abbrev pub written_type : Str → Str → Str
written_type body_type body =
    if str_eq body_type (codes "none") && not (is_blank body) then codes "raw" else body_type

abbrev pub after_script : AdHoc → Sandbox → AdHoc
after_script a box = record a {
  method = box.method;
  url = box.url;
  body = box.body;
  body_type = written_type a.body_type box.body;
  headers = header_map box.headers;
}

-- What is left of the pre-request script
pub record Prepared : Type 0 where
  pub content : AdHoc
  pub values : GoMap Str
  pub box : Option Sandbox

abbrev pub on_pre : User → AdHoc → GoMap Str → Option ScriptError × Sandbox → M Prepared
on_pre u a values (some e, box) = do
  audit u "execute.script_error" 0 e.message
  refuse 400 (if e.is_timeout then "script_timeout" else "script_error")
on_pre u a values (none, box) =
    respond
      (record { content = after_script a box; values = insert_all box.vars values; box = some box })

-- redactedRequestHeaders
unfoldable pub redacted_request_headers : List Str → GoMap Str → GoMap Str
redacted_request_headers r [] = []
redacted_request_headers r ((k, v) ∷ h) =
    insert k (if is_sensitive k then mask else text r v) (redacted_request_headers r h)

-- What the test script has left
pub record Tested : Type 0 where
  pub box : Option Sandbox
  pub ran : Bool
  pub error : Option Str

abbrev pub on_test : User → Option ScriptError × Sandbox → M Tested
on_test u (none, box) = respond (record { box = some box; ran = true; error = none })
on_test u (some e, box) = do
  audit u "execute.test_script_error" 0 e.message
  respond (record { box = some box; ran = true; error = some e.message })

module _ (env : ExecEnv) where
  open env use {run}

  unfoldable pub run_pre : User → AdHoc → GoMap Str → M Prepared
  unfolding insert_all header_map sorted_headers
  run_pre u a values =
      if is_blank a.script
      then respond (record { content = a; values = values; box = none })
      else on_pre u a values (run a.script none (new_sandbox a values))

  -- The sandbox of the pre-request script, or a new one
  abbrev pub same_sandbox : AdHoc → GoMap Str → Option Sandbox → Sandbox
  same_sandbox a values none = new_sandbox a values
  same_sandbox a values (some box) = box

  -- The request as it was sent, masked
  abbrev pub test_sandbox : List Str → Str → AdHoc → Sandbox → Sandbox
  test_sandbox r safe_url a box = record box {
    method = a.method;
    url = safe_url;
    body_type = a.body_type;
    body = text r a.body;
    headers = sorted_headers (redacted_request_headers r a.headers);
  }

  unfoldable pub run_test :
      User → List Str → Str → AdHoc → GoMap Str → Option Sandbox → ScriptResponse → M Tested
  unfolding insert_all sorted_headers redacted_request_headers
  run_test u r safe_url a values box response =
      if is_blank a.test_script
      then respond (record { box = box; ran = false; error = none })
      else on_test u (
          run a.test_script (some response) (test_sandbox r safe_url a (same_sandbox a values box)))

abbrev pub max_script_log_lines : ℕ
max_script_log_lines = 200

-- 64 << 10
abbrev pub max_script_log_bytes : ℕ
max_script_log_bytes = 65536

abbrev pub truncated_mark : Str
truncated_mark = codes "... output truncated ..."

abbrev pub dropped_mark : ℕ → Str
dropped_mark n = codes "... " ++ show_int n ++ codes " earlier lines dropped ..."

abbrev pub newest_lines : List Str → List Str
newest_lines lines =
    if ltb max_script_log_lines (length lines)
    then dropped_mark (length lines - max_script_log_lines)
      ∷ drop (length lines - max_script_log_lines) lines
    else lines

-- The loop from the last line on: `after` has been passed, with `total` bytes
unfoldable pub fit_bytes : ℕ → List Str → List Str → List Str
fit_bytes total after [] = after
fit_bytes total after (line ∷ before) =
    let rest = fit_bytes (total + (length line + 1)) (line ∷ after) before in
    if ltb max_script_log_bytes (total + (length line + 1)) then truncated_mark ∷ after else rest

unfoldable pub script_log_tail : Str → List Str
unfolding fit_bytes
script_log_tail s =
    if str_eq s []
    then []
    else fit_bytes 0 [] (reverse (newest_lines (split 10 (trim_right (λ c. c == 10) s))))
