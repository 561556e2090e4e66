-- ===== src/Api/Execute/Sending.antt =====
-- internal/httpapi/execute.go: the settings that execute reads, the sending, and its errors.
use post_lite.Base.{
  if◌then◌else◌, Str, codes, str_eq, trim_space, ℕ, Bool, true, false, not, ◌||◌, Option, none,
  some, List, [], ◌++◌,
}
use post_lite.Executor.Redact.{text}
use post_lite.Executor.Http.{
  max_body_bytes, HttpError, ssrf, Outcome, response, failed, out_of_fuel, Captured, capture,
  execute,
}
use post_lite.Store.{User, Db}
use post_lite.Api.{audit, M, ◌>>=◌, ◌>>◌, respond, refuse, check, gets}
use post_lite.Api.Settings.{timeout_key, proxy_key, setting_or, parse_timeout}
use post_lite.Api.Execute.{AdHoc, ExecuteBody, In, Details, ExecEnv}

-- executor.Out
pub record Out : Type 0 where
  pub captured : Captured
  pub details : Details

module _ (env : ExecEnv) where
  open env use {
    aead, net, graphql_body, parse_duration, run, reply, details, is_timeout, error_text, timeout,
    max_history,
  }

  abbrev pub compose_with : AdHoc → Option Str → M AdHoc
  compose_with a none = refuse 400 "bad_request"
  compose_with a (some body) = respond (record a { body = body; body_type = codes "json" })

  abbrev pub compose : AdHoc → M AdHoc
  compose a =
      if str_eq a.body_type (codes "graphql")
      then compose_with a (graphql_body a.body a.variables)
      else respond a

  abbrev pub timeout_or : Option ℕ → ℕ
  timeout_or none = timeout
  timeout_or (some d) = d

  abbrev pub timeout_from : Str → ℕ
  timeout_from v = if str_eq v [] then timeout else timeout_or (parse_timeout parse_duration v)

  abbrev pub read_timeout : Db → ℕ
  read_timeout db = timeout_from (setting_or timeout_key [] db)

  abbrev pub read_proxy : Bool → M Str
  read_proxy use_proxy = do
    proxy ← gets (λ db. if use_proxy then trim_space (setting_or proxy_key [] db) else [])
    check (not use_proxy || not (str_eq proxy [])) 400 "proxy_not_configured"
    respond proxy

  abbrev pub is_ssrf : HttpError → Bool
  is_ssrf (ssrf e) = true
  is_ssrf _ = false

  abbrev pub on_error : User → List Str → Str → Str → HttpError → M Out
  on_error u r method safe_url e =
      if is_timeout e
      then refuse 504 "timeout"
      else if is_ssrf e
      then (do
        audit u "execute.ssrf_blocked" 0
            (method ++ codes " " ++ safe_url ++ codes " -> " ++ text r (error_text e))
        refuse 451 "ssrf_blocked")
      else refuse 502 "upstream_error"

  -- Execute ends before its fuel does.
  abbrev pub on_outcome : User → List Str → Str → In → Outcome → M Out
  on_outcome u r safe_url i (response url stream) =
      respond (record { captured = capture max_body_bytes url stream; details = details i url })
  on_outcome u r safe_url i (failed e) = on_error u r i.method safe_url e
  on_outcome u r safe_url i out_of_fuel = refuse 502 "upstream_error"

  -- s.Exec.Execute
  unfoldable pub sent : User → List Str → Str → In → List (net.Cidr) → M Out
  unfolding capture execute
  sent u r safe_url i wl s =
      let ((urls, out), transports) =
        execute net (reply i) s.transports wl i.follow i.proxy_url i.url in
      on_outcome u r safe_url i out (record s { transports = transports })

  abbrev pub in_of : ExecuteBody → AdHoc → ℕ → Str → In
  in_of b a timeout proxy = record {
    method = a.method;
    url = a.url;
    headers = a.headers;
    query = a.query;
    body_type = a.body_type;
    body = a.body;
    follow = b.follow_redirects;
    timeout = timeout;
    proxy_url = proxy;
  }
