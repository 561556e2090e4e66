-- ===== src/Executor/Http.antt =====
-- Executor.Execute of internal/executor/http.go: the transport, the redirects and the captured body.
-- The servers behind http.Client are the parameter `respond`: what a request for a URL gets after so many
-- requests of the same execution. A URL is the one that is checked: the query of the request, which
-- Execute adds to the first URL after the check and which changes neither its scheme nor its host, is
-- known to `respond`, as its headers and body are.
pub mod Redirects
pub mod Capture
use post_lite.Base.{
  ltb, leb, if◌then◌else◌, length, take, Str, codes, str_eq, GoMap, lookup, insert, ℕ, zero, suc,
  ◌+◌, Bool, false, not, ◌&&◌, Option, none, some, List, [], ◌∷◌,
}
use post_lite.Executor.Target.{Url, Net, TargetError, passed, refused, is_http, check_target_for}

abbrev pub max_redirects : ℕ
max_redirects = 5

-- 10 << 20 and 1 << 20
abbrev pub max_body_bytes : ℕ
max_body_bytes = 10485760

abbrev pub history_body_bytes : ℕ
history_body_bytes = 1048576

pub data Reply : Type 0 where
  -- a response with no redirect: its body
  final : Str → Reply
  -- a redirect: the URL that it names, and the body beside it
  redirect : Str → Str → Reply
  broken : Reply

pub data HttpError : Type 0 where
  bad_proxy : HttpError
  ssrf : TargetError → HttpError
  too_many_redirects : HttpError
  upstream : HttpError

pub data Outcome : Type 0 where
  response : Str → Str → Outcome
  failed : HttpError → Outcome
  out_of_fuel : Outcome

pub record Captured : Type 0 where
  pub body : Str
  pub truncated : Bool
  pub final_url : Str

-- io.LimitReader(resp.Body, cap + 1), and the cut
unfoldable pub capture : ℕ → Str → Str → Captured
capture limit url stream =
    let read = take (suc limit) stream in
    let truncated = ltb limit (length read) in
    record {
      body = if truncated then take limit read else read;
      truncated = truncated;
      final_url = url;
    }

-- HistoryBody
unfoldable pub history_body : ℕ → Captured → Str
history_body limit out = if ltb limit (length out.body) then take limit out.body else out.body

-- What is sent as the request's body
abbrev pub body_sent : Str → Str → Str
body_sent body_type body =
    if not (str_eq body_type (codes "none")) && not (str_eq body []) then body else []

-- The Content-Type that is added for a JSON body where the request has none
abbrev pub content_type : Str → Str → Str
content_type body_type given =
    if str_eq body_type (codes "json") && str_eq given [] then codes "application/json" else given

-- transportFor: the transports by proxy URL, each named by the URL it was made for
pub data Transport : Type 0 where
  direct : Transport
  through : Str → Transport

module _ (n : Net) where
  open n use {Cidr, parse_url}

  abbrev pub usable_proxy : Option Url → Bool
  usable_proxy none = false
  usable_proxy (some u) = is_http n u.scheme && not (str_eq u.host [])

  abbrev pub cached_transport :
      GoMap Transport → Str → Option Transport → Option Transport × GoMap Transport
  cached_transport proxied proxy (some t) = (some t, proxied)
  cached_transport proxied proxy none =
      if usable_proxy (parse_url proxy)
      then (some (through proxy), insert proxy (through proxy) proxied)
      else (none, proxied)

  unfoldable pub transport_for : GoMap Transport → Str → Option Transport × GoMap Transport
  transport_for proxied proxy =
      if str_eq proxy []
      then (some direct, proxied)
      else cached_transport proxied proxy (lookup proxy proxied)

  module _ (respond : ℕ → Transport → Str → Reply) (wl : List Cidr) (follow : Bool) (proxy : Str)
      (t : Transport) where
    -- CheckRedirect for the redirect to `target` after `via` requests, the first included: none lets
    -- the client go on.
    abbrev pub check_redirect : ℕ → Str → Str → Str → Option Outcome
    check_redirect via url target body =
        if leb max_redirects via
        then some (failed too_many_redirects)
        else if not follow
        then some (response url body)
        else elim (check_target_for n wl proxy target) [
          | refused e ↦ some (failed (ssrf e))
          | passed ok ↦ none
        ]

    abbrev pub continue :
        Str → (Unit {0} → List Str × Outcome) → Option Outcome → List Str × Outcome
    continue url next (some out) = (url ∷ [], out)
    continue url next none = let (urls, out) = next tt in (url ∷ urls, out)

    abbrev pub on_reply : ℕ → Str → (Str → List Str × Outcome) → Reply → List Str × Outcome
    on_reply via url next (final body) = (url ∷ [], response url body)
    on_reply via url next broken = (url ∷ [], failed upstream)
    on_reply via url next (redirect target body) =
        continue url (λ _. next target) (check_redirect via url target body)

    -- client.Do from the request for `url` on, after `via` requests: the URLs that are contacted, and
    -- the outcome. A request is one round of fuel.
    unfoldable pub do_from : ℕ → ℕ → Str → List Str × Outcome
    do_from zero via url = ([], out_of_fuel)
    do_from (suc fuel) via url =
        on_reply (via + 1) url (λ target. do_from fuel (via + 1) target) (respond via t url)

  abbrev pub visit :
      (ℕ → Transport → Str → Reply)
      → List Cidr
      → Bool
      → Str
      → Str
      → Option Transport
      → List Str × Outcome
  visit respond wl follow proxy url none = ([], failed bad_proxy)
  visit respond wl follow proxy url (some t) = elim (check_target_for n wl proxy url) [
    | refused e ↦ ([], failed (ssrf e))
    | passed ok ↦ do_from respond wl follow proxy t (max_redirects + 1) 0 url
  ]

  -- Execute: the URLs that are contacted and the outcome, and the transports afterwards
  unfoldable pub execute :
      (ℕ → Transport → Str → Reply)
      → GoMap Transport
      → List Cidr
      → Bool
      → Str
      → Str
      → (List Str × Outcome) × GoMap Transport
  unfolding transport_for do_from
  execute respond proxied wl follow proxy url =
      let (t, proxied') = transport_for proxied proxy in
      (visit respond wl follow proxy url t, proxied')
