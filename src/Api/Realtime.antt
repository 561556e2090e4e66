-- ===== src/Api/Realtime.antt =====
-- internal/httpapi/realtime.go: the tickets, and realtimeConnect, which hands them out. The map of
-- tickets is an association list beside the state; an id is what rand.Read has drawn, in hex.
pub mod Tickets
pub mod Issued
pub mod Relay
pub mod Relayed
use post_lite.Base.{
  ltb, if◌then◌else◌, Str, codes, str_eq, contains, trim_space, split, sort_strings, GoMap, lookup,
  delete, insert, ℕ, ◌+◌, ◌*◌, Bool, not, ◌||◌, Option, none, some, List, [], ◌∷◌, ◌++◌, map,
}
use post_lite.Executor.Resolve.{Resolver, new_resolver, resolve, used_secrets}
use post_lite.Executor.Redact.{new_redactor, text, headers}
use post_lite.Executor.Target.{
  Checked, passed, refused, parse_whitelist, check_target, check_realtime_target,
}
use post_lite.Store.{User}
use post_lite.Store.Access.{can_use_request}
use post_lite.Store.Collections.{get_collection}
use post_lite.Store.Requests.{get_request}
use post_lite.Api.{
  State, audit, Res, ret, fail, M, ◌>>=◌, ◌>>◌, respond, refuse, require_some, check, gets,
  require_user, decode,
}
use post_lite.Api.Secrets.{secret_of}
use post_lite.Api.Settings.{whitelist_key, setting_or}
use post_lite.Api.Environments.{ActivateBody}
use post_lite.Api.Execute.{ExecEnv, request_values}
use post_lite.Api.Execute.Content.{resolve_values, resolve_pairs, look_up_all}

-- 60 seconds, in nanoseconds
abbrev pub ticket_ttl : ℕ
ticket_ttl = 60 * 1000000000

-- What a connection is made of, before and after its placeholders are resolved
pub record Channel : Type 0 where
  pub url : Str
  pub headers : GoMap Str
  pub query : List (Str × Str)
  pub protocols : List Str
  pub event_type : Str

pub record RealtimeBody : Type 0 where
  pub protocol : Str
  pub channel : Channel
  pub request_id : Option ℕ
  pub vars : GoMap Str
  pub active_env : Option ActivateBody

-- splitProtocols
abbrev pub trimmed_parts : List Str → List Str
trimmed_parts [] = []
trimmed_parts (p ∷ ps) =
    let rest = trimmed_parts ps in if str_eq (trim_space p) [] then rest else trim_space p ∷ rest

unfoldable pub split_protocols : Str → List Str
split_protocols body =
    if str_eq (trim_space body) [] then [] else trimmed_parts (split b',' (trim_space body))

module _ (secret : Str → Option Str) where
  unfoldable pub resolve_list : List Str → Resolver → List Str × Resolver
  resolve_list [] r = ([], r)
  resolve_list (p ∷ ps) r =
      let (p', r₁) = resolve secret p r in let (ps', r₂) = resolve_list ps r₁ in (p' ∷ ps', r₂)

  unfoldable pub resolve_channel : Channel → Resolver → Channel × Resolver
  unfolding resolve_list
  resolve_channel c r =
      let (url, r₁) = resolve secret c.url r in
      let (headers, r₂) = resolve_values secret c.headers r₁ in
      let (query, r₃) = resolve_pairs secret c.query r₂ in
      let (protocols, r₄) = resolve_list c.protocols r₃ in
      let (event_type, r₅) = resolve secret c.event_type r₄ in
      (
        record {
          url = url;
          headers = headers;
          query = query;
          protocols = protocols;
          event_type = event_type;
        },
        r₅,
      )

abbrev pub is_ws : Str → Bool
is_ws protocol = str_eq protocol (codes "ws")

module _ (env : ExecEnv) where
  open env use {aead, net, headers_map, query_pairs}

  pub record Ticket : Type 0 where
    pub protocol : Str
    pub channel : Channel
    pub user : User
    pub safe_url : Str
    pub redactor : List Str
    pub whitelist : List (net.Cidr)
    pub expires : ℕ

  -- The sweep of the expired ones
  unfoldable pub sweep : ℕ → GoMap Ticket → GoMap Ticket
  sweep now [] = []
  sweep now ((k, t) ∷ m) =
      let rest = sweep now m in if ltb t.expires now then rest else (k, t) ∷ rest

  unfoldable pub mint_ticket : ℕ → Str → Ticket → GoMap Ticket → GoMap Ticket
  unfolding sweep
  mint_ticket now id t tickets =
      sweep now (insert id (record t { expires = now + ticket_ttl }) tickets)

  abbrev pub take_found : ℕ → Str → GoMap Ticket → Option Ticket → Option Ticket × GoMap Ticket
  take_found now id tickets none = (none, tickets)
  take_found now id tickets (some t) =
      (if ltb t.expires now then none else some t, delete id tickets)

  unfoldable pub take_ticket : ℕ → Str → GoMap Ticket → Option Ticket × GoMap Ticket
  take_ticket now id tickets = take_found now id tickets (lookup id tickets)

  abbrev pub saved_channel : User → ℕ → M Channel
  saved_channel u id = do
    found ← gets (get_request id)
    r ← require_some 404 "not_found" found
    holder ← gets (get_collection r.collection_id)
    c ← require_some 403 "forbidden" holder
    check (can_use_request u r c) 403 "forbidden"
    respond (record {
      url = r.url;
      headers = headers_map r.headers;
      query = query_pairs r.query;
      protocols = split_protocols r.body;
      event_type = r.variables;
    })

  abbrev pub load_channel : User → Option ℕ → Channel → M Channel
  load_channel u (some id) c = saved_channel u id
  load_channel u none c = do check (not (str_eq c.url [])) 400 "bad_request"; respond c

  -- checkRealtimeTarget or ParseWhitelistCheck
  unfoldable pub check_channel : Str → List (net.Cidr) → Str → Checked (Unit {0})
  check_channel protocol wl url =
      if is_ws protocol then check_realtime_target net wl url else check_target net wl url

  abbrev pub require_passed : User → Str → Str → Checked (Unit {0}) → M (Unit {0})
  require_passed u protocol safe_url (passed ok) = respond tt
  require_passed u protocol safe_url (refused e) = do
    audit u "realtime.ssrf_blocked" 0 (protocol ++ codes " " ++ safe_url)
    refuse 451 "ssrf_blocked"

  abbrev pub resolved_channel : ℕ → Channel → GoMap Str → M (Channel × Resolver)
  resolved_channel clock c values s =
      let (c', r) =
        resolve_channel (λ name. (secret_of aead clock name s).0) c (new_resolver values) in
      (ret (c', r), look_up_all aead clock (map (λ p. p.0) r.used) s)

  -- From the resolved channel on: the ticket, which is not minted here, and the warnings
  unfoldable pub ticket_for : User → Str → Channel → Resolver → M (Ticket × List Str)
  unfolding check_channel
  ticket_for u protocol c resolver = do
    check (not (contains c.url (codes "{{"))) 400 "unresolved_variable"
    let r = new_redactor (used_secrets resolver)
    found ← gets (λ db. parse_whitelist net (setting_or whitelist_key [] db))
    wl ← require_some 400 "bad_request" found
    require_passed u protocol (text r c.url) (check_channel protocol wl c.url)
    respond (
      record {
        protocol = protocol;
        channel = c;
        user = u;
        safe_url = text r c.url;
        redactor = r;
        whitelist = wl;
        expires = 0;
      },
      sort_strings resolver.warnings,
    )

  -- From the loaded channel on
  unfoldable pub connect_channel : ℕ → User → RealtimeBody → Channel → M (Ticket × List Str)
  unfolding resolve_channel ticket_for
  connect_channel clock u b c = do
    values ← gets (request_values env u b.active_env b.vars)
    res ← resolved_channel clock c values
    ticket_for u b.protocol res.0 res.1

  unfoldable pub connect_ticket : ℕ → Option User → Option RealtimeBody → M (Ticket × List Str)
  unfolding connect_channel
  connect_ticket clock requester body = do
    u ← require_user requester
    b ← decode body
    check (is_ws b.protocol || str_eq b.protocol (codes "sse")) 400 "bad_request"
    c ← load_channel u b.request_id b.channel
    connect_channel clock u b c

  abbrev pub minted :
      ℕ
      → Str
      → GoMap Ticket
      → Res (Ticket × List Str) × State
      → Res (Str × List Str) × GoMap Ticket × State
  minted clock id tickets (ret (t, warnings), s) =
      (ret (id, warnings), mint_ticket clock id t tickets, s)
  minted clock id tickets (fail status code, s) = (fail status code, tickets, s)

  -- realtimeConnect: the id of the ticket and the warnings
  unfoldable pub realtime_connect :
      ℕ
      → Str
      → Option User
      → Option RealtimeBody
      → GoMap Ticket
      → State
      → Res (Str × List Str) × GoMap Ticket × State
  unfolding connect_ticket mint_ticket
  realtime_connect clock id requester body tickets s =
      minted clock id tickets (connect_ticket clock requester body s)

  -- What realtimeWS and realtimeSSE start with: none is the answer 400
  unfoldable pub open_ticket : Str → ℕ → Str → GoMap Ticket → Option Ticket × GoMap Ticket
  unfolding take_ticket
  open_ticket protocol now id tickets =
      let (found, tickets') = take_ticket now id tickets in
      (
        elim found [ none ↦ none | some t ↦ if str_eq t.protocol protocol then some t else none ],
        tickets',
      )
