-- ===== src/Api/Execute.antt =====
-- internal/httpapi/execute.go: what a request to execute is made of, up to its values. The script
-- engine, JSON, package url and the servers are the record `ExecEnv`.
pub mod Scripts
pub mod Content
pub mod Sending
pub mod Handler
pub mod Finish
pub mod Values
pub mod Exposed
pub mod LogTail
pub mod Outcomes
pub mod Recorded
use post_lite.Base.{
  if◌then◌else◌, Str, codes, str_eq, trim_space, GoMap, insert, ℕ, Bool, not, Option, none, some,
  List, [], ◌∷◌,
}
use post_lite.Crypto.Vault.{Aead}
use post_lite.Executor.Target.{Net}
use post_lite.Executor.Http.{Reply, HttpError, Transport}
use post_lite.Store.{User, Request, Environment, Db}
use post_lite.Store.Access.{can_use_request}
use post_lite.Store.Collections.{get_collection}
use post_lite.Store.Requests.{get_request}
use post_lite.Store.Environments.{get_environment}
use post_lite.Api.{M, ◌>>=◌, ◌>>◌, respond, refuse, require_some, check, gets}
use post_lite.Api.Requests.{normalize_method}
use post_lite.Api.Environments.{ActivateBody, active_env_ids}

pub record AdHoc : Type 0 where
  pub method : Str
  pub url : Str
  pub headers : GoMap Str
  pub query : List (Str × Str)
  pub body_type : Str
  pub body : Str
  pub variables : Str
  pub script : Str
  pub test_script : Str
  pub use_proxy : Bool

pub record ExecuteBody : Type 0 where
  pub request_id : Option ℕ
  pub ad_hoc : Option AdHoc
  pub vars : GoMap Str
  pub active_env : Option ActivateBody
  pub follow_redirects : Bool

-- The variables in which execute keeps the request that it makes
pub record Draft : Type 0 where
  pub request_id : Option ℕ
  pub content : AdHoc

-- script.Env with its RequestCtx, and the console and the tests of the runtime
pub record Sandbox : Type 0 where
  pub method : Str
  pub url : Str
  pub body_type : Str
  pub body : Str
  pub headers : List (Str × Str)
  pub vars : GoMap Str
  pub changed : GoMap Str
  pub log : Str
  -- names, and the message of a failure
  pub tests : List (Str × Option Str)

-- script.ResponseCtx
pub record ScriptResponse : Type 0 where
  pub code : ℕ
  pub status : Str
  pub duration_ms : ℕ
  pub body : Str
  pub headers : GoMap (List Str)
  pub truncated : Bool
  pub final_url : Str

pub record ScriptError : Type 0 where
  pub is_timeout : Bool
  pub message : Str

-- executor.In
pub record In : Type 0 where
  pub method : Str
  pub url : Str
  pub headers : GoMap Str
  pub query : List (Str × Str)
  pub body_type : Str
  pub body : Str
  pub follow : Bool
  pub timeout : ℕ
  pub proxy_url : Str

-- What a response carries beside its body
pub record Details : Type 0 where
  pub status : ℕ
  pub status_text : Str
  pub duration_ms : ℕ
  pub headers : GoMap (List Str)
  -- with the query, which package url adds to the first URL
  pub final_url : Str

pub record ExecEnv : Type 1 where
  pub aead : Aead
  pub net : Net
  -- parseVarsJSON, HeadersMap, QueryPairs, GraphQLBody
  pub parse_vars : Str → GoMap Str
  pub headers_map : Str → GoMap Str
  pub query_pairs : Str → List (Str × Str)
  pub graphql_body : Str → Str → Option Str
  pub parse_duration : Str → Option ℕ
  -- Runtime.Run: none is success
  pub run : Str → Option ScriptResponse → Sandbox → Option ScriptError × Sandbox
  -- the servers, by the request that is sent, its added query included, and the requests before it
  pub reply : In → ℕ → Transport → Str → Reply
  pub details : In → Str → Details
  -- the errors of package net and http
  pub is_timeout : HttpError → Bool
  pub error_text : HttpError → Str
  -- CFG.Timeout, CFG.MaxHistory
  pub timeout : ℕ
  pub max_history : ℕ

-- for k, v := range from { m[k] = v }
unfoldable pub insert_all : GoMap Str → GoMap Str → GoMap Str
insert_all [] m = m
insert_all ((k, v) ∷ from) m = insert_all from (insert k v m)

module _ (env : ExecEnv) where
  open env use {parse_vars, headers_map, query_pairs}

  abbrev pub saved_draft : Request → Draft
  saved_draft r = record {
    request_id = some r.id;
    content = record {
      method = r.method;
      url = r.url;
      headers = headers_map r.headers;
      query = query_pairs r.query;
      body_type = r.body_type;
      body = r.body;
      variables = r.variables;
      script = r.script;
      test_script = r.test_script;
      use_proxy = r.use_proxy;
    };
  }

  -- The switch over request_id and ad_hoc
  abbrev pub load_saved : User → ℕ → M Draft
  load_saved u id = do
    found ← gets (get_request id)
    r ← require_some 404 "not_found" found
    holder ← gets (get_collection r.collection_id)
    c ← require_some 403 "forbidden" holder
    check (can_use_request u r c) 403 "forbidden"
    respond (saved_draft r)

  abbrev pub load_ad_hoc : AdHoc → M Draft
  load_ad_hoc a = do
    check (not (str_eq a.url [])) 400 "bad_request"
    respond (record { request_id = none; content = a })

  abbrev pub load_from : User → Option ℕ → Option AdHoc → M Draft
  load_from u (some id) a = load_saved u id
  load_from u none (some a) = load_ad_hoc a
  load_from u none none = refuse 400 "bad_request"

  abbrev pub or_get : Str → Str
  or_get method = if str_eq (trim_space method) [] then codes "GET" else method

  -- The draft, with its method checked
  unfoldable pub load_draft : User → ExecuteBody → M Draft
  load_draft u b = do
    d ← load_from u b.request_id b.ad_hoc
    method ← require_some 400 "bad_request" (normalize_method (or_get d.content.method))
    respond (record d { content = record d.content { method = method } })

  abbrev pub chosen : Option ℕ → Option ℕ → Option ℕ
  chosen none active = active
  chosen (some id) active = some id

  abbrev pub override_ids : Option ActivateBody → Option ℕ × Option ℕ → Option ℕ × Option ℕ
  override_ids none ids = ids
  override_ids (some a) (g, i) = (chosen a.global_env_id g, chosen a.user_env_id i)

  abbrev pub vars_of : Option Environment → GoMap Str
  vars_of none = []
  vars_of (some e) = parse_vars e.vars

  abbrev pub vars_of_id : Option ℕ → Db → GoMap Str
  vars_of_id none db = []
  vars_of_id (some id) db = vars_of (get_environment id db)

  -- The global environment, then the user's, then the variables of the request
  unfoldable pub request_values : User → Option ActivateBody → GoMap Str → Db → GoMap Str
  unfolding insert_all
  request_values u active vars db =
      let (g, i) = override_ids active (active_env_ids u db) in
      insert_all vars (insert_all (vars_of_id i db) (insert_all (vars_of_id g db) []))
