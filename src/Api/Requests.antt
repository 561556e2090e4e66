-- ===== src/Api/Requests.antt =====
-- internal/httpapi/requests.go. Query parameters are decoded by the caller: none where one is missing
-- or is no number.
pub mod Checks
pub mod Access
use mathlib.Core.Option
use post_lite.Base.{
  ltb, leb, ◌==◌, if◌then◌else◌, length, any, all, Str, codes, str_eq, to_upper, trim_space, ℕ,
  Bool, true, not, ◌&&◌, ◌||◌, Option, none, some, List, [], map,
}
use post_lite.Store.{User, Folder, Request, keep, is_admin}
use post_lite.Store.Access.{can_view_collection, can_use_request, can_manage_request}
use post_lite.Store.Collections.{get_collection, list_folders}
use post_lite.Store.Requests.{
  RequestPayload, create_request, get_request, list_requests, update_request, delete_request,
}
use post_lite.Api.{
  audit, M, ◌>>=◌, ◌>>◌, respond, require_some, check, gets, modify, attempt, require_user,
  require_admin, decode,
}
use post_lite.Api.Collections.{is_named, permitted}

abbrev pub max_method_len : ℕ
max_method_len = 32

-- strings.IndexByte("!#$%&'*+-.^_`|~", c) >= 0 behind the letters and digits
unfoldable pub is_method_token_char : ℕ → Bool
is_method_token_char c =
    (leb b'A' c && leb c b'Z')
    || (leb b'0' c && leb c b'9')
    || any (λ d. d == c) (codes "!#$%&'*+-.^_`|~")

-- normalizeMethod
abbrev pub valid_method : Str → Option Str
valid_method m =
    if str_eq m [] || ltb max_method_len (length m)
    then none
    else if all is_method_token_char m
    then some m
    else none

unfoldable pub normalize_method : Str → Option Str
unfolding is_method_token_char
normalize_method m = valid_method (to_upper (trim_space m))

-- checkProtocol; none is the failure
unfoldable pub check_protocol : Str → Option Str
check_protocol protocol =
    if str_eq protocol []
    then some (codes "http")
    else if str_eq protocol (codes "http")
        || str_eq protocol (codes "ws")
        || str_eq protocol (codes "sse")
    then some protocol
    else none

unfoldable pub check_body_type : Str → Bool
check_body_type t =
    str_eq t []
    || str_eq t (codes "none")
    || str_eq t (codes "json")
    || str_eq t (codes "raw")
    || str_eq t (codes "graphql")

-- 64 << 10
abbrev pub max_script_bytes : ℕ
max_script_bytes = 65536

abbrev pub check_script : Str → Str → Bool
check_script protocol src =
    str_eq src [] || (not (ltb max_script_bytes (length src)) && str_eq protocol (codes "http"))

unfoldable pub check_scripts : RequestPayload → Str → Bool
check_scripts p protocol = check_script protocol p.script && check_script protocol p.test_script

-- The method that a realtime row must have
abbrev pub check_realtime : Str → Str → Bool
check_realtime protocol method =
    not (str_eq protocol (codes "ws") || str_eq protocol (codes "sse"))
    || str_eq method (codes "GET")

-- The collection that an update moves the request to: 0 keeps the old one
abbrev pub target_collection : Request → RequestPayload → ℕ
target_collection r p = if p.collection_id == 0 then r.collection_id else p.collection_id

abbrev pub may_move : User → ℕ → ℕ → M (Unit {0})
may_move u target old = if target == old then respond tt else do
  found ← gets (get_collection target)
  c ← require_some 404 "not_found" found
  check (can_view_collection u c) 403 "forbidden"

abbrev pub folder_belongs : Option ℕ → List Folder → Bool
folder_belongs none folders = true
folder_belongs (some f) folders = any (λ x. x.id == f) folders

abbrev pub or_old : Str → Str → Str
or_old new old = if str_eq new [] then old else new

module _ (requester : Option User) where
  unfoldable pub list_requests_handler : Option ℕ → M (List Request)
  list_requests_handler id_param = do
    u ← require_user requester
    id ← decode id_param
    c ← permitted requester can_view_collection u id
    rows ← gets (list_requests id)
    respond (keep (λ r. can_use_request u r c) rows)

  unfoldable pub create_request_handler : ℕ → Option RequestPayload → M ℕ
  create_request_handler now body = do
    u ← require_user requester
    p ← decode body
    protocol ← require_some 400 "bad_request" (check_protocol p.protocol)
    method ← require_some 400 "bad_request" (normalize_method p.method)
    check (check_realtime protocol method) 400 "bad_request"
    check (is_named p.name) 400 "bad_request"
    check (is_named p.url) 400 "bad_request"
    check (check_body_type p.body_type) 400 "bad_request"
    check (check_scripts p protocol) 400 "bad_request"
    check (not (p.collection_id == 0)) 400 "bad_request"
    found ← gets (get_collection p.collection_id)
    c ← require_some 404 "not_found" found
    check (can_view_collection u c) 403 "forbidden"
    attempt 500 "internal" (
        create_request now (record p { protocol = protocol; method = method })
          (if is_admin u then none else some u.id))

  unfoldable pub get_request_handler : Option ℕ → M Request
  get_request_handler id_param = do
    u ← require_user requester
    id ← decode id_param
    found ← gets (get_request id)
    r ← require_some 404 "not_found" found
    holder ← gets (get_collection r.collection_id)
    c ← require_some 403 "forbidden" holder
    check (can_use_request u r c) 403 "forbidden"
    respond r

  unfoldable pub update_request_handler : ℕ → Option ℕ → Option RequestPayload → M ℕ
  update_request_handler now id_param body = do
    u ← require_user requester
    id ← decode id_param
    found ← gets (get_request id)
    r ← require_some 404 "not_found" found
    holder ← gets (get_collection r.collection_id)
    c ← require_some 403 "forbidden" holder
    check (can_manage_request u r c) 403 "forbidden"
    p ← decode body
    method ← require_some 400 "bad_request" (normalize_method p.method)
    protocol ← require_some 400 "bad_request" (check_protocol p.protocol)
    check (check_realtime protocol method) 400 "bad_request"
    check (check_body_type p.body_type) 400 "bad_request"
    check (check_scripts p protocol) 400 "bad_request"
    may_move u (target_collection r p) r.collection_id
    folders ← gets (list_folders (target_collection r p))
    check (folder_belongs p.folder_id folders) 400 "bad_request"
    attempt 500 "internal" (λ db.
        Option.map (λ db'. (id, db'))
          (update_request now id
            (record p {
              collection_id = target_collection r p;
              name = or_old p.name r.name;
              protocol = protocol;
              method = method;
              url = or_old p.url r.url;
            })
            db))

  unfoldable pub delete_request_handler : Option ℕ → M ℕ
  delete_request_handler id_param = do
    admin ← require_admin requester
    id ← decode id_param
    found ← gets (get_request id)
    r ← require_some 404 "not_found" found
    modify (delete_request id)
    audit admin "request.delete" id []
    respond id
