-- ===== src/Api/Exchange.antt =====
-- internal/httpapi/collections.go: export and import of collections. The JSON of headers and queries
-- is encoded and decoded by parameters; an exported collection is the value of its text. A nil map
-- or slice is none.
pub mod Import
pub mod Keeps
use post_lite.Base.{
  ◌==◌, if◌then◌else◌, Str, codes, str_eq, GoMap, ℕ, Bool, false, not, ◌||◌, Option, none, some,
  List, [], ◌∷◌, map,
}
use post_lite.Store.{User, Folder, Request, is_admin}
use post_lite.Store.Access.{can_view_collection}
use post_lite.Store.Collections.{create_collection, get_collection, create_folder, list_folders}
use post_lite.Store.Requests.{RequestPayload, create_request, list_requests}
use post_lite.Api.{
  audit, M, ◌>>=◌, ◌>>◌, respond, require_some, check, gets, attempt, require_user, decode,
}
use post_lite.Api.Collections.{is_named}

pub record ExpFolder : Type 0 where
  pub id : ℕ
  pub parent_id : Option ℕ
  pub name : Str

pub record ExpRequest : Type 0 where
  pub id : ℕ
  pub folder_id : Option ℕ
  pub name : Str
  pub protocol : Str
  pub method : Str
  pub url : Str
  pub headers : Option (GoMap Str)
  pub query : Option (List (Str × Str))
  pub body_type : Str
  pub body : Str
  pub variables : Str
  pub script : Str
  pub test_script : Str

pub record ExpCollection : Type 0 where
  pub name : Str
  pub format : Str
  pub folders : List ExpFolder
  pub requests : List ExpRequest

-- oldToNew[id]
unfoldable pub new_id : ℕ → List (ℕ × ℕ) → Option ℕ
new_id i [] = none
new_id i ((old, new) ∷ ids) = if old == i then some new else new_id i ids

abbrev pub mapped_id : Option ℕ → List (ℕ × ℕ) → Option ℕ
mapped_id none ids = none
mapped_id (some i) ids = new_id i ids

abbrev pub exp_folder : Folder → ExpFolder
exp_folder f = record { id = f.id; parent_id = f.parent_id; name = f.name }

module _ (parse_headers : Str → Option (GoMap Str)) (parse_query : Str → List (Str × Str))
    (show_headers : GoMap Str → Str) (show_query : List (Str × Str) → Str) where
  abbrev pub exp_headers : Str → Option (GoMap Str)
  exp_headers h = if str_eq h [] then none else parse_headers h

  -- An appended slice is nil where nothing was appended.
  abbrev pub some_pairs : List (Str × Str) → Option (List (Str × Str))
  some_pairs [] = none
  some_pairs (p ∷ ps) = some (p ∷ ps)

  abbrev pub exp_query : Str → Option (List (Str × Str))
  exp_query q = if str_eq q [] then none else some_pairs (parse_query q)

  abbrev pub exp_request : Request → ExpRequest
  exp_request r = record {
    id = r.id;
    folder_id = r.folder_id;
    name = r.name;
    protocol = r.protocol;
    method = r.method;
    url = r.url;
    headers = exp_headers r.headers;
    query = exp_query r.query;
    body_type = r.body_type;
    body = r.body;
    variables = r.variables;
    script = r.script;
    test_script = r.test_script;
  }

  unfoldable pub export_collection_handler : Option User → Option ℕ → M ExpCollection
  export_collection_handler requester id_param = do
    u ← require_user requester
    id ← decode id_param
    found ← gets (get_collection id)
    c ← require_some 403 "forbidden" found
    check (can_view_collection u c) 403 "forbidden"
    folders ← gets (list_folders id)
    requests ← gets (list_requests id)
    respond (record {
      name = c.name;
      format = codes "postlite/v1";
      folders = map exp_folder folders;
      requests = map exp_request requests;
    })

  abbrev pub headers_text : Option (GoMap Str) → Str
  headers_text none = []
  headers_text (some h) = show_headers h

  abbrev pub query_text : Option (List (Str × Str)) → Str
  query_text none = []
  query_text (some q) = show_query q

  -- repositoryRequestPayload
  unfoldable pub payload_of : ℕ → List (ℕ × ℕ) → ExpRequest → RequestPayload
  unfolding new_id
  payload_of collection_id ids r = record {
    collection_id = collection_id;
    folder_id = mapped_id r.folder_id ids;
    name = r.name;
    protocol = r.protocol;
    method = r.method;
    url = r.url;
    headers = headers_text r.headers;
    query = query_text r.query;
    body_type = r.body_type;
    body = r.body;
    variables = r.variables;
    script = r.script;
    test_script = r.test_script;
    use_proxy = false;
  }

  -- The loop over the folders: the new id of each, the latest first
  unfoldable pub import_folders : ℕ → List (ℕ × ℕ) → List ExpFolder → M (List (ℕ × ℕ))
  unfolding new_id
  import_folders collection_id ids [] = respond ids
  import_folders collection_id ids (f ∷ fs) = do
    i ← attempt 500 "internal" (create_folder collection_id (mapped_id f.parent_id ids) f.name)
    import_folders collection_id ((f.id, i) ∷ ids) fs

  unfoldable pub import_requests : ℕ → ℕ → Option ℕ → List (ℕ × ℕ) → List ExpRequest → M (Unit {0})
  unfolding payload_of
  import_requests now collection_id owner ids [] = respond tt
  import_requests now collection_id owner ids (r ∷ rs) = do
    i ← attempt 500 "internal" (create_request now (payload_of collection_id ids r) owner)
    import_requests now collection_id owner ids rs

  -- `exp` is none where the text is no collection.
  unfoldable pub import_collection_handler :
      ℕ → Option User → Option Bool → Option ExpCollection → M ℕ
  unfolding import_folders import_requests
  import_collection_handler now requester global exp = do
    u ← require_user requester
    is_global ← decode global
    c ← require_some 400 "bad_request" exp
    check (is_named c.name) 400 "bad_request"
    check (not is_global || is_admin u) 403 "forbidden"
    let owner = if is_global then none else some u.id
    id ← attempt 500 "internal" (create_collection now c.name owner)
    ids ← import_folders id [] c.folders
    import_requests now id owner ids c.requests
    audit u "collection.import" id c.name
    respond id
