-- ===== src/Store/Requests.antt =====
-- internal/repository/requests.go. The JSON columns stay texts; HeadersMap and QueryPairs, which only
-- decode them, are not modelled.
use post_lite.Base.{
  ltb, leb, ◌==◌, if◌then◌else◌, Str, codes, str_eq, ℕ, ◌+◌, Bool, true, false, not, ◌&&◌, Option,
  none, some, List, [], ◌∷◌, ◌++◌,
}
use post_lite.Store.{Request, Db, find_by, last_id, keep, update}
use post_lite.Store.Collections.{has_user, get_collection, has_folder}

pub record RequestPayload : Type 0 where
  pub collection_id : ℕ
  pub folder_id : Option ℕ
  pub name : Str
  pub protocol : Str
  pub method : Str
  pub url : Str
  pub headers : Str
  pub query : Str
  pub body_type : Str
  pub body : Str
  pub variables : Str
  pub script : Str
  pub test_script : Str
  pub use_proxy : Bool

unfoldable pub or_default : Str → Str → Str
or_default s default = if str_eq s [] then default else s

-- The row that a payload makes
unfoldable pub row : ℕ → ℕ → Option ℕ → RequestPayload → Request
unfolding or_default
row now i owner p = record {
  id = i;
  collection_id = p.collection_id;
  folder_id = p.folder_id;
  owner_id = owner;
  name = p.name;
  protocol = or_default p.protocol (codes "http");
  method = p.method;
  url = p.url;
  headers = p.headers;
  query = p.query;
  body_type = or_default p.body_type (codes "none");
  body = p.body;
  variables = p.variables;
  script = p.script;
  test_script = p.test_script;
  use_proxy = p.use_proxy;
  updated_at = now;
}

-- length of SQLite: the characters of a text before the first NUL; a byte from 128 to 191 goes on with one
unfoldable pub sql_length : Str → ℕ
sql_length [] = 0
sql_length (c ∷ s) =
    let rest = sql_length s in
    if c == 0 then 0 else if leb 128 c && ltb c 192 then rest else rest + 1

-- CHECK(length(method) BETWEEN 1 AND 32)
unfoldable pub fits_method : Str → Bool
unfolding sql_length
fits_method m = leb 1 (sql_length m) && leb (sql_length m) 32

-- The foreign keys of a row
abbrev pub has_references : Option ℕ → RequestPayload → Db → Bool
has_references owner p db =
    elim (get_collection p.collection_id db) [ none ↦ false | some c ↦ true ]
    && has_folder p.folder_id db
    && has_user owner db

unfoldable pub create_request : ℕ → RequestPayload → Option ℕ → Db → Option (ℕ × Db)
unfolding row get_collection fits_method
create_request now p owner db =
    let i = last_id Request.id db.requests + 1 in
    if fits_method p.method && has_references owner p db
    then some (i, record db { requests = db.requests ++ row now i owner p ∷ [] })
    else none

unfoldable pub get_request : ℕ → Db → Option Request
get_request i db = find_by Request.id i db.requests

unfoldable pub list_requests : ℕ → Db → List Request
list_requests collection_id db = keep (λ r. r.collection_id == collection_id) db.requests

-- The columns that Update sets: all but the id and the owner
unfoldable pub update_request : ℕ → ℕ → RequestPayload → Db → Option Db
unfolding row get_collection fits_method
update_request now i p db =
    if fits_method p.method && has_references none p db
    then some (record db {
      requests = update (λ r. r.id == i) (λ r. row now r.id r.owner_id p) db.requests;
    })
    else none

unfoldable pub delete_request : ℕ → Db → Db
delete_request i db = record db { requests = keep (λ r. not (r.id == i)) db.requests }
