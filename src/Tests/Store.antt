-- ===== src/Tests/Store.antt =====
-- The store of internal/repository at concrete inputs.
use post_lite.Base.{
  length, All, codes, lookup, insert, ℕ, ◌≤◌, String, ◌≡◌, refl, true, false, none, some, [], ◌∷◌,
  arith,
}
use post_lite.Store.{
  User, Session, Collection, Request, Environment, HistoryItem, Db, find_by, last_id, keep, update,
}
use post_lite.Store.Access.{
  can_view_collection, can_manage_collection, can_use_request, can_manage_request,
  can_view_environment, can_manage_environment,
}
use post_lite.Store.Users.{
  create_user, get_user, get_by_username, delete_user, create_session, get_session,
  delete_user_exposes,
}
use post_lite.Store.Collections.{
  create_collection, get_collection, list_collections, create_folder, list_folders,
}
use post_lite.Store.Requests.{get_request, list_requests}
use post_lite.Store.Environments.{create_environment, list_environments}
use post_lite.Store.History.{
  insert_history, list_history, get_history, delete_history, purge_history,
}
use post_lite.Store.Lists.{IsItem, history_isolation}

unfoldable pub tables : Unit {0}
unfolding find_by last_id keep update lookup insert create_user get_user get_by_username delete_user
    create_session get_session create_collection get_collection list_collections create_folder
    list_folders get_request list_requests list_environments create_environment get_history
    list_history delete_history purge_history insert_history can_view_collection
    can_manage_collection can_use_request can_manage_request can_view_environment
    can_manage_environment
tables = tt

abbrev user : ℕ → String → String → User
user i name role = record {
  id = i;
  username = codes name;
  salt = [];
  password_hash = [];
  enabled = true;
  role = codes role;
  created_at = 0;
}

abbrev pub root : User
root = user 1 "root" "admin"

abbrev pub ann : User
ann = user 2 "ann" "user"

abbrev pub bob : User
bob = user 3 "bob" "user"

abbrev pub shared : Collection
shared = record { id = 1; name = codes "shared"; owner_id = none; created_at = 0 }

abbrev pub private : Collection
private = record { id = 2; name = codes "mine"; owner_id = some 2; created_at = 0 }

abbrev pub bobs_request : Request
bobs_request = record {
  id = 1;
  collection_id = 1;
  folder_id = none;
  owner_id = some 3;
  name = codes "ping";
  protocol = codes "http";
  method = codes "GET";
  url = codes "http://good.test";
  headers = [];
  query = [];
  body_type = codes "none";
  body = [];
  variables = [];
  script = [];
  test_script = [];
  use_proxy = false;
  updated_at = 0;
}

abbrev item : ℕ → ℕ → HistoryItem
item i uid = record {
  id = i;
  request_id = none;
  user_id = uid;
  method = codes "GET";
  url = codes "http://good.test";
  status = 200;
  duration_ms = 1;
  req_text = [];
  res_text = [];
  created_at = i;
}

abbrev anns_session : Session
anns_session = record { id = codes "h2"; user_id = 2; expires_at = 100 }

abbrev bobs_session : Session
bobs_session = record { id = codes "h3"; user_id = 3; expires_at = 100 }

abbrev global_env : Environment
global_env = record {
  id = 1;
  name = codes "dev";
  scope = codes "global";
  owner_id = none;
  vars = [];
}

abbrev pub db : Db
db = record {
  users = root ∷ ann ∷ bob ∷ [];
  sessions = anns_session ∷ bobs_session ∷ [];
  collections = shared ∷ private ∷ [];
  folders = [];
  requests = bobs_request ∷ [];
  environments = global_env ∷ [];
  history = item 1 2 ∷ item 2 3 ∷ item 3 2 ∷ [];
  settings = [];
  secrets = [];
}

store_tests :
    (list_collections bob db ≡ shared ∷ [])
    × (list_collections ann db ≡ shared ∷ private ∷ [])
    × (list_history 2 none 10 db ≡ item 3 2 ∷ item 1 2 ∷ [])
    × ((purge_history 2 db).history ≡ item 2 3 ∷ item 3 2 ∷ [])
    × (get_history 2 2 db ≡ none)
unfolding tables
store_tests = (refl, refl, refl, refl, refl)

delete_user_exposes_example :
    (d : Collection) × (find_by Collection.id 2 (delete_user 2 db).collections ≡ some d)
    × (can_view_collection bob private ≡ false)
    × (can_view_collection bob d ≡ true)
unfolding tables
delete_user_exposes_example =
    delete_user_exposes 2 db private 2 bob refl refl refl (λ e. absurd (omega arith))

history_isolation_example :
    All (λ x. x.user_id ≡ 2) (list_history 2 none 10 db)
    × (length (list_history 2 none 10 db) ≤ 10)
    × IsItem 3 2 (get_history 3 2 db)
unfolding tables
history_isolation_example = history_isolation 2 3 10 none db
