-- ===== src/Api/Environments.antt =====
-- internal/httpapi/environments.go. The JSON text of the variables is encoded and decoded by
-- parameters; FormatInt and ParseInt are show_int and parse_int.
pub mod Access
pub mod Active
use mathlib.Core.Option
use post_lite.Base.{
  if◌then◌else◌, Str, codes, str_eq, GoMap, show_int, parse_int, ℕ, Bool, not, ◌&&◌, ◌||◌, Option,
  none, some, List, [], ◌++◌, map,
}
use post_lite.Store.{User, Environment, Db, is_owner, is_admin}
use post_lite.Store.Access.{can_view_environment, can_manage_environment}
use post_lite.Store.Environments.{
  is_scope, create_environment, get_environment, list_environments, update_environment,
  delete_environment,
}
use post_lite.Store.Settings.{get_setting, set_setting}
use post_lite.Api.{
  audit, M, ◌>>=◌, ◌>>◌, respond, require_some, is_missing, check, gets, modify, attempt,
  require_user, decode,
}

pub record EnvBody : Type 0 where
  pub name : Str
  pub scope : Str
  pub owner_id : Option ℕ
  -- none is a nil map
  pub vars : Option (GoMap Str)

pub record ActivateBody : Type 0 where
  pub global_env_id : Option ℕ
  pub user_env_id : Option ℕ

abbrev pub is_global_scope : Str → Bool
is_global_scope scope = str_eq scope (codes "global")

abbrev pub or_user : Str → Str
or_user scope = if str_eq scope [] then codes "user" else scope

-- The owner of a new environment
abbrev pub user_owner : User → Option ℕ → M (Option ℕ)
user_owner u none = respond (some u.id)
user_owner u (some owner) = do check (is_admin u) 403 "forbidden"; respond (some owner)

abbrev pub new_owner : User → Str → Option ℕ → M (Option ℕ)
new_owner u scope owner =
    if is_global_scope scope
    then (do check (is_admin u) 403 "forbidden"; respond none)
    else user_owner u owner

module _ (parse_vars : Str → GoMap Str) (show_vars : GoMap Str → Str) where
  -- json.Marshal, "{}" for a nil map
  abbrev pub vars_json : Option (GoMap Str) → Str
  vars_json none = codes "{}"
  vars_json (some vars) = show_vars vars

  module _ (requester : Option User) where
    unfoldable pub list_environments_handler : M (List (Environment × GoMap Str))
    list_environments_handler = do
      u ← require_user requester
      gets (λ db. map (λ e. (e, parse_vars e.vars)) (list_environments u db))

    unfoldable pub create_environment_handler : Option EnvBody → M ℕ
    create_environment_handler body = do
      u ← require_user requester
      b ← decode body
      check (not (str_eq b.name [])) 400 "bad_request"
      check (is_scope (or_user b.scope)) 400 "bad_request"
      owner ← new_owner u (or_user b.scope) b.owner_id
      id ←
          attempt 500 "internal"
            (create_environment b.name (or_user b.scope) owner (vars_json b.vars))
      if is_global_scope (or_user b.scope)
          then audit u "env.create_global" id b.name
          else respond tt
      respond id

    unfoldable pub get_environment_handler : Option ℕ → M (Environment × GoMap Str)
    get_environment_handler id_param = do
      u ← require_user requester
      id ← decode id_param
      found ← gets (get_environment id)
      e ← require_some 404 "not_found" found
      check (can_view_environment u e) 403 "forbidden"
      respond (e, parse_vars e.vars)

    unfoldable pub update_environment_handler : Option ℕ → Option EnvBody → M ℕ
    update_environment_handler id_param body = do
      u ← require_user requester
      id ← decode id_param
      found ← gets (get_environment id)
      e ← require_some 404 "not_found" found
      check (can_manage_environment u e) 403 "forbidden"
      b ← decode body
      attempt 500 "internal" (λ db.
          Option.map (λ db'. (tt, db'))
            (update_environment id (if str_eq b.name [] then e.name else b.name) (vars_json b.vars)
              db))
      respond id

    unfoldable pub delete_environment_handler : Option ℕ → M ℕ
    delete_environment_handler id_param = do
      u ← require_user requester
      id ← decode id_param
      found ← gets (get_environment id)
      e ← require_some 404 "not_found" found
      check (can_manage_environment u e) 403 "forbidden"
      modify (delete_environment id)
      audit u "env.delete" id e.name
      respond id

abbrev pub global_key : Str
global_key = codes "active_global_env"

-- "active_env_user_" + strconv.FormatInt(u.ID, 10)
abbrev pub user_key : ℕ → Str
user_key i = codes "active_env_user_" ++ show_int i

abbrev pub activate_global : User → Option ℕ → M (Unit {0})
activate_global u none = respond tt
activate_global u (some id) = do
  check (is_admin u) 403 "forbidden"
  found ← gets (get_environment id)
  e ← require_some 400 "bad_request" found
  check (is_global_scope e.scope) 400 "bad_request"
  modify (set_setting global_key (show_int id))
  audit u "env.activate_global" id e.name

abbrev pub activate_own : User → Option ℕ → M (Unit {0})
activate_own u none = respond tt
activate_own u (some id) = do
  found ← gets (get_environment id)
  e ← require_some 400 "bad_request" found
  check (str_eq e.scope (codes "user")) 400 "bad_request"
  check (is_owner e.owner_id u.id || (not (is_missing e.owner_id) && is_admin u)) 403 "forbidden"
  modify (set_setting (user_key u.id) (show_int id))

unfoldable pub activate_environment_handler : Option User → Option ActivateBody → M (Unit {0})
activate_environment_handler requester body = do
  u ← require_user requester
  b ← decode body
  activate_global u b.global_env_id
  activate_own u b.user_env_id

abbrev pub id_setting : Option Str → Option ℕ
id_setting none = none
id_setting (some v) = parse_int v

-- activeEnvIDs
unfoldable pub active_env_ids : User → Db → Option ℕ × Option ℕ
active_env_ids u db =
    (id_setting (get_setting global_key db), id_setting (get_setting (user_key u.id) db))
