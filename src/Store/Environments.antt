-- ===== src/Store/Environments.antt =====
-- internal/repository/environments.go.
use post_lite.Base.{
  ◌==◌, if◌then◌else◌, any, Str, codes, str_eq, ℕ, ◌+◌, Bool, false, not, ◌&&◌, ◌||◌, Option, none,
  some, List, [], ◌∷◌, ◌++◌,
}
use post_lite.Store.{User, Environment, Db, find_by, last_id, keep, update, is_owner, is_admin}
use post_lite.Store.Collections.{has_user}

abbrev pub is_scope : Str → Bool
is_scope scope = str_eq scope (codes "global") || str_eq scope (codes "user")

-- UNIQUE(scope, owner_id, name), in which two NULL owners differ
abbrev pub collides : Str → Option ℕ → Str → Environment → Bool
collides scope none name e = false
collides scope (some o) name e = str_eq e.scope scope && is_owner e.owner_id o && str_eq e.name name

unfoldable pub create_environment : Str → Str → Option ℕ → Str → Db → Option (ℕ × Db)
create_environment name scope owner vars db =
    let i = last_id Environment.id db.environments + 1 in
    let e : Environment = record {
      id = i;
      name = name;
      scope = scope;
      owner_id = owner;
      vars = vars;
    } in
    if is_scope scope && has_user owner db && not (any (collides scope owner name) db.environments)
    then some (i, record db { environments = db.environments ++ e ∷ [] })
    else none

unfoldable pub get_environment : ℕ → Db → Option Environment
get_environment i db = find_by Environment.id i db.environments

unfoldable pub list_environments : User → Db → List Environment
list_environments u db =
    if is_admin u
    then db.environments
    else keep
        (λ e.
          str_eq e.scope (codes "global")
          || (str_eq e.scope (codes "user") && is_owner e.owner_id u.id))
        db.environments

-- Environments.Update: none where the new name is that of another environment of the same owner
abbrev pub renames_onto : ℕ → Str → Environment → Environment → Bool
renames_onto i name e other = not (other.id == i) && collides e.scope e.owner_id name other

unfoldable pub update_environment : ℕ → Str → Str → Db → Option Db
update_environment i name vars db = elim (find_by Environment.id i db.environments) [
  | none ↦ some db
  | some e ↦
      if any (renames_onto i name e) db.environments
      then none
      else some (record db {
        environments =
            update (λ x. x.id == i) (λ x. record x { name = name; vars = vars }) db.environments;
      })
]

unfoldable pub delete_environment : ℕ → Db → Db
delete_environment i db = record db { environments = keep (λ e. not (e.id == i)) db.environments }
