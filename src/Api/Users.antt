-- ===== src/Api/Users.antt =====
-- internal/httpapi/users.go: the management of users. Hashing is the parameter `hash_password`, a
-- function to hash and salt that does not fail; `random` is the password that RandomPassword has
-- drawn. The list of users is not modelled.
pub mod Own
use post_lite.Base.{
  leb, ◌==◌, if◌then◌else◌, length, Str, codes, str_eq, ℕ, Bool, not, ◌&&◌, Option, none, some,
  List, [],
}
use post_lite.Store.{User}
use post_lite.Store.Users.{is_role, create_user, set_password, set_enabled, delete_user, list_users}
use post_lite.Api.{
  State, audit, Res, fail, M, ◌>>=◌, ◌>>◌, respond, check, gets, modify, attempt, require_admin,
  decode,
}

pub record UserCreateBody : Type 0 where
  pub username : Str
  pub password : Str
  pub role : Str

abbrev pub role_of : Str → Str
role_of role = if str_eq role [] then codes "user" else role

module _ (hash_password : Str → Str × Str) (requester : Option User) where
  -- The length checks count bytes.
  unfoldable pub create_user_handler : ℕ → Option UserCreateBody → M ℕ
  create_user_handler now body = do
    admin ← require_admin requester
    b ← decode body
    check (leb 3 (length b.username) && leb (length b.username) 32) 400 "bad_request"
    check (leb 6 (length b.password)) 400 "bad_request"
    check (is_role (role_of b.role)) 400 "bad_request"
    id ← attempt 409 "conflict" (
        create_user now b.username (role_of b.role) (hash_password b.password).1
          (hash_password b.password).0)
    audit admin "user.create" id []
    respond id

  unfoldable pub delete_user_handler : Option ℕ → M ℕ
  delete_user_handler id_param = do
    admin ← require_admin requester
    id ← decode id_param
    check (not (id == admin.id)) 400 "bad_request"
    modify (delete_user id)
    audit admin "user.delete" id []
    respond id

  unfoldable pub set_user_enabled_handler : Bool → Option ℕ → M ℕ
  set_user_enabled_handler enabled id_param = do
    admin ← require_admin requester
    id ← decode id_param
    check (not (id == admin.id)) 400 "bad_request"
    modify (set_enabled id enabled)
    audit admin (if enabled then "user.enable" else "user.disable") id []
    respond id

  abbrev pub new_password : Str → Option Str → Str
  new_password random none = random
  new_password random (some p) = if str_eq p [] then random else p

  -- decodeBody has already answered where the body does not decode, and its result is not looked at:
  -- the work goes on, and the answer stays the failure.
  abbrev answered {ℓ} : {A : Type ℓ} → Option Str → Res A × State → Res A × State
  answered (some p) r = r
  answered none r = (fail 400 "bad_request", r.1)

  abbrev set_new_password : User → ℕ → Str → M (ℕ × Str)
  set_new_password admin id password = do
    check (leb 6 (length password)) 400 "bad_request"
    modify (set_password id (hash_password password).1 (hash_password password).0)
    audit admin "user.reset_password" id []
    respond (id, password)

  unfoldable pub reset_user_password_handler : Str → Option ℕ → Option Str → M (ℕ × Str)
  reset_user_password_handler random id_param body = do
    admin ← require_admin requester
    id ← decode id_param
    λ s. answered body (set_new_password admin id (new_password random body) s)

-- listUsers
unfoldable pub list_users_handler : Option User → M (List User)
list_users_handler requester = do admin ← require_admin requester; gets list_users
