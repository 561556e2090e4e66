-- ===== src/Tests/Users.antt =====
-- The management of users at concrete inputs.
use mathlib.Core.Option
use post_lite.Base.{Str, codes, ℕ, ◌≡◌, refl, ◌⊎◌, false, none, some, [], ◌++◌}
use post_lite.Crypto.Vault.{new_vault}
use post_lite.Store.{User}
use post_lite.Store.Users.{find_username, create_user, get_user, set_password, set_enabled}
use post_lite.Api.{State, Res, ret, fail}
use post_lite.Api.Users.{
  UserCreateBody, create_user_handler, delete_user_handler, set_user_enabled_handler,
  reset_user_password_handler,
}
use post_lite.Api.Users.Own.{drop_user, switch, set_pass, obey, IsReset, obey_own}
use post_lite.Tests.Store.{tables, root, ann, db}

orders : Unit {0}
unfolding tables obey create_user_handler delete_user_handler set_user_enabled_handler
    reset_user_password_handler create_user set_enabled set_password find_username
orders = tt

abbrev hash_password : Str → Str × Str
hash_password p = (codes "h:" ++ p, codes "salt")

abbrev state : State
state = record {
  db = db;
  limiter = record { m = [] };
  audit = [];
  crypto = none;
  vault = new_vault;
  transports = [];
}

abbrev eve : UserCreateBody
eve = record { username = codes "eve"; password = codes "secret"; role = [] }

abbrev status_of {ℓ} : {A : Type ℓ} → Res A × State → ℕ
status_of (ret a, s) = 200
status_of (fail status code, s) = status

order_tests :
    (status_of (create_user_handler hash_password (some root) 0 (some eve) state) ≡ 200)
    × (status_of (
          create_user_handler hash_password
            (some root)
            0
            (some (record eve { username = codes "bob" }))
            state)
        ≡ 409)
    × (status_of (create_user_handler hash_password (some ann) 0 (some eve) state) ≡ 403)
    × (status_of (delete_user_handler hash_password (some root) (some 1) state) ≡ 400)
    × (get_user 2 (obey hash_password (some root) (drop_user (some 2)) state).db ≡ none)
    × (Option.map User.enabled
          (get_user 2 (obey hash_password (some root) (switch false (some 2)) state).db)
        ≡ some false)
unfolding orders
order_tests = (refl, refl, refl, refl, refl, refl)

obey_own_example :
    (v : User) × (get_user 1
        (obey hash_password (some root) (set_pass (codes "random") (some 1) none) state).db
      ≡ some v)
    × ((v ≡ root) ⊎ IsReset hash_password root (set_pass (codes "random") (some 1) none) v)
unfolding orders
obey_own_example = obey_own hash_password root (set_pass (codes "random") (some 1) none) state refl
