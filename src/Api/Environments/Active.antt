-- ===== src/Api/Environments/Active.antt =====
-- Which environments are active after they were activated.
use post_lite.Store.Settings.{get_setting, set_setting}
use post_lite.Base.{
  str_eq_refl, lookup-insert, show_int, parse_int-show_int, ℕ, ◌^◌, ◌<◌, ◌≡◌, refl, true, Option,
  none, some, arith,
}
use post_lite.Store.{User, Environment, is_admin}
use post_lite.Store.Environments.{get_environment}
use post_lite.Api.{State, ret, fail}
use post_lite.Api.Environments.{
  ActivateBody, is_global_scope, global_key, user_key, activate_global, activate_own,
  activate_environment_handler, id_setting, active_env_ids,
}

abbrev or_kept : Option ℕ → Option ℕ → Option ℕ
or_kept none old = old
or_kept (some i) old = some i

-- An id is an int64.
abbrev FitsId : Option ℕ → Type 0
FitsId none = Unit
FitsId (some i) = i < 2 ^ 63

shown : (i : ℕ) → i < 2 ^ 63 → id_setting (some (show_int i)) ≡ some i
shown i fits = parse_int-show_int i fits

activate_global-active :
    (u : User) (o : Option ℕ) (s s' : State)
    → FitsId o
    → activate_global u o s ≡ (ret tt, s')
    → active_env_ids u s'.db ≡ (or_kept o (active_env_ids u s.db).0, (active_env_ids u s.db).1)
unfolding active_env_ids set_setting get_setting
activate_global-active u none s s' fits done = ground arith
activate_global-active u (some i) s s' fits done = ground (
  arith,
  shown i fits,
  lookup-insert global_key global_key (show_int i) s.db.settings,
  lookup-insert global_key (user_key u.id) (show_int i) s.db.settings,
)

activate_own-active :
    (u : User) (o : Option ℕ) (s s' : State)
    → FitsId o
    → activate_own u o s ≡ (ret tt, s')
    → active_env_ids u s'.db ≡ ((active_env_ids u s.db).0, or_kept o (active_env_ids u s.db).1)
unfolding active_env_ids set_setting get_setting
activate_own-active u none s s' fits done = ground arith
activate_own-active u (some i) s s' fits done = ground (
  arith,
  shown i fits,
  str_eq_refl (user_key u.id),
  lookup-insert (user_key u.id) (user_key u.id) (show_int i) s.db.settings,
  lookup-insert (user_key u.id) global_key (show_int i) s.db.settings,
)

-- After a successful activation the active environments of the user are those that the request names,
-- and where it names none, those that were active before.
pub active_env_ids-activate :
    (u : User) (b : ActivateBody) (s s' : State)
    → FitsId b.global_env_id
    → FitsId b.user_env_id
    → activate_environment_handler (some u) (some b) s ≡ (ret tt, s')
    → active_env_ids u s'.db ≡ (
      or_kept b.global_env_id (active_env_ids u s.db).0,
      or_kept b.user_env_id (active_env_ids u s.db).1,
    )
unfolding activate_environment_handler
active_env_ids-activate u b s s' global_fits user_fits done =
    let m = activate_global u b.global_env_id s in
    let first : m.0 ≡ ret tt = ground arith in
    let second : activate_own u b.user_env_id m.1 ≡ (ret tt, s') = ground arith in
    let h = activate_global-active u b.global_env_id s m.1 global_fits (ground arith) in
    let k = activate_own-active u b.user_env_id m.1 s' user_fits second in rw (k, h) refl

-- The request is not atomic: where an admin names a global environment and a user environment that is
-- missing, the answer is a failure, and the global environment is active all the same.
pub activate_environment_half :
    (u : User) (g i : ℕ) (e : Environment) (s : State)
    → g < 2 ^ 63
    → is_admin u ≡ true
    → get_environment g s.db ≡ some e
    → is_global_scope e.scope ≡ true
    → get_environment i s.db ≡ none
    → let body : ActivateBody = record { global_env_id = some g; user_env_id = some i } in
      let (answer, after) = activate_environment_handler (some u) (some body) s in
      (answer ≡ fail 400 "bad_request") × ((active_env_ids u after.db).0 ≡ some g)
unfolding activate_environment_handler active_env_ids set_setting get_setting get_environment
activate_environment_half u g i e s fits admin there global missing = (
  ground arith,
  ground (arith, shown g fits, lookup-insert global_key global_key (show_int g) s.db.settings),
)
