-- ===== src/Tests/Environments.antt =====
-- Environments and settings at concrete inputs.
use post_lite.Base.{
  Str, codes, GoMap, show_from, show_int, parse_digits, parse_int, ℕ, ◌≡◌, refl, ◌≢◌, Option, none,
  some, List, [], ◌∷◌, arith,
}
use post_lite.Executor.Target.{parse_parts, parse_whitelist}
use post_lite.Store.{User, Environment}
use post_lite.Store.Environments.{get_environment, update_environment, delete_environment}
use post_lite.Store.Settings.{get_setting, set_setting}
use post_lite.Api.{fail}
use post_lite.Api.Collections.Access.{IsFailure}
use post_lite.Api.Environments.{
  EnvBody, ActivateBody, create_environment_handler, update_environment_handler,
  delete_environment_handler, activate_environment_handler, active_env_ids,
}
use post_lite.Api.Environments.Access.{post, put, drop_row, write_env, IsLeft, write_env_keeps}
use post_lite.Api.Environments.Active.{active_env_ids-activate, activate_environment_half}
use post_lite.Api.Settings.{
  whitelist_key, history_key, setting_or, parse_timeout, validate_setting, check_settings,
  save_settings, put_settings_handler,
}
use post_lite.Api.Settings.Valid.{put_all, whitelist_parses}
use post_lite.Tests.Store.{tables, root, bob}
use post_lite.Tests.Net.{lab, policy}
use post_lite.Tests.Vault.{empty}

choices : Unit {0}
unfolding tables policy write_env create_environment_handler update_environment_handler
    delete_environment_handler activate_environment_handler active_env_ids get_setting set_setting
    setting_or put_settings_handler check_settings save_settings validate_setting parse_timeout
    parse_int parse_digits show_int show_from put_all update_environment delete_environment
    parse_parts get_environment
choices = tt

abbrev no_vars : Str → GoMap Str
no_vars s = []

abbrev no_text : GoMap Str → Str
no_text m = codes "{}"

abbrev dev : Environment
dev = record { id = 1; name = codes "dev"; scope = codes "global"; owner_id = none; vars = [] }

abbrev renaming : EnvBody
renaming = record { name = codes "prod"; scope = []; owner_id = none; vars = none }

environment_tests :
    (get_environment 1
        (write_env no_vars no_text (some root) (put (some 1) (some renaming)) empty).1.db
      ≡ some (record dev { name = codes "prod"; vars = codes "{}" }))
    × (get_environment 2 (write_env no_vars no_text (some bob) (post (some renaming)) empty).1.db
        ≡ some (record dev {
          id = 2;
          name = codes "prod";
          scope = codes "user";
          owner_id = some 3;
          vars = codes "{}";
        }))
    × ((write_env no_vars no_text (some bob) (drop_row (some 1)) empty).0 ≡ fail 403 "forbidden")
unfolding choices
environment_tests = (refl, refl, refl)

write_env_keeps_example :
    let m = write_env no_vars no_text (some bob) (put (some 1) (some renaming)) empty in
    IsLeft no_vars no_text bob (get_environment 1 empty.db) (get_environment 1 m.1.db)
    × IsFailure (m.0, m.1) empty
unfolding choices
write_env_keeps_example = write_env_keeps no_vars no_text bob (put (some 1) (some renaming)) empty 1

abbrev only_global : ActivateBody
only_global = record { global_env_id = some 1; user_env_id = none }

active_env_ids-activate_example :
    active_env_ids root (activate_environment_handler (some root) (some only_global) empty).1.db
    ≡ (some 1, none)
unfolding choices
active_env_ids-activate_example =
    active_env_ids-activate root only_global empty
      (activate_environment_handler (some root) (some only_global) empty).1 (omega arith) tt refl

abbrev with_missing : ActivateBody
with_missing = record { global_env_id = some 1; user_env_id = some 9 }

activate_environment_half_example :
    ((activate_environment_handler (some root) (some with_missing) empty).0
      ≡ fail 400 "bad_request")
    × ((active_env_ids root
          (activate_environment_handler (some root) (some with_missing) empty).1.db).0
        ≡ some 1)
unfolding choices
activate_environment_half_example =
    activate_environment_half root 1 9 dev empty (omega arith) refl refl refl refl

abbrev no_duration : Str → Option ℕ
no_duration s = none

abbrev listed : List (Str × Str)
listed = (whitelist_key, codes "10.0.0.0/8") ∷ (history_key, codes "20") ∷ []

abbrev mistyped : List (Str × Str)
mistyped = (history_key, codes "30") ∷ (whitelist_key, codes "x") ∷ []

abbrev calls : List (Option User × Option (List (Str × Str)))
calls = (some root, some mistyped) ∷ (some bob, some listed) ∷ (some root, some listed) ∷ []

settings_tests :
    ((put_all no_duration lab calls empty).db.settings ≡ listed)
    × ((put_settings_handler no_duration lab (some root) (some mistyped) empty).0
        ≡ fail 400 "bad_request")
    × (parse_timeout no_duration (codes " 30 ") ≡ some 30000000000)
    × (parse_timeout no_duration (codes "36028797018963968") ≡ some 0)
unfolding choices
settings_tests = (refl, refl, refl, refl)

whitelist_parses_example :
    parse_whitelist lab (setting_or whitelist_key [] (put_all no_duration lab calls empty).db)
    ≢ none
whitelist_parses_example = whitelist_parses no_duration lab calls empty refl
