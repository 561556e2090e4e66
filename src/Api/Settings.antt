-- ===== src/Api/Settings.antt =====
-- internal/httpapi/settings.go. The map that is sent is the list of its entries, in the order in which
-- the loop meets them. url.Parse and the CIDR parser are those of the record `Net`; time.ParseDuration
-- is a parameter that gives the nanoseconds of a duration above 0, and none for what else there is.
pub mod Valid
use post_lite.Base.{
  ◌==◌, if◌then◌else◌, any, Str, codes, str_eq, trim_space, parse_int, ℕ, ◌*◌, ◌%◌, ◌^◌, Bool, true,
  false, not, ◌&&◌, ◌||◌, Option, none, some, List, [], ◌∷◌, ◌++◌,
}
use post_lite.Store.{User, Db}
use post_lite.Store.Settings.{get_setting, set_setting}
use post_lite.Executor.Target.{Url, Net, parse_whitelist, is_http}
use post_lite.Api.{
  audit, M, ◌>>=◌, ◌>>◌, respond, is_missing, check, gets, modify, require_admin, decode,
}

abbrev pub whitelist_key : Str
whitelist_key = codes "ssrf_whitelist"

abbrev pub timeout_key : Str
timeout_key = codes "exec_timeout"

abbrev pub history_key : Str
history_key = codes "max_history"

abbrev pub proxy_key : Str
proxy_key = codes "proxy_url"

abbrev pub allowed_settings : List Str
allowed_settings = whitelist_key ∷ timeout_key ∷ history_key ∷ proxy_key ∷ []

abbrev pub second : ℕ
second = 1000000000

-- settingOr
unfoldable pub setting_or : Str → Str → Db → Str
setting_or key fallback db = elim (get_setting key db) [
  | none ↦ fallback
  | some v ↦ if str_eq v [] then fallback else v
]

-- strconv.Atoi, above 0
abbrev pub positive : Option ℕ → Option ℕ
positive none = none
positive (some n) = if n == 0 then none else some n

module _ (parse_duration : Str → Option ℕ) where
  -- time.Duration(sec) * time.Second in an int64; none where it is not above 0
  abbrev pub in_seconds : Option ℕ → Option ℕ
  in_seconds none = none
  in_seconds (some sec) = some (sec * second % 2 ^ 64)

  abbrev pub duration_or : Option ℕ → Option ℕ → Option ℕ
  duration_or (some d) sec = some d
  duration_or none sec = in_seconds sec

  -- parseTimeout; the value is what stands in the int64, as a number below 2 ^ 64
  unfoldable pub parse_timeout : Str → Option ℕ
  parse_timeout v =
      let trimmed = trim_space v in
      if str_eq trimmed []
      then none
      else duration_or (parse_duration trimmed) (positive (parse_int trimmed))

  module _ (n : Net) where
    open n use {parse_url}

    abbrev pub is_proxy : Option Url → Bool
    is_proxy none = false
    is_proxy (some u) = is_http n u.scheme && not (str_eq u.host [])

    abbrev pub valid_for : Str → Str → Bool
    valid_for key value =
        if str_eq key whitelist_key
        then not (is_missing (parse_whitelist n value))
        else if str_eq key timeout_key
        then not (is_missing (parse_timeout value))
        else if str_eq key history_key
        then not (is_missing (positive (parse_int (trim_space value))))
        else if str_eq key proxy_key
        then is_proxy (parse_url (trim_space value))
        else true

    -- validateSetting: true is no error
    unfoldable pub validate_setting : Str → Str → Bool
    validate_setting key value = str_eq (trim_space value) [] || valid_for key value

    -- The loop that checks
    unfoldable pub check_settings : List (Str × Str) → M (Unit {0})
    check_settings [] = respond tt
    check_settings ((k, v) ∷ b) = do
      check (any (str_eq k) allowed_settings) 400 "bad_request"
      check (validate_setting k v) 400 "bad_request"
      check_settings b

    -- The loop that writes: the keys that it has saved
    unfoldable pub save_settings : User → List (Str × Str) → M (List Str)
    save_settings admin [] = respond []
    save_settings admin ((k, v) ∷ b) = do
      modify (set_setting k v)
      audit admin "settings.put" 0 (k ++ codes "=" ++ v)
      saved ← save_settings admin b
      respond (k ∷ saved)

    unfoldable pub put_settings_handler : Option User → Option (List (Str × Str)) → M (List Str)
    put_settings_handler requester body = do
      admin ← require_admin requester
      b ← decode body
      check_settings b
      save_settings admin b

    abbrev pub stored_or : Str → Str → Db → Str
    stored_or key fallback db = elim (get_setting key db) [ none ↦ fallback | some v ↦ v ]

    -- getSettings; `timeout` is the text of the configured one
    unfoldable pub get_settings_handler : Str → Option User → M (List (Str × Str))
    get_settings_handler timeout requester = do
      admin ← require_admin requester
      gets (λ db.
          (whitelist_key, stored_or whitelist_key (setting_or whitelist_key [] db) db)
          ∷ (timeout_key, stored_or timeout_key timeout db)
          ∷ (history_key, stored_or history_key (codes "1000") db)
          ∷ (proxy_key, stored_or proxy_key [] db)
          ∷ [])
