-- ===== src/Api/History.antt =====
-- internal/httpapi/history.go. A query parameter is its text, "" where it is missing.
use post_lite.Base.{◌==◌, if◌then◌else◌, Str, str_eq, parse_int, ℕ, Option, none, some, List, []}
use post_lite.Store.{User, HistoryItem}
use post_lite.Store.History.{list_history, get_history, delete_history}
use post_lite.Api.{M, ◌>>=◌, ◌>>◌, respond, require_some, gets, modify, require_user, decode}

-- request_id: a text that is no number counts as missing
abbrev pub id_query : Str → Option ℕ
id_query v = if str_eq v [] then none else parse_int v

abbrev pub positive_or : ℕ → Option ℕ → ℕ
positive_or default none = default
positive_or default (some n) = if n == 0 then default else n

abbrev pub limit_query : Str → ℕ
limit_query v = if str_eq v [] then 50 else positive_or 50 (parse_int v)

module _ (requester : Option User) where
  unfoldable pub list_history_handler : Str → Str → M (List HistoryItem)
  list_history_handler request_id limit = do
    u ← require_user requester
    gets (list_history u.id (id_query request_id) (limit_query limit))

  unfoldable pub get_history_handler : Option ℕ → M HistoryItem
  get_history_handler id_param = do
    u ← require_user requester
    id ← decode id_param
    found ← gets (get_history id u.id)
    require_some 404 "not_found" found

  unfoldable pub delete_history_handler : Option ℕ → M ℕ
  delete_history_handler id_param = do
    u ← require_user requester
    id ← decode id_param
    modify (delete_history id u.id)
    respond id
