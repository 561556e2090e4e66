-- ===== src/Store/History.antt =====
-- internal/repository/history.go.
use post_lite.Base.{
  leb, ◌==◌, if◌then◌else◌, length, take, drop, Str, max, ℕ, ◌+◌, ◌-◌, Bool, true, not, ◌&&◌, ◌||◌,
  Option, none, some, List, [], ◌∷◌, ◌++◌, reverse,
}
use post_lite.Store.{HistoryItem, Db, last_id, keep, is_owner}

unfoldable pub insert_history : ℕ → Option ℕ → ℕ → Str → Str → ℕ → ℕ → Str → Str → Db → ℕ × Db
insert_history now request_id user_id method url status duration req_text res_text db =
    let i = last_id HistoryItem.id db.history + 1 in
    let h : HistoryItem = record {
      id = i;
      request_id = request_id;
      user_id = user_id;
      method = method;
      url = url;
      status = status;
      duration_ms = duration;
      req_text = req_text;
      res_text = res_text;
      created_at = now;
    } in
    (i, record db { history = db.history ++ h ∷ [] })

abbrev pub is_for_request : Option ℕ → HistoryItem → Bool
is_for_request none h = true
is_for_request (some r) h = is_owner h.request_id r

-- ORDER BY id DESC LIMIT: the rows stand in the order of their ids
unfoldable pub list_history : ℕ → Option ℕ → ℕ → Db → List HistoryItem
list_history user_id request_id limit db =
    take limit
      (reverse (keep (λ h. (h.user_id == user_id) && is_for_request request_id h) db.history))

unfoldable pub find_history : ℕ → ℕ → List HistoryItem → Option HistoryItem
find_history i user_id [] = none
find_history i user_id (h ∷ hs) =
    if (h.id == i) && (h.user_id == user_id) then some h else find_history i user_id hs

unfoldable pub get_history : ℕ → ℕ → Db → Option HistoryItem
unfolding find_history
get_history i user_id db = find_history i user_id db.history

unfoldable pub delete_history : ℕ → ℕ → Db → Db
delete_history i user_id db = record db {
  history = keep (λ h. not ((h.id == i) && (h.user_id == user_id))) db.history;
}

-- Purge: the newest `max` rows stay; 0 keeps all
unfoldable pub purge_history : ℕ → Db → Db
purge_history max db =
    let total = length db.history in
    if (max == 0) || leb total max
    then db
    else record db { history = drop (total - max) db.history }
