-- ===== src/Store/Settings.antt =====
-- internal/repository/settings.go. The audit log is the list of its entries, not their JSON text.
use post_lite.Base.{
  ltb, ◌==◌, if◌then◌else◌, length, drop, Str, lookup, insert, max, ℕ, ◌-◌, Option, List, [], ◌∷◌,
  ◌++◌,
}
use post_lite.Store.{Db}

unfoldable pub get_setting : Str → Db → Option Str
get_setting key db = lookup key db.settings

unfoldable pub set_setting : Str → Str → Db → Db
set_setting key value db = record db { settings = insert key value db.settings }

-- AppendAudit: the entry stands last, and the oldest are dropped
unfoldable pub append_audit : Str → ℕ → List Str → List Str
append_audit entry max log =
    let cap = if max == 0 then 500 else max in
    let all = log ++ entry ∷ [] in if ltb cap (length all) then drop (length all - cap) all else all
