-- ===== src/Store/Secrets.antt =====
-- internal/repository/secrets.go. A blob is its bytes; none stands for a missing row.
use mathlib.Core.Option
use post_lite.Base.{
  ◌==◌, if◌then◌else◌, Str, str_eq, str_leb, ℕ, ◌+◌, not, Option, none, some, List, [], ◌∷◌, ◌++◌,
  map,
}
use post_lite.Store.{Secret, Db, last_id, keep, update}

unfoldable pub find_secret : Str → List Secret → Option Secret
find_secret name [] = none
find_secret name (x ∷ xs) = if str_eq x.name name then some x else find_secret name xs

-- Secrets.Create: none where the name is taken
unfoldable pub create_secret : ℕ → Str → Str → ℕ → Db → Option (ℕ × Db)
unfolding find_secret
create_secret now name ciphertext created_by db =
    let i = last_id Secret.id db.secrets + 1 in
    let x : Secret = record {
      id = i;
      name = name;
      ciphertext = ciphertext;
      created_by = created_by;
      created_at = now;
      updated_at = now;
    } in
    elim (find_secret name db.secrets) [
      | some other ↦ none
      | none ↦ some (i, record db { secrets = db.secrets ++ x ∷ [] })
    ]

-- Secrets.Update: none is ErrNotFound
unfoldable pub update_secret : ℕ → Str → Str → Db → Option Db
unfolding find_secret
update_secret now name ciphertext db = elim (find_secret name db.secrets) [
  | none ↦ none
  | some old ↦ some (record db {
    secrets =
        update (λ x. str_eq x.name name)
          (λ x. record x { ciphertext = ciphertext; updated_at = now }) db.secrets;
  })
]

-- SecretMeta
pub record SecretMeta : Type 0 where
  pub id : ℕ
  pub name : Str
  pub updated_at : ℕ

abbrev pub meta : Secret → SecretMeta
meta x = record { id = x.id; name = x.name; updated_at = x.updated_at }

-- ORDER BY name
unfoldable pub insert_by_name : Secret → List Secret → List Secret
insert_by_name x [] = x ∷ []
insert_by_name x (y ∷ ys) =
    let rest = insert_by_name x ys in if str_leb x.name y.name then x ∷ y ∷ ys else y ∷ rest

unfoldable pub sort_by_name : List Secret → List Secret
unfolding insert_by_name
sort_by_name [] = []
sort_by_name (x ∷ xs) = insert_by_name x (sort_by_name xs)

-- Secrets.List
unfoldable pub list_secrets : Db → List SecretMeta
unfolding sort_by_name
list_secrets db = map meta (sort_by_name db.secrets)

-- GetByName
unfoldable pub get_secret : Str → Db → Option Str
unfolding find_secret
get_secret name db = Option.map Secret.ciphertext (find_secret name db.secrets)

unfoldable pub delete_secret : ℕ → Db → Db
delete_secret i db = record db { secrets = keep (λ x. not (x.id == i)) db.secrets }
