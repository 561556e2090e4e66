-- ===== src/Store/Collections.antt =====
-- internal/repository/collections.go.
use post_lite.Base.{
  ◌==◌, if◌then◌else◌, length, Str, ℕ, zero, suc, ◌+◌, Bool, true, false, not, ◌||◌, Option, none,
  some, List, [], ◌∷◌, ◌++◌,
}
use post_lite.Store.{User, Collection, Folder, Db, find_by, last_id, keep, update, is_admin}

abbrev pub has_user : Option ℕ → Db → Bool
has_user none db = true
has_user (some i) db = elim (find_by User.id i db.users) [ none ↦ false | some u ↦ true ]

-- Collections.Create: none where the owner is no user
unfoldable pub create_collection : ℕ → Str → Option ℕ → Db → Option (ℕ × Db)
create_collection now name owner db =
    let i = last_id Collection.id db.collections + 1 in
    let c : Collection = record { id = i; name = name; owner_id = owner; created_at = now } in
    if has_user owner db
    then some (i, record db { collections = db.collections ++ c ∷ [] })
    else none

unfoldable pub get_collection : ℕ → Db → Option Collection
get_collection i db = find_by Collection.id i db.collections

-- Collections.ListFor
unfoldable pub list_collections : User → Db → List Collection
list_collections u db =
    if is_admin u
    then db.collections
    else keep (λ c. elim c.owner_id [ none ↦ true | some o ↦ o == u.id ]) db.collections

unfoldable pub update_collection_name : ℕ → Str → Db → Db
update_collection_name i name db = record db {
  collections = update (λ c. c.id == i) (λ c. record c { name = name }) db.collections;
}

-- A folder goes with the root of a deletion if a chain of parents leads to it; a chain has no more
-- links than there are folders.
unfoldable pub is_below : ℕ → List Folder → (Folder → Bool) → Folder → Bool
is_below zero fs root f = root f
is_below (suc fuel) fs root f = root f || elim f.parent_id [
  | none ↦ false
  | some p ↦ elim (find_by Folder.id p fs) [ none ↦ false | some g ↦ is_below fuel fs root g ]
]

-- requests.folder_id … ON DELETE SET NULL
abbrev pub kept_folder : List Folder → Option ℕ → Option ℕ
kept_folder fs none = none
kept_folder fs (some i) = elim (find_by Folder.id i fs) [ none ↦ none | some f ↦ some i ]

abbrev pub drop_folders : (Folder → Bool) → Db → Db
drop_folders root db =
    let fs = keep (λ f. not (is_below (length db.folders) db.folders root f)) db.folders in
    record db {
      folders = fs;
      requests =
          update (λ r. true) (λ r. record r { folder_id = kept_folder fs r.folder_id }) db.requests;
    }

-- Collections.Delete, with the folders and requests that cascade
unfoldable pub delete_collection : ℕ → Db → Db
unfolding is_below
delete_collection i db =
    drop_folders (λ f. f.collection_id == i)
      (record db {
        collections = keep (λ c. not (c.id == i)) db.collections;
        requests = keep (λ r. not (r.collection_id == i)) db.requests;
      })

abbrev pub has_folder : Option ℕ → Db → Bool
has_folder none db = true
has_folder (some i) db = elim (find_by Folder.id i db.folders) [ none ↦ false | some f ↦ true ]

-- Folders.Create: none where the collection or the parent is missing
unfoldable pub create_folder : ℕ → Option ℕ → Str → Db → Option (ℕ × Db)
unfolding get_collection
create_folder collection_id parent name db =
    let i = last_id Folder.id db.folders + 1 in
    let f : Folder = record {
      id = i;
      collection_id = collection_id;
      parent_id = parent;
      name = name;
    } in
    elim (get_collection collection_id db) [
      | none ↦ none
      | some c ↦
          if has_folder parent db
          then some (i, record db { folders = db.folders ++ f ∷ [] })
          else none
    ]

unfoldable pub list_folders : ℕ → Db → List Folder
list_folders collection_id db = keep (λ f. f.collection_id == collection_id) db.folders

unfoldable pub rename_folder : ℕ → Str → Db → Db
rename_folder i name db = record db {
  folders = update (λ f. f.id == i) (λ f. record f { name = name }) db.folders;
}

unfoldable pub delete_folder : ℕ → Db → Db
unfolding is_below
delete_folder i db = drop_folders (λ f. f.id == i) db
