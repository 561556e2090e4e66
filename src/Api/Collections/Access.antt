-- ===== src/Api/Collections/Access.antt =====
-- What the collection handlers let a user do.
use post_lite.Store.Tables.{
  find_by-keep, find_by-update, find_by-eq-some, find_by-le-last_id, find_by-append,
}
use post_lite.Store.Access.{can_manage_collection}
use post_lite.Store.Collections.{
  create_collection, get_collection, update_collection_name, delete_collection, create_folder,
  list_folders, rename_folder, delete_folder,
}
use post_lite.Base.{
  ◌==◌, if◌then◌else◌, ℕ_cases, Option-cases, Str, ℕ, ◌+◌, ◌≡◌, refl, ◌≢◌, inl, inr, false, not,
  Option, none, some, arith,
}
use post_lite.Store.{User, Collection, Folder, Db, find_by, last_id}
use post_lite.Api.{State, Res, ret, fail, M}
use post_lite.Api.Collections.{
  CollectionBody, FolderBody, create_collection_handler, update_collection_handler,
  delete_collection_handler, create_folder_handler, update_folder_handler, delete_folder_handler,
}

-- Creating, renaming and deleting of collections and of folders. Import, which writes both too, is in
-- Api/Exchange.
pub data Call : Type 0 where
  create : ℕ → Option CollectionBody → Call
  rename : Option ℕ → Option CollectionBody → Call
  remove : Option ℕ → Call
  add_folder : Option ℕ → Option FolderBody → Call
  title_folder : Option ℕ → Option ℕ → Option FolderBody → Call
  remove_folder : Option ℕ → Option ℕ → Call

unfoldable pub handle : Option User → Call → M ℕ
handle r (create now b) = create_collection_handler r now b
handle r (rename i b) = update_collection_handler r i b
handle r (remove i) = delete_collection_handler r i
handle r (add_folder i b) = create_folder_handler r i b
handle r (title_folder i f b) = update_folder_handler r i f b
handle r (remove_folder i f) = delete_folder_handler r i f

-- A response that is a failure
abbrev pub IsFailure {ℓ} : {A : Type ℓ} → Res A × State → State → Type 0
IsFailure (ret a, s') s = Unit
IsFailure (fail status code, s') s = s' ≡ s

handle-IsFailure : (r : Option User) (c : Call) (s : State) → IsFailure (handle r c s) s
unfolding handle create_collection_handler update_collection_handler delete_collection_handler
    create_folder_handler update_folder_handler delete_folder_handler
handle-IsFailure r (create now b) s = ground arith
handle-IsFailure r (rename i b) s = ground arith
handle-IsFailure r (remove i) s = ground arith
handle-IsFailure r (add_folder i b) s = ground arith
handle-IsFailure r (title_folder i f b) s = ground arith
handle-IsFailure r (remove_folder i f) s = ground arith

handle_unauthorized : (c : Call) (s : State) → handle none c s ≡ (fail 401 "unauthorized", s)
unfolding handle create_collection_handler update_collection_handler delete_collection_handler
    create_folder_handler update_folder_handler delete_folder_handler
handle_unauthorized (create now b) s = refl
handle_unauthorized _ s = refl

-- What each operation of the store leaves of a row
pub create_collection-keeps :
    (now k i : ℕ) (name : Str) (owner : Option ℕ) (db db' : Db) (c : Collection)
    → create_collection now name owner db ≡ some (i, db')
    → get_collection k db ≡ some c
    → get_collection k db' ≡ some c
unfolding create_collection get_collection
create_collection-keeps now k i name owner db db' c e found =
    let rows = db.collections in
    let x : Collection = record {
      id = last_id Collection.id rows + 1;
      name = name;
      owner_id = owner;
      created_at = now;
    } in
    ground (
      arith,
      find_by-append Collection.id k rows x,
      find_by-le-last_id Collection.id k rows c found,
    )

update_collection_name-keeps :
    (k i : ℕ) (name : Str) (db : Db) (c : Collection)
    → i ≢ k
    → get_collection k db ≡ some c
    → get_collection k (update_collection_name i name db) ≡ some c
unfolding update_collection_name get_collection
update_collection_name-keeps k i name db c ne found =
    let same = find_by-eq-some Collection.id k db.collections c found in
    rw
      (
        find_by-update Collection.id (λ x. x.id == i) (λ x. record x { name = name }) k
            db.collections (λ x. refl),
        found,
      )
      (ground arith)

delete_collection-keeps :
    (k i : ℕ) (db : Db) (c : Collection)
    → i ≢ k
    → get_collection k db ≡ some c
    → get_collection k (delete_collection i db) ≡ some c
unfolding delete_collection get_collection
delete_collection-keeps k i db c ne found =
    rw
      (
        find_by-keep Collection.id (λ x. not (x.id == i)) (λ j. not (j == i)) k db.collections
            (λ x. refl),
        found,
      )
      (ground arith)

pub create_folder-keeps :
    (k i : ℕ) (collection_id : ℕ) (parent : Option ℕ) (name : Str) (db db' : Db)
    → create_folder collection_id parent name db ≡ some (i, db')
    → get_collection k db' ≡ get_collection k db
unfolding create_folder get_collection
create_folder-keeps k i collection_id parent name db db' e = ground arith

delete_folder-keeps :
    (k i : ℕ) (db : Db) → get_collection k (delete_folder i db) ≡ get_collection k db
unfolding delete_folder get_collection
delete_folder-keeps k i db = refl

rename_folder-keeps :
    (k i : ℕ) (name : Str) (db : Db)
    → get_collection k (rename_folder i name db) ≡ get_collection k db
unfolding rename_folder get_collection
rename_folder-keeps k i name db = refl

abbrev pub Keeps : ℕ → Collection → State → Type 0
Keeps k c s = get_collection k s.db ≡ some c

-- A collection that the user may not manage is still there after any of these requests of theirs, with
-- the same name and owner.
pub handle-Keeps :
    (u : User) (call : Call) (s : State) (k : ℕ) (c : Collection)
    → can_manage_collection u c ≡ false
    → Keeps k c s
    → Keeps k c (handle (some u) call s).1
unfolding handle create_collection_handler update_collection_handler delete_collection_handler
    create_folder_handler update_folder_handler delete_folder_handler
handle-Keeps u (create now none) s k c barred h = h
handle-Keeps u (create now (some b)) s k c barred h =
    elim (Option-cases
      (create_collection now b.name (if b.is_global then none else some u.id) s.db)) [
        | inl refused ↦ ground arith
        | inr ((i, db'), made) ↦ ground (
          arith,
          create_collection-keeps now k i b.name (if b.is_global then none else some u.id) s.db db'
              c made h,
        )
      ]
handle-Keeps u (rename none b) s k c barred h = h
handle-Keeps u (rename (some i) none) s k c barred h = ground arith
handle-Keeps u (rename (some i) (some b)) s k c barred h = elim (ℕ_cases i k) [
  | inl same ↦ rw (same, h, barred) h
  | inr ne ↦ ground (arith, update_collection_name-keeps k i b.name s.db c ne h)
]
handle-Keeps u (remove none) s k c barred h = h
handle-Keeps u (remove (some i)) s k c barred h = elim (ℕ_cases i k) [
  | inl same ↦ rw (same, h, barred) h
  | inr ne ↦ ground (arith, delete_collection-keeps k i s.db c ne h)
]
handle-Keeps u (add_folder none b) s k c barred h = h
handle-Keeps u (add_folder (some i) none) s k c barred h = ground arith
handle-Keeps u (add_folder (some i) (some b)) s k c barred h =
    elim (Option-cases (create_folder i b.parent_id b.name s.db)) [
      | inl refused ↦ ground arith
      | inr ((j, db'), made) ↦
          ground (arith, create_folder-keeps k j i b.parent_id b.name s.db db' made)
    ]
handle-Keeps u (title_folder none f b) s k c barred h = h
handle-Keeps u (title_folder (some i) none b) s k c barred h = ground arith
handle-Keeps u (title_folder (some i) (some f) none) s k c barred h = ground arith
handle-Keeps u (title_folder (some i) (some f) (some b)) s k c barred h =
    elim (Option-cases (find_by Folder.id f (list_folders i s.db))) [
      | inl missing ↦ ground arith
      | inr (x, found) ↦ ground (arith, rename_folder-keeps k x.id b.name s.db)
    ]
handle-Keeps u (remove_folder none f) s k c barred h = h
handle-Keeps u (remove_folder (some i) none) s k c barred h = ground arith
handle-Keeps u (remove_folder (some i) (some f)) s k c barred h =
    elim (Option-cases (find_by Folder.id f (list_folders i s.db))) [
      | inl missing ↦ ground arith
      | inr (x, found) ↦ ground (arith, delete_folder-keeps k x.id s.db)
    ]

-- Whoever sends a request that creates, renames or deletes a collection or a folder, and whatever is in
-- it: without a session it is refused with 401 and nothing changes, and a response that is a failure has
-- changed nothing. Import is not among these requests.
pub collection_writes_atomic :
    (u : User) (call : Call) (s : State)
    → (handle none call s ≡ (fail 401 "unauthorized", s)) × IsFailure (handle (some u) call s) s
collection_writes_atomic u call s = (handle_unauthorized call s, handle-IsFailure (some u) call s)
