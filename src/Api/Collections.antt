-- ===== src/Api/Collections.antt =====
-- internal/httpapi/collections.go: the collections and their folders. Export and import are in
-- Api/Exchange.
pub mod Access
use post_lite.Base.{if◌then◌else◌, Str, str_eq, ℕ, Bool, not, ◌||◌, Option, none, some, List, []}
use post_lite.Store.{User, Collection, Folder, Request, find_by, is_admin}
use post_lite.Store.Access.{can_view_collection, can_manage_collection}
use post_lite.Store.Collections.{
  create_collection, get_collection, list_collections, update_collection_name, delete_collection,
  create_folder, list_folders, rename_folder, delete_folder,
}
use post_lite.Store.Requests.{list_requests}
use post_lite.Api.{
  audit, M, ◌>>=◌, ◌>>◌, respond, require_some, check, gets, modify, attempt, require_user, decode,
}

pub record CollectionBody : Type 0 where
  pub name : Str
  pub is_global : Bool

pub record FolderBody : Type 0 where
  pub name : Str
  pub parent_id : Option ℕ

-- The payload of getCollection
pub record CollectionView : Type 0 where
  pub collection : Collection
  pub folders : List Folder
  pub requests : List Request

abbrev pub is_named : Str → Bool
is_named name = not (str_eq name [])

module _ (requester : Option User) where
  unfoldable pub list_collections_handler : M (List Collection)
  list_collections_handler = do u ← require_user requester; gets (list_collections u)

  unfoldable pub create_collection_handler : ℕ → Option CollectionBody → M ℕ
  create_collection_handler now body = do
    u ← require_user requester
    b ← decode body
    check (is_named b.name) 400 "bad_request"
    check (not b.is_global || is_admin u) 403 "forbidden"
    id ←
        attempt 500 "internal"
          (create_collection now b.name (if b.is_global then none else some u.id))
    if b.is_global then audit u "collection.create_global" id b.name else respond tt
    respond id

  unfoldable pub get_collection_handler : Option ℕ → M CollectionView
  get_collection_handler id_param = do
    u ← require_user requester
    id ← decode id_param
    found ← gets (get_collection id)
    c ← require_some 404 "not_found" found
    check (can_view_collection u c) 403 "forbidden"
    folders ← gets (list_folders id)
    requests ← gets (list_requests id)
    respond (record { collection = c; folders = folders; requests = requests })

  unfoldable pub update_collection_handler : Option ℕ → Option CollectionBody → M ℕ
  update_collection_handler id_param body = do
    u ← require_user requester
    id ← decode id_param
    found ← gets (get_collection id)
    c ← require_some 404 "not_found" found
    check (can_manage_collection u c) 403 "forbidden"
    b ← decode body
    check (is_named b.name) 400 "bad_request"
    modify (update_collection_name id b.name)
    respond id

  unfoldable pub delete_collection_handler : Option ℕ → M ℕ
  delete_collection_handler id_param = do
    u ← require_user requester
    id ← decode id_param
    found ← gets (get_collection id)
    c ← require_some 404 "not_found" found
    check (can_manage_collection u c) 403 "forbidden"
    modify (delete_collection id)
    audit u "collection.delete" id c.name
    respond id

  -- Get and CanView or CanManage in one condition, with one answer
  abbrev pub permitted : (User → Collection → Bool) → User → ℕ → M Collection
  permitted may u id = do
    found ← gets (get_collection id)
    c ← require_some 403 "forbidden" found
    check (may u c) 403 "forbidden"
    respond c

  unfoldable pub list_folders_handler : Option ℕ → M (List Folder)
  list_folders_handler id_param = do
    u ← require_user requester
    id ← decode id_param
    c ← permitted can_view_collection u id
    gets (list_folders id)

  unfoldable pub create_folder_handler : Option ℕ → Option FolderBody → M ℕ
  create_folder_handler id_param body = do
    u ← require_user requester
    id ← decode id_param
    c ← permitted can_manage_collection u id
    b ← decode body
    check (is_named b.name) 400 "bad_request"
    attempt 500 "internal" (create_folder id b.parent_id b.name)

  -- folderOf
  abbrev pub folder_of : Option ℕ → ℕ → M Folder
  folder_of fid_param collection_id = do
    fid ← decode fid_param
    folders ← gets (list_folders collection_id)
    require_some 404 "not_found" (find_by Folder.id fid folders)

  unfoldable pub update_folder_handler : Option ℕ → Option ℕ → Option FolderBody → M ℕ
  update_folder_handler id_param fid_param body = do
    u ← require_user requester
    id ← decode id_param
    c ← permitted can_manage_collection u id
    f ← folder_of fid_param id
    b ← decode body
    check (is_named b.name) 400 "bad_request"
    modify (rename_folder f.id b.name)
    respond f.id

  unfoldable pub delete_folder_handler : Option ℕ → Option ℕ → M ℕ
  delete_folder_handler id_param fid_param = do
    u ← require_user requester
    id ← decode id_param
    c ← permitted can_manage_collection u id
    f ← folder_of fid_param id
    modify (delete_folder f.id)
    respond f.id
