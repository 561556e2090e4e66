-- ===== src/Store.antt =====
-- internal/models and internal/repository over the tables of internal/db/migrations.go: rows in the
-- order of their ids, a new id one above the largest. A time is a number of seconds, a JSON column is
-- its text; a NULL text reads as "". The database itself does not fail, but for the constraints
-- that the tables declare. Ids are numbers: a negative id names no row.
pub mod Tables
pub mod Access
pub mod Lists
pub mod Users
pub mod Collections
pub mod Requests
pub mod Environments
pub mod History
pub mod Settings
pub mod Secrets
pub mod Migrations
use post_lite.Base.{
  ◌==◌, if◌then◌else◌, Str, codes, str_eq, GoMap, max, ℕ, Bool, false, Option, none, some, List, [],
  ◌∷◌,
}

pub record User : Type 0 where
  pub id : ℕ
  pub username : Str
  pub salt : Str
  pub password_hash : Str
  pub enabled : Bool
  pub role : Str
  pub created_at : ℕ

pub record Session : Type 0 where
  pub id : Str
  pub user_id : ℕ
  pub expires_at : ℕ

pub record Collection : Type 0 where
  pub id : ℕ
  pub name : Str
  pub owner_id : Option ℕ
  pub created_at : ℕ

pub record Folder : Type 0 where
  pub id : ℕ
  pub collection_id : ℕ
  pub parent_id : Option ℕ
  pub name : Str

pub record Request : Type 0 where
  pub id : ℕ
  pub collection_id : ℕ
  pub folder_id : Option ℕ
  pub owner_id : Option ℕ
  pub name : Str
  pub protocol : Str
  pub method : Str
  pub url : Str
  pub headers : Str
  pub query : Str
  pub body_type : Str
  pub body : Str
  pub variables : Str
  pub script : Str
  pub test_script : Str
  pub use_proxy : Bool
  pub updated_at : ℕ

pub record Environment : Type 0 where
  pub id : ℕ
  pub name : Str
  pub scope : Str
  pub owner_id : Option ℕ
  pub vars : Str

pub record HistoryItem : Type 0 where
  pub id : ℕ
  pub request_id : Option ℕ
  pub user_id : ℕ
  pub method : Str
  pub url : Str
  pub status : ℕ
  pub duration_ms : ℕ
  pub req_text : Str
  pub res_text : Str
  pub created_at : ℕ

pub record Secret : Type 0 where
  pub id : ℕ
  pub name : Str
  pub ciphertext : Str
  pub created_by : ℕ
  pub created_at : ℕ
  pub updated_at : ℕ

-- Store: the tables
pub record Db : Type 0 where
  pub users : List User
  pub sessions : List Session
  pub collections : List Collection
  pub folders : List Folder
  pub requests : List Request
  pub environments : List Environment
  pub history : List HistoryItem
  pub settings : GoMap Str
  pub secrets : List Secret

module _ {ℓ} {A : Type ℓ} (key : A → ℕ) where
  -- SELECT … WHERE id = ?
  unfoldable pub find_by : ℕ → List A → Option A
  find_by i [] = none
  find_by i (x ∷ xs) = if key x == i then some x else find_by i xs

  -- The largest id
  unfoldable pub last_id : List A → ℕ
  last_id [] = 0
  last_id (x ∷ xs) = max (key x) (last_id xs)

module _ {ℓ} {A : Type ℓ} where
  -- SELECT … WHERE p, DELETE … WHERE NOT p
  unfoldable pub keep : (A → Bool) → List A → List A
  keep p [] = []
  keep p (x ∷ xs) = let rest = keep p xs in if p x then x ∷ rest else rest

  -- UPDATE … WHERE p
  unfoldable pub update : (A → Bool) → (A → A) → List A → List A
  update p f [] = []
  update p f (x ∷ xs) = (if p x then f x else x) ∷ update p f xs

-- owner_id = ? over a column that may be NULL
abbrev pub is_owner : Option ℕ → ℕ → Bool
is_owner none uid = false
is_owner (some o) uid = o == uid

abbrev pub is_admin : User → Bool
is_admin u = str_eq u.role (codes "admin")
