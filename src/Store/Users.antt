-- ===== src/Store/Users.antt =====
-- internal/repository/users.go and sessions.go.
use post_lite.Base.{
  ltb, ◌==◌, if◌then◌else◌, length, Str, codes, str_eq, ℕ, ◌+◌, ◌≡◌, refl, ◌≢◌, Bool, true, false,
  not, ◌||◌, Option, none, some, List, [], ◌∷◌, ◌++◌, arith,
}
use post_lite.Store.Tables.{find_by-keep, find_by-update}
use post_lite.Store.Access.{can_view_collection}
use post_lite.Store.{
  User, Session, Collection, Db, find_by, last_id, keep, update, is_owner, is_admin,
}

-- SELECT … WHERE username = ?
unfoldable pub find_username : Str → List User → Option User
find_username name [] = none
find_username name (u ∷ us) = if str_eq u.username name then some u else find_username name us

abbrev pub is_role : Str → Bool
is_role role = str_eq role (codes "admin") || str_eq role (codes "user")

-- Users.Create: none where the name is taken or the role is none of the two
unfoldable pub create_user : ℕ → Str → Str → Str → Str → Db → Option (ℕ × Db)
create_user now username role salt hash db =
    let i = last_id User.id db.users + 1 in
    let u : User = record {
      id = i;
      username = username;
      salt = salt;
      password_hash = hash;
      enabled = true;
      role = role;
      created_at = now;
    } in
    if not (is_role role) then none else elim (find_username username db.users) [
      | some other ↦ none
      | none ↦ some (i, record db { users = db.users ++ u ∷ [] })
    ]

unfoldable pub get_user : ℕ → Db → Option User
get_user i db = find_by User.id i db.users

unfoldable pub get_by_username : Str → Db → Option User
unfolding find_username
get_by_username name db = find_username name db.users

unfoldable pub set_password : ℕ → Str → Str → Db → Db
set_password i salt hash db = record db {
  users = update (λ u. u.id == i) (λ u. record u { salt = salt; password_hash = hash }) db.users;
}

unfoldable pub set_enabled : ℕ → Bool → Db → Db
set_enabled i enabled db = record db {
  users = update (λ u. u.id == i) (λ u. record u { enabled = enabled }) db.users;
}

-- owner_id … REFERENCES users(id) ON DELETE SET NULL
abbrev pub disown : ℕ → Option ℕ → Option ℕ
disown i none = none
disown i (some o) = if o == i then none else some o

-- Users.Delete, with what the foreign keys make of it: the user's sessions and environments go, and
-- the user's collections and requests stay without an owner.
unfoldable pub delete_user : ℕ → Db → Db
delete_user i db = record db {
  users = keep (λ u. not (u.id == i)) db.users;
  sessions = keep (λ s. not (s.user_id == i)) db.sessions;
  collections =
      update (λ c. true) (λ c. record c { owner_id = disown i c.owner_id }) db.collections;
  requests = update (λ r. true) (λ r. record r { owner_id = disown i r.owner_id }) db.requests;
  environments = keep (λ e. not (is_owner e.owner_id i)) db.environments;
}

-- Sessions.Create: none where there is no such user, or the hash is taken
unfoldable pub find_session : Str → List Session → Option Session
find_session hash [] = none
find_session hash (s ∷ ss) = if str_eq s.id hash then some s else find_session hash ss

unfoldable pub create_session : ℕ → Str → ℕ → ℕ → Db → Option Db
unfolding find_session
create_session now hash user_id ttl db =
    let s : Session = record { id = hash; user_id = user_id; expires_at = now + ttl } in
    elim (find_by User.id user_id db.users) [
      | none ↦ none
      | some u ↦ elim (find_session hash db.sessions) [
        | some other ↦ none
        | none ↦ some (record db { sessions = db.sessions ++ s ∷ [] })
      ]
    ]

unfoldable pub get_session : Str → Db → Option Session
unfolding find_session
get_session hash db = find_session hash db.sessions

unfoldable pub delete_session : Str → Db → Db
delete_session hash db = record db { sessions = keep (λ s. not (str_eq s.id hash)) db.sessions }

unfoldable pub purge_expired : ℕ → Db → Db
purge_expired now db = record db { sessions = keep (λ s. not (ltb s.expires_at now)) db.sessions }

find_session-keep :
    (p : Session → Bool) (hash : Str) (ss : List Session) (s : Session)
    → find_session hash (keep p ss) ≡ some s
    → p s ≡ true
unfolding find_session keep
find_session-keep p hash [] s e = absurd (cc)
find_session-keep p hash (t ∷ ss) s e = ground (arith, find_session-keep p hash ss s)

-- When a user is deleted, their id finds no user any more, and no session whose hash is looked up is
-- theirs.
pub delete_user_lem :
    (i : ℕ) (db : Db) (hash : Str) (s : Session)
    → get_session hash (delete_user i db) ≡ some s
    → (get_user i (delete_user i db) ≡ none) × (s.user_id ≢ i)
unfolding get_user delete_user get_session
delete_user_lem i db hash s e = (
  rw (find_by-keep User.id (λ u. not (u.id == i)) (λ j. not (j == i)) i db.users (λ u. refl))
      (ground arith),
  λ same. ground (arith, find_session-keep (λ t. not (t.user_id == i)) hash db.sessions s e),
)

-- When a user is deleted, a collection of theirs stays, without an owner: every other user may view it
-- from then on, also one who is no admin and could not before.
pub delete_user_exposes :
    (i : ℕ) (db : Db) (c : Collection) (k : ℕ) (v : User)
    → find_by Collection.id k db.collections ≡ some c
    → c.owner_id ≡ some i
    → is_admin v ≡ false
    → v.id ≢ i
    → (d : Collection) × (find_by Collection.id k (delete_user i db).collections ≡ some d)
      × (can_view_collection v c ≡ false)
      × (can_view_collection v d ≡ true)
unfolding delete_user can_view_collection
delete_user_exposes i db c k v found owned plain other = (
  record c { owner_id = none },
  rw
      (
        find_by-update Collection.id (λ x. true) (λ x. record x { owner_id = disown i x.owner_id })
            k db.collections (λ x. refl),
        found,
        owned,
      )
      (ground arith),
  ground arith,
  ground arith,
)

-- Users.List: the rows stand in the order of their ids
unfoldable pub list_users : Db → List User
list_users db = db.users

unfoldable pub count_users : Db → ℕ
count_users db = length db.users
