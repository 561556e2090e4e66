-- ===== src/Api/Users/Own.antt =====
-- What the management of users leaves of the one who uses it.
use post_lite.Store.Tables.{
  find_by-keep, find_by-update, find_by-eq-some, find_by-le-last_id, find_by-append,
}
use post_lite.Base.{
  leb, ◌==◌, if◌then◌else◌, Bool-cases, ℕ_cases, Option-cases, length, Str, ℕ, ◌+◌, ◌≤◌, ◌≡◌, refl,
  ◌∙◌, ◌≢◌, ◌⊎◌, inl, inr, Bool, true, false, not, ◌&&◌, Option, none, some, arith,
}
use post_lite.Store.{User, Db, last_id, is_admin}
use post_lite.Store.Users.{
  find_username, create_user, get_user, set_password, set_enabled, delete_user,
}
use post_lite.Api.{State, fail}
use post_lite.Api.Users.{
  UserCreateBody, role_of, create_user_handler, delete_user_handler, set_user_enabled_handler,
  new_password, reset_user_password_handler,
}

create_user-keeps :
    (now i k : ℕ) (name role salt hash : Str) (db db' : Db) (u : User)
    → create_user now name role salt hash db ≡ some (i, db')
    → get_user k db ≡ some u
    → get_user k db' ≡ some u
unfolding create_user get_user
create_user-keeps now i k name role salt hash db db' u e found =
    let new : User = record {
      id = last_id User.id db.users + 1;
      username = name;
      salt = salt;
      password_hash = hash;
      enabled = true;
      role = role;
      created_at = now;
    } in
    elim (Option-cases (find_username name db.users)) [
      | inr (other, taken) ↦ absurd (ground arith)
      | inl free ↦ ground (
        arith,
        find_by-append User.id k db.users new,
        find_by-le-last_id User.id k db.users u found,
      )
    ]

delete_user-keeps :
    (i k : ℕ) (db : Db) (u : User)
    → i ≢ k
    → get_user k db ≡ some u
    → get_user k (delete_user i db) ≡ some u
unfolding delete_user get_user
delete_user-keeps i k db u ne found =
    rw
      (
        find_by-keep User.id (λ x. not (x.id == i)) (λ j. not (j == i)) k db.users (λ x. refl),
        found,
      )
      (ground arith)

set_enabled-keeps :
    (i k : ℕ) (enabled : Bool) (db : Db) (u : User)
    → i ≢ k
    → get_user k db ≡ some u
    → get_user k (set_enabled i enabled db) ≡ some u
unfolding set_enabled get_user
set_enabled-keeps i k enabled db u ne found =
    let same = find_by-eq-some User.id k db.users u found in
    rw
      (
        find_by-update User.id (λ x. x.id == i) (λ x. record x { enabled = enabled }) k db.users
            (λ x. refl),
        found,
      )
      (ground arith)

set_password-keeps :
    (i k : ℕ) (salt hash : Str) (db : Db) (u : User)
    → get_user k db ≡ some u
    → get_user k (set_password i salt hash db)
      ≡ some (if u.id == i then record u { salt = salt; password_hash = hash } else u)
unfolding set_password get_user
set_password-keeps i k salt hash db u found =
    rw
      (
        find_by-update User.id (λ x. x.id == i)
            (λ x. record x { salt = salt; password_hash = hash }) k db.users (λ x. refl),
        found,
      )
      refl

-- The requests that write users
pub data Order : Type 0 where
  add : ℕ → Option UserCreateBody → Order
  drop_user : Option ℕ → Order
  switch : Bool → Option ℕ → Order
  set_pass : Str → Option ℕ → Option Str → Order

module _ (hash_password : Str → Str × Str) where
  -- The state after an order
  unfoldable pub obey : Option User → Order → State → State
  obey r (add now body) s = (create_user_handler hash_password r now body s).1
  obey r (drop_user i) s = (delete_user_handler hash_password r i s).1
  obey r (switch enabled i) s = (set_user_enabled_handler hash_password r enabled i s).1
  obey r (set_pass random i body) s =
      (reset_user_password_handler hash_password r random i body s).1

  -- Only an admin changes users: an order of anyone else, and one without a session, leaves everything
  -- as it was.
  pub obey_plain :
      (u : User) (order : Order) (s : State)
      → is_admin u ≡ false
      → (obey (some u) order s ≡ s) × (obey none order s ≡ s)
  unfolding obey create_user_handler delete_user_handler set_user_enabled_handler
      reset_user_password_handler
  obey_plain u (add now body) s plain = ground arith
  obey_plain u (drop_user i) s plain = ground arith
  obey_plain u (switch enabled i) s plain = ground arith
  obey_plain u (set_pass random i body) s plain = ground arith

  module _ (u : User) (random : Str) (i : ℕ) (body : Option Str) (s : State)
      (found : get_user u.id s.db ≡ some u) where
    abbrev chosen : Str
    chosen = new_password hash_password (some u) random body

    after_set_pass : State
    after_set_pass = (reset_user_password_handler hash_password (some u) random (some i) body s).1

    set_pass_kept :
        is_admin u && leb 6 (length chosen) ≡ true
        → get_user u.id after_set_pass.db
          ≡ some (
              if u.id == i
              then record u {
                salt = (hash_password chosen).1;
                password_hash = (hash_password chosen).0;
              }
              else u)
    unfolding after_set_pass reset_user_password_handler
    set_pass_kept set = elim (Option-cases body) [
      | inl missing ↦ ground (
        arith,
        set_password-keeps i u.id (hash_password chosen).1 (hash_password chosen).0 s.db u found,
      )
      | inr (p, given) ↦ ground (
        arith,
        set_password-keeps i u.id (hash_password chosen).1 (hash_password chosen).0 s.db u found,
      )
    ]

    set_pass_refused :
        is_admin u && leb 6 (length chosen) ≡ false → get_user u.id after_set_pass.db ≡ some u
    unfolding after_set_pass reset_user_password_handler
    set_pass_refused unset = ground arith

  -- The order resets the password of the user, and the row has the new password and its salt, and all else
  -- as before.
  abbrev pub IsReset : User → Order → User → Type 0
  IsReset u (set_pass random (some i) body) v =
      let password = new_password hash_password (some u) random body in
      (i ≡ u.id)
      × (v ≡ record u {
        salt = (hash_password password).1;
        password_hash = (hash_password password).0;
      })
  IsReset u _ v = ⊥

  -- No order of a user who manages users removes, disables, renames or demotes themselves: their row is
  -- afterwards as it was, unless the order resets their own password; then it has the given or random
  -- password, also where the answer is a failure, and is otherwise as it was.
  pub obey_own :
      (u : User) (order : Order) (s : State)
      → get_user u.id s.db ≡ some u
      → (v : User) × (get_user u.id (obey (some u) order s).db ≡ some v)
        × ((v ≡ u) ⊎ IsReset u order v)
  unfolding obey create_user_handler delete_user_handler set_user_enabled_handler
      reset_user_password_handler after_set_pass
  obey_own u (add now none) s found = (u, ground arith, inl refl)
  obey_own u (add now (some b)) s found =
      let (hash, salt) = hash_password b.password in
      elim (Option-cases (create_user now b.username (role_of b.role) salt hash s.db)) [
        | inl refused ↦ (u, ground arith, inl refl)
        | inr ((i, db'), made) ↦ (
          u,
          ground (
            arith,
            create_user-keeps now i u.id b.username (role_of b.role) salt hash s.db db' u made
                found,
          ),
          inl refl,
        )
      ]
  obey_own u (drop_user none) s found = (u, ground arith, inl refl)
  obey_own u (drop_user (some i)) s found =
      (u, ground (arith, delete_user-keeps i u.id s.db u), inl refl)
  obey_own u (switch enabled none) s found = (u, ground arith, inl refl)
  obey_own u (switch enabled (some i)) s found =
      (u, ground (arith, set_enabled-keeps i u.id enabled s.db u), inl refl)
  obey_own u (set_pass random none body) s found = (u, ground arith, inl refl)
  obey_own u (set_pass random (some i) body) s found =
      let password = new_password hash_password (some u) random body in
      elim (Bool-cases (is_admin u && leb 6 (length password))) [
        | inr unset ↦ (u, set_pass_refused u random i body s found unset, inl refl)
        | inl set ↦ elim (ℕ_cases i u.id) [
          | inl own ↦ (
            record u {
              salt = (hash_password password).1;
              password_hash = (hash_password password).0;
            },
            set_pass_kept u random i body s found set ∙ ground arith,
            inr (own, refl),
          )
          | inr other ↦ (u, set_pass_kept u random i body s found set ∙ ground arith, inl refl)
        ]
      ]

  -- A reset that has no body which decodes is answered with 400, although the password of the user has
  -- been set to the random one, which nobody is told.
  pub reset_without_body :
      (u v : User) (random : Str) (i : ℕ) (s : State)
      → is_admin u ≡ true
      → 6 ≤ length random
      → get_user i s.db ≡ some v
      → (let r = reset_user_password_handler hash_password (some u) random (some i) none s in
          (r.0 ≡ fail 400 "bad_request")
          × (get_user i r.1.db
              ≡ some (record v {
                salt = (hash_password random).1;
                password_hash = (hash_password random).0;
              })))
  unfolding reset_user_password_handler get_user
  reset_without_body u v random i s admin long found = (
    ground arith,
    ground (
      arith,
      set_password-keeps i i (hash_password random).1 (hash_password random).0 s.db v found,
      find_by-eq-some User.id i s.db.users v found,
    ),
  )
