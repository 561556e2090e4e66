-- ===== src/Store/Access.antt =====
-- The access rules of internal/repository: store.go, and CanView and CanManage of collections.go and
-- environments.go.
use post_lite.Base.{
  ◌||◌, ◌==◌, if◌then◌else◌, codes, str_eq, ◌≡◌, ◌↔◌, Bool, true, false, not, ◌||◌, none, some,
  arith,
}
use post_lite.Store.{User, Collection, Request, Environment, is_owner, is_admin}

module _ (u : User) where
  unfoldable pub can_view_collection : Collection → Bool
  can_view_collection c =
      if is_admin u then true else elim c.owner_id [ none ↦ true | some o ↦ o == u.id ]

  unfoldable pub can_manage_collection : Collection → Bool
  can_manage_collection c = if is_admin u then true else is_owner c.owner_id u.id

  unfoldable pub can_use_request : Request → Collection → Bool
  unfolding can_view_collection
  can_use_request req col =
      if not (can_view_collection col)
      then false
      else if is_admin u
      then true
      else elim req.owner_id [ none ↦ true | some o ↦ o == u.id ]

  unfoldable pub can_manage_request : Request → Collection → Bool
  unfolding can_manage_collection
  can_manage_request req col =
      if is_admin u
      then true
      else if not (can_manage_collection col)
      then false
      else is_owner req.owner_id u.id

  unfoldable pub can_view_environment : Environment → Bool
  can_view_environment e =
      if is_admin u
      then true
      else if str_eq e.scope (codes "global")
      then true
      else is_owner e.owner_id u.id

  unfoldable pub can_manage_environment : Environment → Bool
  can_manage_environment e =
      if is_admin u
      then true
      else if str_eq e.scope (codes "global")
      then false
      else is_owner e.owner_id u.id

-- What may be managed may be used and viewed.
pub manage_implies_view :
    (u : User) (c : Collection) (r : Request) (e : Environment)
    → (not (can_manage_collection u c) || can_view_collection u c ≡ true)
      × (not (can_manage_request u r c) || can_use_request u r c ≡ true)
      × (not (can_manage_environment u e) || can_view_environment u e ≡ true)
unfolding can_manage_request can_use_request can_manage_environment can_view_environment
manage_implies_view u c r e = (ground arith, ground arith, ground arith)

-- A user who is not an admin manages a request exactly if both it and its collection are theirs, and
-- so never one that an admin created for all.
pub can_manage_request_iff :
    (u : User) (r : Request) (c : Collection)
    → is_admin u ≡ false
    → (can_manage_request u r c ≡ true) ↔ ((r.owner_id ≡ some u.id) × (c.owner_id ≡ some u.id))
unfolding can_manage_request
can_manage_request_iff u r c plain = ground arith
