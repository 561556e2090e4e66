-- ===== src/Store/Lists.antt =====
-- What the lists of the repositories hold.
use mathlib.Core.List.{reverse-cons}
use post_lite.Base.{
  leb, ◌==◌, if◌then◌else◌, Bool-cases, Option-cases, length, take, drop, all, All, length-drop,
  length-take, All-concat, max, min, ℕ, zero, suc, ◌-◌, ◌≤◌, ◌<◌, ◌≡◌, refl, sym, ap, subst, ◌≢◌,
  inl, inr, Bool, true, false, not, ◌&&◌, ◌||◌, Option, none, some, List, [], ◌∷◌, ◌++◌, reverse,
  arith,
}
use post_lite.Store.{User, HistoryItem, Db, keep, is_admin}
use post_lite.Store.Access.{can_view_collection, can_view_environment}
use post_lite.Store.Collections.{list_collections}
use post_lite.Store.Environments.{is_scope, list_environments}
use post_lite.Store.History.{
  is_for_request, list_history, find_history, get_history, delete_history, purge_history,
}
use post_lite.Store.Tables.{All-keep}

keep_ext {ℓ} :
    {A : Type ℓ} (p q : A → Bool) (xs : List A) → All (λ x. p x ≡ q x) xs → keep p xs ≡ keep q xs
unfolding keep
keep_ext p q [] h = refl
keep_ext p q (x ∷ xs) h = rw (h.0, keep_ext p q xs h.1)

keep_all {ℓ} : {A : Type ℓ} (p : A → Bool) (xs : List A) → ((x : A) → p x ≡ true) → keep p xs ≡ xs
unfolding keep
keep_all p [] h = refl
keep_all p (x ∷ xs) h = rw (h x, keep_all p xs h)

All-pointwise {ℓ κ} : {A : Type ℓ} (P : A → Type κ) (xs : List A) → ((x : A) → P x) → All P xs
All-pointwise P [] h = tt
All-pointwise P (x ∷ xs) h = (h x, All-pointwise P xs h)

All-map {ℓ κ μ} :
    {A : Type ℓ} (P : A → Type κ) (Q : A → Type μ) (xs : List A)
    → ((x : A) → P x → Q x)
    → All P xs
    → All Q xs
All-map P Q [] f h = tt
All-map P Q (x ∷ xs) f h = (f x h.0, All-map P Q xs f h.1)

-- A list that is cut only for those who are not admins
keep_for {ℓ} :
    {A : Type ℓ} (admin : Bool) (p q : A → Bool) (xs : List A)
    → ((x : A) → admin ≡ true → q x ≡ true)
    → (admin ≡ false → All (λ x. p x ≡ q x) xs)
    → (if admin then xs else keep p xs) ≡ keep q xs
keep_for true p q xs h k = sym (keep_all q xs (λ x. h x refl))
keep_for false p q xs h k = keep_ext p q xs (k refl)

collections_view :
    (u : User) (db : Db) → list_collections u db ≡ keep (can_view_collection u) db.collections
unfolding list_collections can_view_collection
collections_view u db =
    keep_for (is_admin u) _ _ db.collections (λ c admin. ground arith)
      (λ plain. All-pointwise _ db.collections (λ c. ground arith))

environments_view :
    (u : User) (db : Db)
    → All (λ e. is_scope e.scope ≡ true) db.environments
    → list_environments u db ≡ keep (can_view_environment u) db.environments
unfolding list_environments can_view_environment
environments_view u db h =
    keep_for (is_admin u) _ _ db.environments (λ e admin. ground arith)
      (λ plain. All-map _ _ db.environments (λ e s. ground arith) h)

-- The lists that a user is given hold exactly the collections and the environments that CanView lets
-- this user view, in the order of the tables; of the environments this rests on the constraint of
-- the table that a scope is "global" or "user".
pub lists_view :
    (u : User) (db : Db)
    → All (λ e. is_scope e.scope ≡ true) db.environments
    → (list_collections u db ≡ keep (can_view_collection u) db.collections)
      × (list_environments u db ≡ keep (can_view_environment u) db.environments)
lists_view u db h = (collections_view u db, environments_view u db h)

All-take {ℓ κ} : {A : Type ℓ} (P : A → Type κ) (n : ℕ) (xs : List A) → All P xs → All P (take n xs)
All-take P zero xs h = tt
All-take P (suc n) [] h = tt
All-take P (suc n) (x ∷ xs) h = (h.0, All-take P n xs h.1)

All-reverse {ℓ κ} : {A : Type ℓ} (P : A → Type κ) (xs : List A) → All P xs → All P (reverse xs)
All-reverse P [] h = tt
All-reverse P (x ∷ xs) h =
    subst (All P) (sym (reverse-cons x xs)) (All-concat P x (reverse xs) h.0 (All-reverse P xs h.1))

find_history-owner :
    (i user_id : ℕ) (hs : List HistoryItem) (h : HistoryItem)
    → find_history i user_id hs ≡ some h
    → (h.id ≡ i) × (h.user_id ≡ user_id)
unfolding find_history
find_history-owner i user_id [] h e = absurd (cc)
find_history-owner i user_id (g ∷ hs) h e = ground (arith, find_history-owner i user_id hs h)

find_history-keep_other :
    (i uid j other : ℕ) (hs : List HistoryItem)
    → other ≢ uid
    → find_history j other (keep (λ h. not ((h.id == i) && (h.user_id == uid))) hs)
      ≡ find_history j other hs
unfolding find_history keep
find_history-keep_other i uid j other [] h = refl
find_history-keep_other i uid j other (g ∷ hs) h =
    ground (arith, find_history-keep_other i uid j other hs h)

-- An item that was found has the id and the user that it was asked for.
abbrev pub IsItem : ℕ → ℕ → Option HistoryItem → Type 0
IsItem i uid none = Unit
IsItem i uid (some h) = (h.id ≡ i) × (h.user_id ≡ uid)

find_history-IsItem : (i uid : ℕ) (hs : List HistoryItem) → IsItem i uid (find_history i uid hs)
find_history-IsItem i uid hs = elim (Option-cases (find_history i uid hs)) [
  | inl missing ↦ rw missing tt
  | inr (h, found) ↦ rw found (find_history-owner i uid hs h found)
]

-- The history of a user is their own, whatever is stored: the list is at most as long as its limit and
-- holds only rows of this user; and a single item that is found has the id that was asked for, and is
-- one of this user.
pub history_isolation :
    (uid i limit : ℕ) (request_id : Option ℕ) (db : Db)
    → All (λ x. x.user_id ≡ uid) (list_history uid request_id limit db)
      × (length (list_history uid request_id limit db) ≤ limit)
      × IsItem i uid (get_history i uid db)
unfolding list_history get_history
history_isolation uid i limit request_id db = (
  All-take _ limit _ (All-reverse _ _ (All-keep _ _ db.history (λ x own. ground arith))),
  omega (
    arith,
    length-take limit
        (reverse (keep (λ x. (x.user_id == uid) && is_for_request request_id x) db.history)),
  ),
  find_history-IsItem i uid db.history,
)

-- What one user deletes from the history changes nothing that another user can get from it.
pub delete_history_isolated :
    (uid other i j : ℕ) (db : Db)
    → other ≢ uid
    → get_history j other (delete_history i uid db) ≡ get_history j other db
unfolding get_history delete_history
delete_history_isolated uid other i j db ne = find_history-keep_other i uid j other db.history ne

drop_suffix {ℓ} : {A : Type ℓ} (n : ℕ) (xs : List A) → xs ≡ take n xs ++ drop n xs
drop_suffix zero xs = refl
drop_suffix (suc n) [] = refl
drop_suffix (suc n) (x ∷ xs) = ap (λ r. x ∷ r) (drop_suffix n xs)

large : (m n : ℕ) → (m == 0) || leb n m ≡ false → m < n
large m n h = ground arith

-- Purging keeps the newest rows: what is left is an end of the table, of `max` rows if there were as
-- many and of all rows otherwise; and nothing is purged where `max` is 0.
pub purge_history_lem :
    (max : ℕ) (db : Db)
    → (old : List HistoryItem) × (db.history ≡ old ++ (purge_history max db).history)
      × (length (purge_history max db).history
          ≡ (if max == 0 then length db.history else min max (length db.history)))
unfolding purge_history
purge_history_lem max db = elim (Bool-cases ((max == 0) || leb (length db.history) max)) [
  | inl all ↦ ([], rw all, rw all (ground arith))
  | inr some_old ↦ (
    take (length db.history - max) db.history,
    rw some_old (drop_suffix (length db.history - max) db.history),
    rw some_old (
        ground (
          arith,
          length-drop (length db.history - max) db.history,
          large max (length db.history) some_old,
        )),
  )
]
