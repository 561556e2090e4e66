-- ===== src/Store/Tables.antt =====
-- Laws of the table operations.
use mathlib.Core.Option
use post_lite.Base.{
  ◌==◌, if◌then◌else◌, Bool-cases, Option-cases, All, ℕ, ◌≤◌, ◌<◌, ◌≡◌, refl, inl, inr, Bool, true,
  none, some, List, [], ◌∷◌, ◌++◌, arith,
}
use post_lite.Store.{find_by, last_id, keep, update}

module _ {ℓ} {A : Type ℓ} (key : A → ℕ) where
  pub find_by-keep :
      (p : A → Bool) (q : ℕ → Bool) (i : ℕ) (xs : List A)
      → ((x : A) → p x ≡ q (key x))
      → find_by key i (keep p xs) ≡ (if q i then find_by key i xs else none)
  unfolding find_by keep
  find_by-keep p q i [] h = ground arith
  find_by-keep p q i (x ∷ xs) h = ground (arith, find_by-keep p q i xs h, h x)

  -- An update that keeps the ids
  pub find_by-update :
      (p : A → Bool) (f : A → A) (i : ℕ) (xs : List A)
      → ((x : A) → key (f x) ≡ key x)
      → find_by key i (update p f xs) ≡ Option.map (λ x. if p x then f x else x) (find_by key i xs)
  unfolding find_by update
  find_by-update p f i [] h = refl
  find_by-update p f i (x ∷ xs) h = ground (arith, find_by-update p f i xs h, h x)

  pub find_by-eq-some : (i : ℕ) (xs : List A) (x : A) → find_by key i xs ≡ some x → key x ≡ i
  unfolding find_by
  find_by-eq-some i [] x e = absurd (cc)
  find_by-eq-some i (y ∷ xs) x e = ground (arith, find_by-eq-some i xs x)

  pub find_by-le-last_id :
      (i : ℕ) (xs : List A) (x : A) → find_by key i xs ≡ some x → i ≤ last_id key xs
  unfolding find_by last_id
  find_by-le-last_id i [] x e = absurd (cc)
  find_by-le-last_id i (y ∷ xs) x e = ground (arith, find_by-le-last_id i xs x)

  pub find_by_fresh : (i : ℕ) (xs : List A) → last_id key xs < i → find_by key i xs ≡ none
  find_by_fresh i xs h = elim (Option-cases (find_by key i xs)) [
    | inl missed ↦ missed
    | inr (x, found) ↦ absurd (omega (arith, find_by-le-last_id i xs x found))
  ]

  -- A new row is found under its own id, and hides no other row.
  pub find_by-append :
      (i : ℕ) (xs : List A) (x : A)
      → last_id key xs < key x
      → find_by key i (xs ++ x ∷ []) ≡ (if key x == i then some x else find_by key i xs)
  unfolding find_by last_id
  find_by-append i [] x h = refl
  find_by-append i (y ∷ xs) x h = ground (arith, find_by-append i xs x)

module _ {ℓ κ} {A : Type ℓ} (P : A → Type κ) where
  -- What holds of every row that is kept
  pub All-keep : (p : A → Bool) (xs : List A) → ((x : A) → p x ≡ true → P x) → All P (keep p xs)
  unfolding keep
  All-keep p [] h = tt
  All-keep p (x ∷ xs) h = elim (Bool-cases (p x)) [
    | inl kept ↦ rw kept (h x kept, All-keep p xs h)
    | inr gone ↦ rw gone (All-keep p xs h)
  ]
