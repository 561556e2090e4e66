-- ===== src/Store/Migrations.antt =====
-- internal/db/migrations.go: Migrate. A migration is what its text does to the tables, none where it
-- fails, and one transaction with the number of the version. The database is the tables `T` and
-- PRAGMA user_version.
use post_lite.Base.{
  ◌==◌, if◌then◌else◌, Option-cases, length, drop, length-append, drop_append_length, ℕ, ◌+◌, ◌≡◌,
  refl, ap, ◌∙◌, subst, inl, inr, Bool, true, false, Option, none, some, List, [], ◌∷◌, ◌++◌,
  append_assoc, arith,
}

module _ {ℓ} (T : Type ℓ) where
  pub record Versioned : Type ℓ where
    pub tables : T
    pub user_version : ℕ

  abbrev pub committed : ℕ → Option T → Versioned → Bool × Versioned
  committed i none d = (false, d)
  committed i (some t) d = (true, record { tables = t; user_version = i })

  -- The loop from migration `i` on: whether all have succeeded, and the database
  unfoldable pub migrate_from : ℕ → List (T → Option T) → Versioned → Bool × Versioned
  migrate_from i [] d = (true, d)
  migrate_from i (m ∷ ms) d =
      let (done, d') = committed i (m d.tables) d in
      let rest = migrate_from (i + 1) ms d' in if done then rest else (false, d')

  unfoldable pub migrate : List (T → Option T) → Versioned → Bool × Versioned
  unfolding migrate_from
  migrate migrations d = migrate_from (d.user_version + 1) (drop d.user_version migrations) d

  abbrev pub then_apply : (T → Option T) → Option T → Option T
  then_apply m none = none
  then_apply m (some t) = m t

  -- What migrations make of tables, one after the other
  unfoldable pub apply_all : List (T → Option T) → Option T → Option T
  apply_all [] t = t
  apply_all (m ∷ ms) t = apply_all ms (then_apply m t)

  apply_all-append :
      (pre : List (T → Option T)) (m : T → Option T) (t : Option T)
      → apply_all (pre ++ m ∷ []) t ≡ then_apply m (apply_all pre t)
  unfolding apply_all
  apply_all-append [] m t = refl
  apply_all-append (n ∷ pre) m t = apply_all-append pre m (then_apply n t)

  -- The tables are those that the first migrations make of `start`, as many as the version says.
  abbrev pub IsAt : List (T → Option T) → T → Versioned → Type ℓ
  IsAt ms start d =
      (pre : List (T → Option T)) × (rest : List (T → Option T)) × (pre ++ rest ≡ ms)
      × (length pre ≡ d.user_version)
      × (apply_all pre (some start) ≡ some d.tables)

  -- Where a run has ended, and what it has answered
  abbrev pub HasRun : List (T → Option T) → T → Bool × Versioned → Type ℓ
  HasRun ms start (done, d) = IsAt ms start d × (done ≡ (d.user_version == length ms))

  migrate_from-HasRun :
      (start : T) (pre rest : List (T → Option T)) (d : Versioned)
      → length pre ≡ d.user_version
      → apply_all pre (some start) ≡ some d.tables
      → HasRun (pre ++ rest) start (migrate_from (d.user_version + 1) rest d)
  unfolding migrate_from
  migrate_from-HasRun start pre [] d sized made =
      ((pre, [], refl, sized, made), ground (arith, length-append pre []))
  migrate_from-HasRun start pre (m ∷ rest) d sized made = elim (Option-cases (m d.tables)) [
    | inl stopped ↦
        rw stopped
          ((pre, m ∷ rest, refl, sized, made), ground (arith, length-append pre (m ∷ rest)))
    | inr (t, done) ↦
        let longer : length (pre ++ m ∷ []) ≡ d.user_version + 1 =
          omega (arith, length-append pre (m ∷ [])) in
        let made' : apply_all (pre ++ m ∷ []) (some start) ≡ some t =
          apply_all-append pre m (some start) ∙ ap (then_apply m) made ∙ done in
        let next : Versioned = record { tables = t; user_version = d.user_version + 1 } in
        let later = migrate_from-HasRun start (pre ++ m ∷ []) rest next longer made' in
        rw done (
          subst (λ ms. HasRun ms start (migrate_from (next.user_version + 1) rest next))
            (append_assoc pre (m ∷ []) rest) later)
  ]

  -- However often Migrate has run before, and wherever it was stopped, the tables after a run are those
  -- that the first migrations make of the tables of the start, each applied once and in order, as many as
  -- the stored version says; and the run has succeeded exactly if these are all.
  pub migrate-HasRun :
      (ms : List (T → Option T)) (start : T) (d : Versioned)
      → IsAt ms start d
      → HasRun ms start (migrate ms d)
  unfolding migrate
  migrate-HasRun ms start d (pre, rest, parts, sized, made) =
      let dropped : drop d.user_version ms ≡ rest =
        rw (← sized, ← parts) (drop_append_length pre rest) in
      rw dropped (
        subst (λ all. HasRun all start (migrate_from (d.user_version + 1) rest d)) parts
          (migrate_from-HasRun start pre rest d sized made))
