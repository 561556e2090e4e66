-- ===== src/Tests/Migrations.antt =====
-- The runner of migrations at concrete inputs.
use post_lite.Base.{
  ◌==◌, if◌then◌else◌, ℕ, ◌+◌, ◌*◌, ◌%◌, ◌≡◌, refl, true, false, Option, none, some, List, [], ◌∷◌,
}
use post_lite.Store.Migrations.{Versioned, migrate_from, migrate, apply_all, HasRun, migrate-HasRun}

runner : Unit {0}
unfolding migrate migrate_from apply_all
runner = tt

-- Tables that are a number; the second migration fails on an odd one.
abbrev steps : List (ℕ → Option ℕ)
steps = (λ n. some (n + 1)) ∷ (λ n. if n % 2 == 0 then some (n * 10) else none) ∷ []

abbrev at : ℕ → ℕ → Versioned ℕ
at n v = record { tables = n; user_version = v }

migrate_tests :
    (migrate ℕ steps (at 1 0) ≡ (true, at 20 2))
    × (migrate ℕ steps (at 2 0) ≡ (false, at 3 1))
    × (migrate ℕ steps (at 20 2) ≡ (true, at 20 2))
    × (migrate ℕ steps (at 3 1) ≡ (false, at 3 1))
unfolding runner
migrate_tests = (refl, refl, refl, refl)

migrate-HasRun_example : HasRun ℕ steps 2 (migrate ℕ steps (at 3 1))
unfolding runner
migrate-HasRun_example = migrate-HasRun ℕ steps 2 (at 3 1) (
  (λ n. some (n + 1)) ∷ [],
  (λ n. if n % 2 == 0 then some (n * 10) else none) ∷ [],
  refl,
  refl,
  refl,
)
