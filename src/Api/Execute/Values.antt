-- ===== src/Api/Execute/Values.antt =====
-- Which value a placeholder gets.
use post_lite.Store.Environments.{get_environment}
use post_lite.Api.Environments.{ActivateBody, active_env_ids}
use post_lite.Store.{User, Environment, Db}
use post_lite.Base.{
  if◌then◌else◌, Option-cases, Str, str_eq, GoMap, lookup, insert, lookup-insert, ℕ, ◌≡◌, refl, ap,
  ◌∙◌, ap₂, inl, inr, Bool, Option, none, some, [], ◌∷◌, arith,
}
use post_lite.Api.Execute.{ExecEnv, insert_all, chosen, override_ids, vars_of_id, request_values}

-- The first that is there
abbrev pub or_from : Option Str → Option Str → Option Str
or_from none o = o
or_from (some v) o = some v

-- The last entry of the name
unfoldable pub last_value : Str → GoMap Str → Option Str
last_value k [] = none
last_value k ((j, v) ∷ m) = or_from (last_value k m) (if str_eq j k then some v else none)

or_from_absorbs :
    (a m : Option Str) (b : Bool) (v : Str)
    → or_from a (if b then some v else m) ≡ or_from (or_from a (if b then some v else none)) m
or_from_absorbs a m b v = ground arith

-- A map that others are written into: the last entry of a name wins.
lookup-insert_all :
    (k : Str) (new m : GoMap Str)
    → lookup k (insert_all new m) ≡ or_from (last_value k new) (lookup k m)
unfolding insert_all last_value
lookup-insert_all k [] m = refl
lookup-insert_all k ((j, v) ∷ new) m =
    lookup-insert_all k new (insert j v m)
    ∙ ap (or_from (last_value k new)) (lookup-insert j k v m)
    ∙ or_from_absorbs (last_value k new) (lookup k m) (str_eq j k) v

-- The environment that the request names, else the active one
abbrev pub named_or : Option ℕ → Option ℕ → Option ℕ
named_or none active = active
named_or (some i) active = some i

chosen-named : (env : ExecEnv) (o active : Option ℕ) → chosen env o active ≡ named_or o active
chosen-named env none active = refl
chosen-named env (some i) active = refl

or_from-none : (o : Option Str) → or_from o none ≡ o
or_from-none none = refl
or_from-none (some v) = refl

lookup-nil : (k : Str) (m : GoMap Str) → m ≡ [] → lookup k m ≡ none
unfolding lookup
lookup-nil k m empty = rw empty

pub lookup-merged :
    (env : ExecEnv) (u : User) (active : Option ActivateBody) (vars : GoMap Str) (db : Db) (k : Str)
    → let ids = override_ids env active (active_env_ids u db) in
      lookup k (request_values env u active vars db)
      ≡ or_from (last_value k vars) (
          or_from (last_value k (vars_of_id env ids.1 db)) (last_value k (vars_of_id env ids.0 db)))
unfolding request_values
lookup-merged env u active vars db k =
    let ids = override_ids env active (active_env_ids u db) in
    let g = vars_of_id env ids.0 db in
    let i = vars_of_id env ids.1 db in
    rw
      (
        lookup-insert_all k vars (insert_all i (insert_all g [])),
        lookup-insert_all k i (insert_all g []),
        lookup-insert_all k g [],
        lookup-nil k [] refl,
        or_from-none (last_value k g),
      )
      refl

abbrev pub named_global : Option ActivateBody → Option ℕ
named_global none = none
named_global (some a) = a.global_env_id

abbrev pub named_own : Option ActivateBody → Option ℕ
named_own none = none
named_own (some a) = a.user_env_id

module _ (env : ExecEnv) (k : Str) where
  abbrev pub value_of : Option Environment → Option Str
  value_of none = none
  value_of (some e) = last_value k (env.parse_vars e.vars)

  -- The value that an environment gives the name; none where there is no such environment
  abbrev pub value_in : Option ℕ → Db → Option Str
  value_in none db = none
  value_in (some i) db = value_of (get_environment i db)

  last_value-vars_of_id :
      (o : Option ℕ) (db : Db) → last_value k (vars_of_id env o db) ≡ value_in o db
  unfolding last_value
  last_value-vars_of_id none db = refl
  last_value-vars_of_id (some i) db = elim (Option-cases (get_environment i db)) [
    | inl missing ↦ rw missing refl
    | inr (e, found) ↦ rw found refl
  ]

override_ids-named :
    (env : ExecEnv) (active : Option ActivateBody) (ids : Option ℕ × Option ℕ)
    → override_ids env active ids
      ≡ (named_or (named_global active) ids.0, named_or (named_own active) ids.1)
override_ids-named env none (g, i) = refl
override_ids-named env (some a) (g, i) =
    ap₂ (λ x y. (x, y)) (chosen-named env a.global_env_id g) (chosen-named env a.user_env_id i)

-- A name has the value that the variables of the request give it, else the one of the user's
-- environment, else the one of the global environment. Each of these environments is the one that the
-- request names, else the one that is active.
pub lookup-request_values :
    (env : ExecEnv) (u : User) (active : Option ActivateBody) (vars : GoMap Str) (db : Db) (k : Str)
    → let ids = active_env_ids u db in
      lookup k (request_values env u active vars db)
      ≡ or_from (last_value k vars) (
          or_from
            (value_in env k (named_or (named_own active) ids.1) db)
            (value_in env k (named_or (named_global active) ids.0) db))
lookup-request_values env u active vars db k =
    let ids = active_env_ids u db in
    let own = named_or (named_own active) ids.1 in
    let global = named_or (named_global active) ids.0 in
    lookup-merged env u active vars db k
    ∙ ap
        (λ e.
          or_from (last_value k vars)
            (or_from (last_value k (vars_of_id env e.1 db)) (last_value k (vars_of_id env e.0 db))))
        (override_ids-named env active ids)
    ∙ ap₂ (λ x y. or_from (last_value k vars) (or_from x y)) (last_value-vars_of_id env k own db)
        (last_value-vars_of_id env k global db)
