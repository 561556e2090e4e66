-- ===== src/Api/Execute/Exposed.antt =====
-- What naming an environment in a request brings into what is sent.
use post_lite.Base.{
  Bool-cases, All, Str, codes, str_eq, lookup, ◌≡◌, refl, sym, ap, ◌∙◌, ◌≢◌, inl, inr, false,
  Option, none, some, List, [], ◌∷◌, ◌++◌, map, append-nil, arith,
}
use post_lite.Store.{User, Environment}
use post_lite.Store.Access.{can_view_environment}
use post_lite.Store.Environments.{get_environment}
use post_lite.Executor.Resolve.{Resolver, new_resolver, matched, substitute, resolve}
use post_lite.Executor.Resolve.Tokens.{
  Token, literal, variable, IsPlain, print, expand, resolve-print,
}
use post_lite.Api.{State, fail}
use post_lite.Api.Environments.{ActivateBody, get_environment_handler}
use post_lite.Api.Execute.{AdHoc, ExecEnv, request_values}
use post_lite.Api.Execute.Values.{last_value, lookup-merged}
use post_lite.Api.Execute.Content.{resolve_content}

-- A text before one placeholder
abbrev tokens : Str → Str → List Token
tokens p k = map literal p ++ variable k ∷ []

module _ (secret : Str → Option Str) (k : Str) where
  print-tokens : (p : Str) → print (tokens p k) ≡ p ++ matched k
  unfolding print
  print-tokens [] = append-nil (matched k)
  print-tokens (c ∷ p) = ap (λ s. c ∷ s) (print-tokens p)

  expand-tokens :
      (p v : Str) (r : Resolver)
      → lookup k r.values ≡ some v
      → (expand secret (tokens p k) r).0 ≡ p ++ v
  unfolding expand substitute
  expand-tokens [] v r has = rw has (append-nil v)
  expand-tokens (c ∷ p) v r has = ap (λ s. c ∷ s) (expand-tokens p v r has)

  tokens-IsPlain :
      (p : Str) → All (λ c. c ≢ b'{') p → IsPlain (variable k) → All IsPlain (tokens p k)
  tokens-IsPlain [] plain name = (name, tt)
  tokens-IsPlain (c ∷ p) plain name = (plain.0, tokens-IsPlain p plain.1 name)

  resolve-matched :
      (p v : Str) (r : Resolver)
      → All (λ c. c ≢ b'{') p
      → IsPlain (variable k)
      → lookup k r.values ≡ some v
      → (resolve secret (p ++ matched k) r).0 ≡ p ++ v
  resolve-matched p v r plain name has =
      ap (λ s. (resolve secret s r).0) (sym (print-tokens p))
      ∙ ap (λ m. m.0) (resolve-print secret (tokens p k) r (tokens-IsPlain p plain name))
      ∙ expand-tokens p v r has

resolve_content-url :
    (secret : Str → Option Str) (a : AdHoc) (r : Resolver)
    → (resolve_content secret a r).0.url ≡ (resolve secret a.url r).0
unfolding resolve_content
resolve_content-url secret a r = elim (Bool-cases (str_eq a.body_type (codes "none"))) [
  | inl blank ↦ rw blank refl
  | inr full ↦ rw full refl
]

-- A user who may not view an environment, and whom its own page answers 403, names it in a request that
-- sets no variables, and whose URL is a text p without an opening brace before a placeholder for one of
-- the environment's variables: what placeholders are looked up in has the value of the variable, and the
-- URL is resolved to p and this value.
pub request_values_expose :
    (env : ExecEnv) (u : User) (e : Environment) (s : State) (k v p : Str)
    (secret : Str → Option Str) (a : AdHoc)
    → get_environment e.id s.db ≡ some e
    → can_view_environment u e ≡ false
    → last_value k (env.parse_vars e.vars) ≡ some v
    → IsPlain (variable k)
    → All (λ c. c ≢ b'{') p
    → a.url ≡ p ++ matched k
    → let named : ActivateBody = record { global_env_id = none; user_env_id = some e.id } in
      let values = request_values env u (some named) [] s.db in
      (get_environment_handler env.parse_vars (λ m. []) (some u) (some e.id) s
        ≡ (fail 403 "forbidden", s))
      × (lookup k values ≡ some v)
      × ((resolve_content secret a (new_resolver values)).0.url ≡ p ++ v)
unfolding get_environment_handler last_value
request_values_expose env u e s k v p secret a there barred has name plain url =
    let named : ActivateBody = record { global_env_id = none; user_env_id = some e.id } in
    let values = request_values env u (some named) [] s.db in
    let found : lookup k values ≡ some v =
      lookup-merged env u (some named) [] s.db k ∙ rw (there, has) refl in
    (
      ground arith,
      found,
      resolve_content-url secret a (new_resolver values)
          ∙ ap (λ t. (resolve secret t (new_resolver values)).0) url
          ∙ resolve-matched secret k p v (new_resolver values) plain name found,
    )
