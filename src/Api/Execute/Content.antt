-- ===== src/Api/Execute/Content.antt =====
-- internal/httpapi/execute.go: the resolution of the text fields. Within one request the clock of
-- the vault stands still, so that looking a secret up again changes nothing.
use post_lite.Base.{if◌then◌else◌, Str, codes, str_eq, GoMap, ℕ, Option, List, [], ◌∷◌, map}
use post_lite.Crypto.Vault.{Aead}
use post_lite.Executor.Resolve.{Resolver, new_resolver, resolve}
use post_lite.Api.{State, ret, M}
use post_lite.Api.Secrets.{secret_of}
use post_lite.Api.Execute.{AdHoc, ExecEnv}

-- The secrets of one resolution, by what a lookup gives
module _ (secret : Str → Option Str) where
  -- for k, v := range headers
  unfoldable pub resolve_values : GoMap Str → Resolver → GoMap Str × Resolver
  resolve_values [] r = ([], r)
  resolve_values ((k, v) ∷ m) r =
      let (v', r') = resolve secret v r in
      let (m', r'') = resolve_values m r' in ((k, v') ∷ m', r'')

  unfoldable pub resolve_pairs : List (Str × Str) → Resolver → List (Str × Str) × Resolver
  resolve_pairs [] r = ([], r)
  resolve_pairs ((k, v) ∷ m) r =
      let (k', r₁) = resolve secret k r in
      let (v', r₂) = resolve secret v r₁ in let (m', r₃) = resolve_pairs m r₂ in ((k', v') ∷ m', r₃)

  -- The body and the variables, unless the body is none
  abbrev pub resolve_body : AdHoc → Resolver → AdHoc × Resolver
  resolve_body a r =
      let (body, r₁) = resolve secret a.body r in
      let (variables, r₂) = resolve secret a.variables r₁ in
      if str_eq a.body_type (codes "none")
      then (a, r)
      else (record a { body = body; variables = variables }, r₂)

  unfoldable pub resolve_content : AdHoc → Resolver → AdHoc × Resolver
  unfolding resolve_values resolve_pairs
  resolve_content a r =
      let (url, r₁) = resolve secret a.url r in
      let (headers, r₂) = resolve_values a.headers r₁ in
      let (query, r₃) = resolve_pairs a.query r₂ in
      resolve_body (record a { url = url; headers = headers; query = query }) r₃

-- What each lookup of a used secret does to the cache
unfoldable pub look_up_all : Aead → ℕ → List Str → State → State
look_up_all a clock [] s = s
look_up_all a clock (name ∷ names) s = look_up_all a clock names (secret_of a clock name s).1

pub record Resolution : Type 0 where
  pub content : AdHoc
  pub resolver : Resolver

module _ (env : ExecEnv) where
  open env use {aead}

  abbrev pub resolved : ℕ → AdHoc → GoMap Str → M Resolution
  resolved clock a values s =
      let (a', r) =
        resolve_content (λ name. (secret_of aead clock name s).0) a (new_resolver values) in
      (
        ret (record { content = a'; resolver = r }),
        look_up_all aead clock (map (λ p. p.0) r.used) s,
      )
