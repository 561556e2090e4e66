-- ===== src/Executor/Resolve/Tokens.antt =====
-- Resolution against an independent reading of the text: literal bytes and placeholders.
use post_lite.Base.{
  length, All, length-append, Str, codes, ℕ, ◌+◌, ◌≡◌, refl, ◌∙◌, ◌≢◌, true, Option, none, some,
  List, [], ◌∷◌, ◌++◌, append_assoc, arith,
}
use post_lite.Executor.Resolve.{
  is_name_byte, name_run, closed_name, placeholder, Resolver, matched, substitute, resolve_from,
  resolve,
}

pub data Token : Type 0 where
  literal : ℕ → Token
  variable : Str → Token

-- A literal is no opening brace; a variable has a name of the placeholder's bytes.
abbrev pub IsPlain : Token → Type 0
IsPlain (literal c) = c ≢ b'{'
IsPlain (variable name) = (name ≢ []) × All (λ c. is_name_byte c ≡ true) name

unfoldable pub print : List Token → Str
print [] = []
print (literal c ∷ ts) = c ∷ print ts
print (variable name ∷ ts) = matched name ++ print ts

-- What resolution should do: each placeholder in turn, and nothing else.
unfoldable pub expand : (Str → Option Str) → List Token → Resolver → Str × Resolver
expand secret [] r = ([], r)
expand secret (literal c ∷ ts) r = let (out, r') = expand secret ts r in (c ∷ out, r')
expand secret (variable name ∷ ts) r =
    let (v, r') = substitute secret name r in
    let (out, r'') = expand secret ts r' in (v ++ out, r'')

name_run-append :
    (name rest : Str)
    → All (λ c. is_name_byte c ≡ true) name
    → name_run (name ++ b'}' ∷ rest) ≡ (name, b'}' ∷ rest)
unfolding name_run
name_run-append [] rest h = refl
name_run-append (c ∷ name) rest h = rw (h.0, name_run-append name rest h.1)

placeholder-matched :
    (name rest : Str) → IsPlain (variable name) → placeholder (matched name ++ rest) ≡ some name
unfolding placeholder closed_name
placeholder-matched [] rest h = absurd (h.0 refl)
placeholder-matched (c ∷ name) rest h =
    rw (append_assoc, name_run-append (c ∷ name) (b'}' ∷ rest) h.1)

placeholder_literal : (c : ℕ) (s : Str) → c ≢ b'{' → placeholder (c ∷ s) ≡ none
unfolding placeholder
placeholder_literal c [] h = refl
placeholder_literal c (d ∷ s) h = ground arith

resolve_from_skip :
    (secret : Str → Option Str) (p s : Str) (r : Resolver)
    → resolve_from secret (length p) (p ++ s) r ≡ resolve_from secret 0 s r
unfolding resolve_from
resolve_from_skip secret [] s r = refl
resolve_from_skip secret (c ∷ p) s r = resolve_from_skip secret p s r

-- What stands behind the first brace of a placeholder
abbrev behind : Str → Str
behind name = b'{' ∷ name ++ codes "}}"

length-behind : (name : Str) → length name + 3 ≡ length (behind name)
length-behind name = omega (arith, length-append name (codes "}}"))

resolve_from-matched :
    (secret : Str → Option Str) (name rest : Str) (r : Resolver)
    → IsPlain (variable name)
    → resolve_from secret 0 (matched name ++ rest) r ≡ (
        let (v, r') = substitute secret name r in
        let (out, r'') = resolve_from secret 0 rest r' in (v ++ out, r''))
unfolding resolve_from
resolve_from-matched secret name rest r h = rw (
  placeholder-matched name rest h,
  resolve_from,
  length-behind,
  resolve_from_skip secret (behind name) rest,
)

resolve_from_literal :
    (secret : Str → Option Str) (c : ℕ) (s : Str) (r : Resolver)
    → c ≢ b'{'
    → resolve_from secret 0 (c ∷ s) r ≡ (let (out, r') = resolve_from secret 0 s r in (c ∷ out, r'))
unfolding resolve_from
resolve_from_literal secret c s r h = rw (placeholder_literal c s h, resolve_from)

resolve-print_from :
    (secret : Str → Option Str) (ts : List Token) (r : Resolver)
    → All IsPlain ts
    → resolve_from secret 0 (print ts) r ≡ expand secret ts r
unfolding print expand
resolve-print_from secret [] r h = unfold resolve_from in refl
resolve-print_from secret (literal c ∷ ts) r h =
    resolve_from_literal secret c (print ts) r h.0 ∙ rw (resolve-print_from secret ts r h.1)
resolve-print_from secret (variable name ∷ ts) r h =
    resolve_from-matched secret name (print ts) r h.0
    ∙ (rw (resolve-print_from secret ts (substitute secret name r).1 h.1))

-- On a text that is made of literal bytes other than the opening brace and of placeholders,
-- resolution replaces each placeholder in turn, keeps every literal, and does not look into
-- what it has put in.
pub resolve-print :
    (secret : Str → Option Str) (ts : List Token) (r : Resolver)
    → All IsPlain ts
    → resolve secret (print ts) r ≡ expand secret ts r
unfolding resolve
resolve-print = resolve-print_from
