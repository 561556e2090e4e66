-- ===== src/Executor/Resolve.antt =====
-- internal/executor/resolve.go. The vault behind `Secret` is the parameter `secret` of the section,
-- a function: what it returns for a name does not change while a request is resolved. The sets of
-- warnings and of used secrets are lists and maps in the order of their first insertion.
pub mod Tokens
pub mod Secrets
use post_lite.Base.{
  leb, ◌==◌, if◌then◌else◌, length, any, Str, codes, str_eq, has_prefix, cut_prefix, GoMap, lookup,
  insert, ℕ, zero, suc, ◌+◌, Bool, ◌&&◌, ◌||◌, Option, none, some, List, [], ◌∷◌, ◌++◌, map,
}

-- [\w.] of the pattern
abbrev pub is_name_byte : ℕ → Bool
is_name_byte c =
    (leb b'0' c && leb c b'9')
    || (leb b'A' c && leb c b'Z')
    || (leb b'a' c && leb c b'z')
    || (c == b'_')
    || (c == b'.')

-- The longest run of name bytes, and what follows it
unfoldable pub name_run : Str → Str × Str
name_run [] = ([], [])
name_run (c ∷ s) =
    let rest = name_run s in if is_name_byte c then (c ∷ rest.0, rest.1) else ([], c ∷ s)

-- `+\}\}` after the run: the run is not empty and "}}" follows
unfoldable pub closed_name : Str × Str → Option Str
closed_name ([], rest) = none
closed_name (c ∷ name, rest) = if has_prefix rest (codes "}}") then some (c ∷ name) else none

-- A match of `\{\{([\w.]+)\}\}` at the head of the text: the name in it
unfoldable pub placeholder : Str → Option Str
unfolding name_run closed_name
placeholder (c ∷ d ∷ s) = if (c == b'{') && (d == b'{') then closed_name (name_run s) else none
placeholder _ = none

pub record Resolver : Type 0 where
  pub values : GoMap Str
  pub warnings : List Str
  pub used : GoMap Str

abbrev pub new_resolver : GoMap Str → Resolver
new_resolver values = record { values = values; warnings = []; used = [] }

-- m[w] = struct{}{}
unfoldable pub add_once : Str → List Str → List Str
add_once w ws = if any (str_eq w) ws then ws else ws ++ w ∷ []

abbrev pub matched : Str → Str
matched name = codes "{{" ++ name ++ codes "}}"

abbrev pub unresolved : Str → Resolver → Str × Resolver
unresolved name r = (matched name, record r { warnings = add_once name r.warnings })

module _ (secret : Str → Option Str) where
  abbrev pub from_secret : Str → Option Str → Str → Resolver → Str × Resolver
  from_secret rest none name r = unresolved name r
  from_secret rest (some v) name r = (v, record r { used = insert rest v r.used })

  abbrev pub from_vault : Option Str → Str → Resolver → Str × Resolver
  from_vault none name r = unresolved name r
  from_vault (some rest) name r = from_secret rest (secret rest) name r

  abbrev pub from_values : Option Str → Str → Resolver → Str × Resolver
  from_values (some v) name r = (v, r)
  from_values none name r = from_vault (cut_prefix name (codes "sec.")) name r

  -- The function that ReplaceAllStringFunc calls on a match
  unfoldable pub substitute : Str → Resolver → Str × Resolver
  substitute name r = from_values (lookup name r.values) name r

  -- ReplaceAllStringFunc: `skip` bytes of a match are still to be passed over
  unfoldable pub resolve_from : ℕ → Str → Resolver → Str × Resolver
  unfolding placeholder substitute
  resolve_from skip [] r = ([], r)
  resolve_from (suc skip) (c ∷ s) r = resolve_from skip s r
  resolve_from zero (c ∷ s) r = elim (placeholder (c ∷ s)) [
    | none ↦ let (out, r') = resolve_from zero s r in (c ∷ out, r')
    | some name ↦
        let (v, r') = substitute name r in
        let (out, r'') = resolve_from (length name + 3) s r' in (v ++ out, r'')
  ]

  unfoldable pub resolve : Str → Resolver → Str × Resolver
  unfolding resolve_from
  resolve s r = resolve_from 0 s r

-- UsedSecrets
abbrev pub used_secrets : Resolver → List Str
used_secrets r = map (λ p. p.1) r.used
