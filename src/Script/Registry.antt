-- ===== src/Script/Registry.antt =====
-- internal/script/registry.go: the modules that a script may require. A nil registry is not modelled.
use post_lite.Base.{
  ◌==◌, if◌then◌else◌, take, Str, codes, str_eq, cut_prefix, to_lower, trim_space, sort_strings,
  GoMap, lookup, insert, lookup-insert, ℕ, ◌+◌, ◌≡◌, Option, none, some, List, [], ◌∷◌, map, arith,
}

-- strings.LastIndex of one byte
unfoldable pub last_index : ℕ → Str → Option ℕ
last_index c [] = none
last_index c (d ∷ s) = elim (last_index c s) [
  | some i ↦ some (i + 1)
  | none ↦ if d == c then some 0 else none
]

abbrev pub without_npm : Str → Str
without_npm n = elim (cut_prefix n (codes "npm:")) [ none ↦ n | some rest ↦ rest ]

abbrev pub before_version : Str → Option ℕ → Str
before_version n none = n
before_version n (some i) = if i == 0 then n else take i n

-- normalizeModuleID
unfoldable pub normalize_module_id : Str → Str
unfolding last_index
normalize_module_id name =
    let n = without_npm (trim_space name) in to_lower (before_version n (last_index b'@' n))

module _ {ℓ} (Mod : Type ℓ) (id_of : Mod → Str) where
  pub record Entry : Type ℓ where
    pub id : Str
    pub mod_of : Mod

  -- Register
  unfoldable pub register : Mod → GoMap Entry → GoMap Entry
  unfolding normalize_module_id
  register m entries =
      insert (normalize_module_id (id_of m)) (record { id = id_of m; mod_of = m }) entries

  abbrev pub module_of : Option Entry → Option Mod
  module_of none = none
  module_of (some e) = some e.mod_of

  -- Lookup
  unfoldable pub lookup_module : Str → GoMap Entry → Option Mod
  unfolding normalize_module_id
  lookup_module name entries = module_of (lookup (normalize_module_id name) entries)

  -- IDs
  unfoldable pub ids : GoMap Entry → List Str
  ids entries = sort_strings (map (λ e. e.1.id) entries)

  -- A module is found under every name that is normalized as its own is, until another such one replaces
  -- it; other names are not touched.
  pub lookup_module-register :
      (m : Mod) (name : Str) (entries : GoMap Entry)
      → lookup_module name (register m entries) ≡ (
          if str_eq (normalize_module_id (id_of m)) (normalize_module_id name)
          then some m
          else lookup_module name entries)
  unfolding lookup_module register
  lookup_module-register m name entries = ground (
    arith,
    lookup-insert (normalize_module_id (id_of m)) (normalize_module_id name)
        (record { id = id_of m; mod_of = m }) entries,
  )
