-- ===== src/Script/Url.antt =====
-- internal/script/context.go: the parts of a URL that a script may ask for.
use post_lite.Base.{
  ◌==◌, if◌then◌else◌, drop, Str, codes, str_eq, has_prefix, ℕ, Option, none, some, [], ◌∷◌,
}

-- What follows the first "://"
unfoldable pub after_scheme : Str → Option Str
after_scheme [] = none
after_scheme (c ∷ s) =
    let rest = after_scheme s in if has_prefix (c ∷ s) (codes "://") then some (drop 2 s) else rest

-- From the first byte `c` on, and up to it
unfoldable pub from_byte : ℕ → Str → Option Str
from_byte c [] = none
from_byte c (d ∷ s) = let rest = from_byte c s in if d == c then some (d ∷ s) else rest

unfoldable pub up_to_byte : ℕ → Str → Option Str
up_to_byte c [] = none
up_to_byte c (d ∷ s) =
    let rest = up_to_byte c s in
    if d == c then some [] else elim rest [ none ↦ none | some before ↦ some (d ∷ before) ]

abbrev pub or_root : Option Str → Str
or_root none = codes "/"
or_root (some path) = path

-- pathAndQuery
unfoldable pub path_and_query : Str → Str
unfolding after_scheme from_byte
path_and_query raw = if str_eq raw [] then codes "/" else elim (after_scheme raw) [
  | some rest ↦ or_root (from_byte b'/' rest)
  | none ↦ if has_prefix raw (codes "/") then raw else b'/' ∷ raw
]

abbrev pub host_part : Str → Str
host_part rest = elim (up_to_byte b'/' rest) [
  | some host ↦ host
  | none ↦ elim (up_to_byte b'?' rest) [ some host ↦ host | none ↦ rest ]
]

-- hostOf
unfoldable pub host_of : Str → Str
unfolding after_scheme up_to_byte
host_of raw = elim (after_scheme raw) [ none ↦ [] | some rest ↦ host_part rest ]
