-- ===== src/Executor/Redact/Headers.antt =====
-- What masked headers and snapshots can tell of the headers that are always masked.
use post_lite.Base.{
  if◌then◌else◌, Bool-cases, length, Str, codes, str_eq, str_eq_iff, GoMap, lookup, lookup-insert,
  ◌≡◌, refl, ap, ap₂, inl, inr, true, false, List, [], ◌∷◌, ◌++◌, map, arith,
}
use post_lite.Executor.Redact.{
  mask, text, is_sensitive, headers, header_lines, values_of, lines_in_order, header_block,
  request_snapshot, response_snapshot,
}
use mathlib.Core.Option

-- Two header maps that may differ in the values of sensitive headers, but not in their number.
abbrev pub SameShown : GoMap (List Str) → GoMap (List Str) → Type 0
SameShown [] [] = Unit
SameShown ((k, vs) ∷ g) ((j, ws) ∷ h) =
    (k ≡ j) × (length vs ≡ length ws) × (is_sensitive k ≡ false → vs ≡ ws) × SameShown g h
SameShown _ _ = ⊥

same_names :
    (g h : GoMap (List Str)) → SameShown g h → map (λ p. p.0) g ≡ map {B = Str} (λ p. p.0) h
same_names [] [] e = refl
same_names [] (q ∷ h) e = absurd e
same_names ((k, vs) ∷ g) [] e = absurd e
same_names ((k, vs) ∷ g) ((j, ws) ∷ h) e = cc (e.0, same_names g h e.3)

abbrev SameValues : Str → List Str → List Str → Type 0
SameValues k vs ws = (length vs ≡ length ws) × (is_sensitive k ≡ false → vs ≡ ws)

header_lines_same :
    (r : List Str) (k : Str) (vs ws : List Str)
    → is_sensitive k ≡ true
    → length vs ≡ length ws
    → header_lines r k vs ≡ header_lines r k ws
unfolding header_lines
header_lines_same r k [] [] s e = refl
header_lines_same r k [] (w ∷ ws) s e = absurd (omega arith)
header_lines_same r k (v ∷ vs) [] s e = absurd (omega arith)
header_lines_same r k (v ∷ vs) (w ∷ ws) s e = rw (s, header_lines_same r k vs ws s (omega arith))

lookup_same :
    (k : Str) (g h : GoMap (List Str))
    → SameShown g h
    → SameValues k (values_of (lookup k g)) (values_of (lookup k h))
unfolding lookup
lookup_same k [] [] e = (refl, λ _. refl)
lookup_same k [] (q ∷ h) e = absurd e
lookup_same k ((i, vs) ∷ g) [] e = absurd e
lookup_same k ((i, vs) ∷ g) ((j, ws) ∷ h) e = elim (Bool-cases (str_eq i k)) [
  | inl same ↦ rw (← e.0, same) (e.1, λ s. e.2 (rw ((str_eq_iff i k).0 same) s))
  | inr other ↦ rw (← e.0, other) (lookup_same k g h e.3)
]

header_lines-SameValues :
    (r : List Str) (k : Str) (vs ws : List Str)
    → SameValues k vs ws
    → header_lines r k vs ≡ header_lines r k ws
header_lines-SameValues r k vs ws e = elim (Bool-cases (is_sensitive k)) [
  | inl s ↦ header_lines_same r k vs ws s e.0
  | inr s ↦ ap (header_lines r k) (e.1 s)
]

lines_in_order_same :
    (r : List Str) (g h : GoMap (List Str)) (ks : List Str)
    → SameShown g h
    → lines_in_order r g ks ≡ lines_in_order r h ks
unfolding lines_in_order
lines_in_order_same r g h [] e = refl
lines_in_order_same r g h (k ∷ ks) e =
    ap₂ ◌++◌ (header_lines-SameValues r k _ _ (lookup_same k g h e))
      (lines_in_order_same r g h ks e)

header_block_same :
    (r : List Str) (g h : GoMap (List Str)) → SameShown g h → header_block r g ≡ header_block r h
unfolding header_block
header_block_same r [] [] e = refl
header_block_same r [] (q ∷ h) e = absurd e
header_block_same r (p ∷ g) [] e = absurd e
header_block_same r ((k, vs) ∷ g) ((j, ws) ∷ h) e =
    rw (same_names ((k, vs) ∷ g) ((j, ws) ∷ h) e)
      (ap (λ b. b ++ codes "\n") (lines_in_order_same r ((k, vs) ∷ g) ((j, ws) ∷ h) _ e))

-- The snapshots of a request and of a response do not depend on the values of the sensitive
-- headers: two header maps that differ only in these, and not in how many values a header has,
-- give the same texts.
pub snapshots_hide_sensitive :
    (r : List Str) (method url status : Str) (g h : GoMap (List Str)) (body : Str)
    → SameShown g h
    → (request_snapshot r method url g body ≡ request_snapshot r method url h body)
      × (response_snapshot r status g body ≡ response_snapshot r status h body)
unfolding request_snapshot response_snapshot
snapshots_hide_sensitive r method url status g h body e =
    (rw (header_block_same r g h e), rw (header_block_same r g h e))

-- The masked headers hold, for each name, "***" alone if the name is sensitive in any spelling of
-- its letters, and otherwise the header's values with every sensitive value masked.
pub lookup-headers :
    (r : List Str) (h : GoMap (List Str)) (k : Str)
    → lookup k (headers r h)
      ≡ Option.map (λ vs. if is_sensitive k then mask ∷ [] else map (text r) vs) (lookup k h)
unfolding headers lookup
lookup-headers r [] k = refl
lookup-headers r ((j, vs) ∷ h) k = elim (Bool-cases (str_eq j k)) [
  | inl same ↦ rw (lookup-insert, same, (str_eq_iff j k).0 same)
  | inr other ↦ rw (lookup-insert, other) (lookup-headers r h k)
]
