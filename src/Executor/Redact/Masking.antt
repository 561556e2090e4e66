-- ===== src/Executor/Redact/Masking.antt =====
-- What is left of the sensitive values in a masked text.
use post_lite.Base.{
  Bool-cases, length, All, Str, str_eq, str_eq_iff, has_prefix, contains, ℕ, zero, suc, ◌-◌, ◌≡◌,
  refl, ◌≢◌, inl, inr, true, false, ◌||◌, List, [], ◌∷◌, arith,
}
use post_lite.Executor.Redact.{
  is_member, dedup, insert_by_length, sort_by_length, new_redactor, replace_from, replace_all, text,
}

-- A value that the mask cannot help to spell.
abbrev pub NoStar : Str → Type 0
NoStar = All (λ c. c ≢ b'*')

-- A text without stars that begins a masked text begins the text itself.
has_prefix-replace_from :
    (v s w : Str) → NoStar w → has_prefix (replace_from v 0 s) w ≡ true → has_prefix s w ≡ true
unfolding replace_from
has_prefix-replace_from v s [] plain h = refl
has_prefix-replace_from v [] (d ∷ w) plain h = h
has_prefix-replace_from v (c ∷ s) (d ∷ w) plain h =
    ground (arith, has_prefix-replace_from v s w plain.1)

-- The masking of a value leaves no occurrence of it, and adds none of another plain value.
contains-replace_from :
    (v w s : Str) (skip : ℕ) (d : ℕ)
    → NoStar (d ∷ w)
    → contains (replace_from v skip s) (d ∷ w) ≡ true
    → contains s (d ∷ w) ≡ true
unfolding replace_from
contains-replace_from v w [] skip d plain h = h
contains-replace_from v w (c ∷ s) (suc skip) d plain h =
    ground (arith, contains-replace_from v w s skip d plain)
contains-replace_from v w (c ∷ s) zero d plain h = ground (
  arith,
  contains-replace_from v w s (length v - 1) d plain,
  contains-replace_from v w s 0 d plain,
  has_prefix-replace_from v s w plain.1,
)

contains-replace_from_self :
    (w s : Str) (skip : ℕ) (d : ℕ)
    → NoStar (d ∷ w)
    → contains (replace_from (d ∷ w) skip s) (d ∷ w) ≡ false
unfolding replace_from
contains-replace_from_self w [] skip d plain = refl
contains-replace_from_self w (c ∷ s) (suc skip) d plain =
    contains-replace_from_self w s skip d plain
contains-replace_from_self w (c ∷ s) zero d plain = ground (
  arith,
  contains-replace_from_self w s (length w) d plain,
  contains-replace_from_self w s 0 d plain,
  has_prefix-replace_from (d ∷ w) s w plain.1,
)

contains-text :
    (vs : List Str) (w s : Str) (d : ℕ)
    → NoStar (d ∷ w)
    → contains (text vs s) (d ∷ w) ≡ true
    → contains s (d ∷ w) ≡ true
unfolding text replace_all
contains-text [] w s d plain h = h
contains-text (v ∷ vs) w s d plain h =
    contains-replace_from v w s 0 d plain (contains-text vs w (replace_all s v) d plain h)

contains-text_member :
    (vs : List Str) (w s : Str) (d : ℕ)
    → NoStar (d ∷ w)
    → is_member (d ∷ w) vs ≡ true
    → contains (text vs s) (d ∷ w) ≡ false
unfolding text replace_all
contains-text_member [] w s d plain h = absurd (cc)
contains-text_member (v ∷ vs) w s d plain h = elim (Bool-cases (str_eq (d ∷ w) v)) [
  | inl same ↦ rw (← (str_eq_iff (d ∷ w) v).0 same) (
      ground (
        arith,
        contains-text vs w (replace_all s (d ∷ w)) d plain,
        contains-replace_from_self w s 0 d plain,
      ))
  | inr other ↦ contains-text_member vs w (replace_all s v) d plain (ground arith)
]

dedup_member :
    (seen vs : List Str) (v : Str)
    → v ≢ []
    → is_member v vs ≡ true
    → is_member v seen || is_member v (dedup seen vs) ≡ true
unfolding dedup
dedup_member seen [] v full h = absurd (cc)
dedup_member seen (w ∷ vs) v full h = ground (
  arith,
  dedup_member seen vs v full,
  dedup_member (w ∷ seen) vs v full,
  str_eq_iff v w,
  str_eq_iff w [],
)

insert_by_length_member :
    (v w : Str) (ws : List Str)
    → is_member v (insert_by_length w ws) ≡ (str_eq v w || is_member v ws)
unfolding insert_by_length
insert_by_length_member v w [] = refl
insert_by_length_member v w (x ∷ ws) = ground (arith, insert_by_length_member v w ws)

sort_by_length_member : (v : Str) (ws : List Str) → is_member v (sort_by_length ws) ≡ is_member v ws
unfolding sort_by_length
sort_by_length_member v [] = refl
sort_by_length_member v (w ∷ ws) = rw insert_by_length_member (rw (sort_by_length_member v ws))

-- A text masked by the redactor of a list of values contains none of these values that is not
-- empty and has no star in it, whatever the other values are and wherever occurrences overlap.
pub text-new_redactor :
    (values : List Str) (v s : Str)
    → is_member v values ≡ true
    → v ≢ []
    → NoStar v
    → contains (text (new_redactor values) s) v ≡ false
unfolding new_redactor
text-new_redactor values [] s h full plain = absurd (full refl)
text-new_redactor values (d ∷ w) s h full plain =
    contains-text_member (new_redactor values) w s d plain
      (rw sort_by_length_member (dedup_member [] values (d ∷ w) full h))
