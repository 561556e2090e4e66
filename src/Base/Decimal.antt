-- ===== src/Base/Decimal.antt =====
-- Decimal numbers of package strconv. FormatInt on what is not negative is show_int; ParseInt and Atoi
-- are parse_int: none is an error, and also a negative number, which no caller lets count.
use Prim.Native.Nat.{ℕ, zero, suc, ◌+◌, ◌-◌, ◌*◌, ◌/◌, ◌%◌, ◌^◌, ◌<◌}
use mathlib.Core.Path.{◌≡◌, refl, ap, ◌∙◌}
use mathlib.Core.Logic.{◌≢◌, inl, inr}
use mathlib.Core.Bool.{Bool, true, ◌&&◌}
use mathlib.Core.List.{[], ◌∷◌, ◌++◌}
use mathlib.Core.Option.{Option, none, some}
use native.Mathlib.Omega.{arith}
use post_lite.Base.Tests.{leb, ltb, ◌==◌, if◌then◌else◌, Bool-cases}
use post_lite.Base.Strings.{Str}

unfoldable pub show_from : ℕ → ℕ → Str
show_from zero n = []
show_from (suc fuel) n =
    let rest = show_from fuel (n / 10) in
    if ltb n 10 then (b'0' + n) ∷ [] else rest ++ (b'0' + n % 10) ∷ []

-- One more round of fuel than the number is enough.
unfoldable pub show_int : ℕ → Str
unfolding show_from
show_int n = show_from (suc n) n

abbrev is_digit : ℕ → Bool
is_digit c = leb b'0' c && leb c b'9'

unfoldable pub parse_digits : ℕ → Str → Option ℕ
parse_digits n [] = some n
parse_digits n (c ∷ s) =
    let rest = parse_digits (n * 10 + (c - b'0')) s in if is_digit c then rest else none

-- Digits, at least one, and an int64
abbrev in_range : Option ℕ → Option ℕ
in_range none = none
in_range (some n) = if ltb n (2 ^ 63) then some n else none

abbrev unsigned : Str → Option ℕ
unsigned [] = none
unsigned (c ∷ s) = in_range (parse_digits 0 (c ∷ s))

unfoldable pub parse_int : Str → Option ℕ
unfolding parse_digits
parse_int [] = none
parse_int (c ∷ s) = if c == b'+' then unsigned s else unsigned (c ∷ s)

parse_digits-append :
    (n : ℕ) (s : Str) (m c : ℕ)
    → parse_digits n s ≡ some m
    → is_digit c ≡ true
    → parse_digits n (s ++ c ∷ []) ≡ some (m * 10 + (c - b'0'))
unfolding parse_digits
parse_digits-append n [] m c done digit = ground arith
parse_digits-append n (d ∷ s) m c done digit =
    ground (arith, parse_digits-append (n * 10 + (d - b'0')) s m c)

parse_digits-show_from : (fuel n : ℕ) → n < fuel → parse_digits 0 (show_from fuel n) ≡ some n
unfolding show_from parse_digits
parse_digits-show_from zero n enough = absurd (omega arith)
parse_digits-show_from (suc fuel) n enough = elim (Bool-cases (ltb n 10)) [
  | inl small ↦ rw small (ground arith)
  | inr large ↦
      let before = parse_digits-show_from fuel (n / 10) (ground arith) in
      let digit : is_digit (b'0' + n % 10) ≡ true = ground arith in
      rw large (
        parse_digits-append 0 (show_from fuel (n / 10)) (n / 10) (b'0' + n % 10) before digit
        ∙ ap some (omega arith))
]

append_nonempty : (s : Str) (c : ℕ) → s ++ c ∷ [] ≢ []
append_nonempty [] c e = absurd (cc)
append_nonempty (d ∷ s) c e = absurd (cc)

show_nonempty : (n : ℕ) → show_int n ≢ []
unfolding show_int show_from
show_nonempty n = elim (Bool-cases (ltb n 10)) [
  | inl small ↦ ground arith
  | inr large ↦ ground (arith, append_nonempty (show_from n (n / 10)) (b'0' + n % 10))
]

parse_int-digits :
    (s : Str) (n : ℕ) → s ≢ [] → parse_digits 0 s ≡ some n → n < 2 ^ 63 → parse_int s ≡ some n
unfolding parse_int parse_digits
parse_int-digits [] n full done small = absurd (full refl)
parse_int-digits (c ∷ s) n full done small = ground arith

pub parse_int-show_int : (n : ℕ) → n < 2 ^ 63 → parse_int (show_int n) ≡ some n
unfolding show_int
parse_int-show_int n small =
    parse_int-digits (show_int n) n (show_nonempty n)
      (parse_digits-show_from (suc n) n (omega arith)) small
