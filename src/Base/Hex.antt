-- ===== src/Base/Hex.antt =====
-- encoding/hex: two digits for each byte; decoding takes capital letters too.
use Prim.Native.Nat.{ℕ, ◌+◌, ◌-◌, ◌*◌, ◌/◌, ◌%◌, ◌<◌}
use mathlib.Core.Path.{◌≡◌, refl}
use mathlib.Core.Bool.{◌&&◌}
use mathlib.Core.List.{[], ◌∷◌}
use mathlib.Core.Option.{Option, none, some}
use native.Mathlib.Omega.{arith}
use post_lite.Base.Tests.{leb, if◌then◌else◌}
use post_lite.Base.Lists.{All}
use post_lite.Base.Strings.{Str}

abbrev pub hex_digit : ℕ → ℕ
hex_digit n = if leb n 9 then b'0' + n else b'a' + (n - 10)

abbrev pub digit_value : ℕ → Option ℕ
digit_value c =
    if leb b'0' c && leb c b'9'
    then some (c - b'0')
    else if leb b'a' c && leb c b'f'
    then some (c - b'a' + 10)
    else if leb b'A' c && leb c b'F'
    then some (c - b'A' + 10)
    else none

unfoldable pub encode_hex : Str → Str
encode_hex [] = []
encode_hex (b ∷ bs) = hex_digit (b / 16) ∷ hex_digit (b % 16) ∷ encode_hex bs

abbrev pub join_digits : Option ℕ → Option ℕ → Option Str → Option Str
join_digits (some h) (some l) (some bs) = some ((h * 16 + l) ∷ bs)
join_digits _ _ _ = none

unfoldable pub decode_hex : Str → Option Str
decode_hex [] = some []
decode_hex (h ∷ []) = none
decode_hex (h ∷ l ∷ s) = join_digits (digit_value h) (digit_value l) (decode_hex s)

digit_value-hex_digit : (n : ℕ) → n < 16 → digit_value (hex_digit n) ≡ some n
digit_value-hex_digit n h = ground arith

split_byte : (b : ℕ) → b / 16 * 16 + b % 16 ≡ b
split_byte b = omega arith

pub decode_hex-encode_hex :
    (bs : Str) → All (λ b. b < 256) bs → decode_hex (encode_hex bs) ≡ some bs
unfolding decode_hex encode_hex
decode_hex-encode_hex [] h = refl
decode_hex-encode_hex (b ∷ bs) h =
    rw
      (
        digit_value-hex_digit (b / 16) (omega (arith, h.0)),
        digit_value-hex_digit (b % 16) (omega arith),
        decode_hex-encode_hex bs h.1,
      )
      (ground (arith, split_byte b))
