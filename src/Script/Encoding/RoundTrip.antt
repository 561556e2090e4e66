-- ===== src/Script/Encoding/RoundTrip.antt =====
-- internal/script/jsbytes.go: DecodeString and EncodeBytes against each other.
use post_lite.Base.{
  ltb, ◌==◌, Bool-cases, All, Str, trim_right, hex_digit, encode_hex, decode_hex,
  decode_hex-encode_hex, ℕ, ◌+◌, ◌-◌, ◌*◌, ◌/◌, ◌%◌, ◌≤◌, ◌<◌, ◌≡◌, refl, sym, ap, ◌∙◌, inl, inr,
  false, Option, some, [], ◌∷◌, arith,
}
use post_lite.Script.Encoding.{
  Codecs, Encoding, utf8, base64, base64url, hex, latin1, unsupported, encoding_of, is_base64_space,
  strip_base64_space, cons_to, next_lead, latin1_step, latin1_from, latin1_text, decode_as,
  decode_string, encode_as, encode_bytes,
}

next_lead_first : (b : ℕ) → 128 ≤ b → b < 256 → next_lead 0 (192 + b / 64) ≡ 192 + b / 64
next_lead_first b low high = ground arith

latin1_step_first :
    (b : ℕ) (rest : Option Str) → 128 ≤ b → b < 256 → latin1_step 0 (192 + b / 64) rest ≡ rest
latin1_step_first b rest low high = ground arith

next_lead_second : (b c : ℕ) → next_lead (192 + b / 64) c ≡ 0
next_lead_second b c = ground arith

joined_byte : (b : ℕ) → 128 ≤ b → b < 256 → (192 + b / 64 - 194) * 64 + (128 + b % 64) ≡ b
joined_byte b low high = omega arith

latin1_step_second :
    (b : ℕ) (rest : Option Str)
    → 128 ≤ b
    → b < 256
    → latin1_step (192 + b / 64) (128 + b % 64) rest ≡ cons_to b rest
latin1_step_second b rest low high = ground (arith, joined_byte b low high)

latin1_from_two :
    (b : ℕ) (s : Str)
    → 128 ≤ b
    → b < 256
    → latin1_from 0 ((192 + b / 64) ∷ (128 + b % 64) ∷ s) ≡ cons_to b (latin1_from 0 s)
unfolding latin1_from
latin1_from_two b s low high =
    rw
      (
        latin1_step_first b (latin1_from (next_lead 0 (192 + b / 64)) ((128 + b % 64) ∷ s)) low
            high,
        next_lead_first b low high,
        next_lead_second b (128 + b % 64),
      )
      (latin1_step_second b (latin1_from 0 s) low high)

next_lead_plain : (b : ℕ) → b < 128 → next_lead 0 b ≡ 0
next_lead_plain b low = ground arith

latin1_from_one : (b : ℕ) (s : Str) → b < 128 → latin1_from 0 (b ∷ s) ≡ cons_to b (latin1_from 0 s)
unfolding latin1_from
latin1_from_one b s low = rw (next_lead_plain b low) (ground arith)

latin1_from-latin1_text :
    (bs : Str) → All (λ b. b < 256) bs → latin1_from 0 (latin1_text bs) ≡ some bs
unfolding latin1_from latin1_text
latin1_from-latin1_text [] h = refl
latin1_from-latin1_text (b ∷ bs) h =
    let after = ap (cons_to b) (latin1_from-latin1_text bs h.1) in
    elim (Bool-cases (ltb b 128)) [
      | inl small ↦ rw small (latin1_from_one b (latin1_text bs) (ground arith) ∙ after)
      | inr large ↦ rw large (latin1_from_two b (latin1_text bs) (ground arith) h.0 ∙ after)
    ]

strip_base64_space-plain :
    (s : Str) → All (λ c. is_base64_space c ≡ false) s → strip_base64_space s ≡ s
unfolding strip_base64_space
strip_base64_space-plain [] h = refl
strip_base64_space-plain (c ∷ s) h = rw h.0 (ap (λ t. c ∷ t) (strip_base64_space-plain s h.1))

hex_digit_plain : (n : ℕ) → is_base64_space (hex_digit n) ≡ false
hex_digit_plain n = ground arith

encode_hex_plain : (bs : Str) → All (λ c. is_base64_space c ≡ false) (encode_hex bs)
unfolding encode_hex
encode_hex_plain [] = tt
encode_hex_plain (b ∷ bs) =
    (hex_digit_plain (b / 16), (hex_digit_plain (b % 16), encode_hex_plain bs))

trim_right-plain : (s : Str) → All (λ c. (c == b'=') ≡ false) s → trim_right (λ c. c == b'=') s ≡ s
trim_right-plain [] h = refl
trim_right-plain (c ∷ s) h = rw (h.0, trim_right-plain s h.1) refl

-- What the Go library documents of its alphabets: a text of either is decoded again, one of the
-- standard alphabet has no white space, and one of the unpadded alphabet for URLs has no "=".
unfoldable pub IsLossless : Codecs → Str → Type 0
IsLossless k bs =
    (k.decode_std (k.encode_std bs) ≡ some bs)
    × All (λ c. is_base64_space c ≡ false) (k.encode_std bs)
    × (k.decode_url (k.encode_url bs) ≡ some bs)
    × All (λ c. (c == b'=') ≡ false) (k.encode_url bs)

decode_as-encode_as :
    (k : Codecs) (e : Encoding) (bs text : Str)
    → All (λ b. b < 256) bs
    → IsLossless k bs
    → encode_as k bs e ≡ some text
    → decode_as k text e ≡ some bs
unfolding IsLossless
decode_as-encode_as k utf8 bs text bytes codec e = elim (Bool-cases (k.is_utf8 bs)) [
  | inl valid ↦ ground (arith, valid)
  | inr invalid ↦ ground (arith, invalid)
]
decode_as-encode_as k base64 bs text bytes codec e =
    let is_text : k.encode_std bs ≡ text = cc in
    ap (λ t. k.decode_std (strip_base64_space t)) (sym is_text)
    ∙ ap k.decode_std (strip_base64_space-plain (k.encode_std bs) codec.1)
    ∙ codec.0
decode_as-encode_as k base64url bs text bytes codec e =
    let is_text : k.encode_url bs ≡ text = cc in
    ap (λ t. k.decode_url (trim_right (λ c. c == b'=') t)) (sym is_text)
    ∙ ap k.decode_url (trim_right-plain (k.encode_url bs) codec.3)
    ∙ codec.2
decode_as-encode_as k hex bs text bytes codec e =
    let is_text : encode_hex bs ≡ text = cc in
    ap (λ t. decode_hex (strip_base64_space t)) (sym is_text)
    ∙ ap decode_hex (strip_base64_space-plain (encode_hex bs) (encode_hex_plain bs))
    ∙ decode_hex-encode_hex bs bytes
decode_as-encode_as k latin1 bs text bytes codec e =
    let is_text : latin1_text bs ≡ text = cc in rw (sym is_text) (latin1_from-latin1_text bs bytes)
decode_as-encode_as k unsupported bs text bytes codec e = absurd (cc)

-- Where EncodeBytes gives a text for bytes in an encoding, DecodeString gives these bytes back for the
-- text in the same encoding, if base64 of the Go library is as documented for these bytes.
pub decode_string-encode_bytes :
    (k : Codecs) (encoding bs text : Str)
    → All (λ b. b < 256) bs
    → IsLossless k bs
    → encode_bytes k bs encoding ≡ some text
    → decode_string k text encoding ≡ some bs
unfolding encode_bytes decode_string
decode_string-encode_bytes k encoding bs text = decode_as-encode_as k (encoding_of encoding) bs text
