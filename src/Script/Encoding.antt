-- ===== src/Script/Encoding.antt =====
-- internal/script/jsbytes.go: DecodeString and EncodeBytes. The base64 alphabets and the UTF-8 check of
-- the Go library are the record Codecs. A text is its UTF-8 bytes.
pub mod RoundTrip
use post_lite.Base.{
  ltb, leb, ◌==◌, if◌then◌else◌, Str, codes, str_eq, to_lower, trim_right, trim_space, encode_hex,
  decode_hex, ℕ, ◌+◌, ◌-◌, ◌*◌, ◌/◌, ◌%◌, String, Bool, false, ◌&&◌, ◌||◌, Option, none, some, List,
  [], ◌∷◌,
}

pub record Codecs : Type 0 where
  pub is_utf8 : Str → Bool
  pub encode_std : Str → Str
  pub encode_url : Str → Str
  pub decode_std : Str → Option Str
  pub decode_url : Str → Option Str

pub data Encoding : Type 0 where
  utf8 base64 base64url hex latin1 unsupported : Encoding

-- normalizeEncoding
unfoldable pub normalize_encoding : Str → Str
normalize_encoding s = to_lower (trim_space s)

unfoldable pub is_one_of : Str → List String → Bool
is_one_of s [] = false
is_one_of s (name ∷ names) = str_eq s (codes name) || is_one_of s names

-- The cases that the switches of DecodeString and EncodeBytes share
unfoldable pub encoding_of : Str → Encoding
unfolding normalize_encoding is_one_of
encoding_of s =
    let name = normalize_encoding s in
    if is_one_of name ("" ∷ "utf8" ∷ "utf-8" ∷ [])
    then utf8
    else if is_one_of name ("base64" ∷ [])
    then base64
    else if is_one_of name ("base64url" ∷ [])
    then base64url
    else if is_one_of name ("hex" ∷ [])
    then hex
    else if is_one_of name ("latin1" ∷ "binary" ∷ [])
    then latin1
    else unsupported

abbrev pub is_base64_space : ℕ → Bool
is_base64_space c = c == 32 || c == 9 || c == 13 || c == 10

-- stripBase64Space
unfoldable pub strip_base64_space : Str → Str
strip_base64_space [] = []
strip_base64_space (c ∷ s) =
    let rest = strip_base64_space s in if is_base64_space c then rest else c ∷ rest

abbrev pub cons_to : ℕ → Option Str → Option Str
cons_to b none = none
cons_to b (some bs) = some (b ∷ bs)

-- The bytes that start a rune from 128 to 255
abbrev pub is_latin1_lead : ℕ → Bool
is_latin1_lead c = c == 194 || c == 195

abbrev pub next_lead : ℕ → ℕ → ℕ
next_lead lead c = if lead == 0 && is_latin1_lead c then c else 0

-- One byte of a text; `lead` is the byte that has started a rune, or 0
abbrev pub latin1_step : ℕ → ℕ → Option Str → Option Str
latin1_step lead c rest =
    if lead == 0
    then if ltb c 128 then cons_to c rest else if is_latin1_lead c then rest else none
    else if leb 128 c && ltb c 192
    then cons_to ((lead - 194) * 64 + c) rest
    else none

-- The runes of a text, each of them at most 255. Every other sequence of bytes has a larger rune, which
-- is U+FFFD where the text is not UTF-8.
unfoldable pub latin1_from : ℕ → Str → Option Str
latin1_from lead [] = if lead == 0 then some [] else none
latin1_from lead (c ∷ s) = latin1_step lead c (latin1_from (next_lead lead c) s)

-- string(runes) for runes up to 255
unfoldable pub latin1_text : Str → Str
latin1_text [] = []
latin1_text (b ∷ bs) =
    let rest = latin1_text bs in
    if ltb b 128 then b ∷ rest else (192 + b / 64) ∷ (128 + b % 64) ∷ rest

abbrev pub decode_as : Codecs → Str → Encoding → Option Str
decode_as k s utf8 = some s
decode_as k s base64 = k.decode_std (strip_base64_space s)
decode_as k s base64url = k.decode_url (trim_right (λ c. c == b'=') s)
decode_as k s hex = decode_hex (strip_base64_space s)
decode_as k s latin1 = latin1_from 0 s
decode_as k s unsupported = none

-- DecodeString
unfoldable pub decode_string : Codecs → Str → Str → Option Str
decode_string k s encoding = decode_as k s (encoding_of encoding)

abbrev pub encode_as : Codecs → Str → Encoding → Option Str
encode_as k b utf8 = if k.is_utf8 b then some b else none
encode_as k b base64 = some (k.encode_std b)
encode_as k b base64url = some (k.encode_url b)
encode_as k b hex = some (encode_hex b)
encode_as k b latin1 = some (latin1_text b)
encode_as k b unsupported = none

-- EncodeBytes
unfoldable pub encode_bytes : Codecs → Str → Str → Option Str
encode_bytes k b encoding = encode_as k b (encoding_of encoding)

-- isRawEncoding
unfoldable pub is_raw_encoding : Str → Bool
unfolding normalize_encoding is_one_of
is_raw_encoding s =
    is_one_of (normalize_encoding s)
      ("bytes" ∷ "byte" ∷ "uint8array" ∷ "uint8clampedarray" ∷ "raw" ∷ "array" ∷ [])
