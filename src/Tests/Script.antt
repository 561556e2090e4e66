-- ===== src/Tests/Script.antt =====
-- Identifiers, module names and URLs of scripts at concrete inputs.
use post_lite.Base.{
  Str, codes, encode_hex, decode_hex, ◌≡◌, refl, true, false, none, some, [], ◌∷◌, arith,
}
use post_lite.Script.Uuid.{
  gregorian_offset, V1State, next_v1, big_endian, v1_bytes, set_version, format_uuid, new_v4,
  trim_last, parse_uuid,
}
use post_lite.Script.Registry.{last_index, normalize_module_id}
use post_lite.Script.Url.{after_scheme, from_byte, up_to_byte, path_and_query, host_of}
use post_lite.Script.Encoding.{
  Codecs, normalize_encoding, is_one_of, encoding_of, strip_base64_space, latin1_from, latin1_text,
  decode_string, encode_bytes, is_raw_encoding,
}
use post_lite.Script.Encoding.RoundTrip.{IsLossless, decode_string-encode_bytes}

scripts : Unit {0}
unfolding encode_hex decode_hex next_v1 big_endian v1_bytes set_version format_uuid parse_uuid
    trim_last normalize_module_id last_index path_and_query host_of after_scheme from_byte
    up_to_byte normalize_encoding is_one_of encoding_of strip_base64_space latin1_from latin1_text
    decode_string encode_bytes is_raw_encoding IsLossless
scripts = tt

abbrev bytes : Str
bytes = codes "0123456789abcdef"

abbrev canonical : Str
canonical = codes "30313233-3435-3637-3839-616263646566"

abbrev clock : V1State
clock = record { last_ts = 7; clock_seq = 16383; node = codes "nnnnnn" }

uuid_tests :
    (format_uuid bytes ≡ canonical)
    × (parse_uuid canonical ≡ some bytes)
    × (parse_uuid (codes " urn:uuid:30313233-3435-3637-3839-616263646566") ≡ some bytes)
    × (parse_uuid (codes "{30313233-3435-3637-3839-616263646566}") ≡ some bytes)
    × (parse_uuid (codes "30313233x3435-3637-3839-616263646566") ≡ none)
    × (new_v4 bytes ≡ codes "30313233-3435-4637-b839-616263646566")
    × ((next_v1 0 clock).0 ≡ gregorian_offset)
    × (format_uuid (v1_bytes gregorian_offset clock) ≡ codes "13814000-1dd2-11b2-bfff-6e6e6e6e6e6e")
unfolding scripts
uuid_tests = (refl, refl, refl, refl, refl, refl, refl, refl)

name_tests :
    (normalize_module_id (codes "npm:TweetNacl@1.0.3") ≡ codes "tweetnacl")
    × (normalize_module_id (codes "npm:@scope/pkg") ≡ codes "@scope/pkg")
    × (path_and_query (codes "http://h:5680/a?b=1") ≡ codes "/a?b=1")
    × (path_and_query (codes "a/b") ≡ codes "/a/b")
    × (host_of (codes "http://h:5680/a?b=1") ≡ codes "h:5680")
    × (host_of (codes "http://h?b=1") ≡ codes "h")
unfolding scripts
name_tests = (refl, refl, refl, refl, refl, refl)

abbrev codecs : Codecs
codecs = record {
  is_utf8 = λ s. true;
  encode_std = encode_hex;
  encode_url = encode_hex;
  decode_std = decode_hex;
  decode_url = decode_hex;
}

encoding_tests :
    (decode_string codecs (codes "4a 6B") (codes " HEX ") ≡ some (74 ∷ 107 ∷ []))
    × (decode_string codecs (195 ∷ 169 ∷ []) (codes "latin1") ≡ some (233 ∷ []))
    × (decode_string codecs (196 ∷ 128 ∷ []) (codes "latin1") ≡ none)
    × (decode_string codecs [] (codes "utf16") ≡ none)
    × (encode_bytes codecs (65 ∷ 233 ∷ []) (codes "binary") ≡ some (65 ∷ 195 ∷ 169 ∷ []))
    × (encode_bytes codecs [] (codes "raw") ≡ none)
    × (is_raw_encoding (codes "Raw") ≡ true)
    × (is_raw_encoding (codes "hex") ≡ false)
unfolding scripts
encoding_tests = (refl, refl, refl, refl, refl, refl, refl, refl)

decode_binary : decode_string codecs (65 ∷ 195 ∷ 169 ∷ []) (codes "binary") ≡ some (65 ∷ 233 ∷ [])
unfolding scripts
decode_binary =
    decode_string-encode_bytes codecs (codes "binary") (65 ∷ 233 ∷ []) (65 ∷ 195 ∷ 169 ∷ [])
      (omega arith, (omega arith, tt))
      (refl, (refl, (refl, (refl, (refl, tt)))), refl, (refl, (refl, (refl, (refl, tt))))) refl
