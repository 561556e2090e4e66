-- ===== src/Crypto/Vault/MasterKey.antt =====
-- The file of the master key.
use post_lite.Base.{length, Str, ◌≡◌, Option, none, some, arith}
use post_lite.Crypto.Vault.{trim_bytes, key_bytes, decode_master_key, load_or_create_master_key}

module _ (decode_hex decode_base64 : Str → Option Str) (encode_base64 : Str → Str) where
  -- The key that a first start generates is the one that every later start loads: base64 takes back
  -- what it has written, and its text of 32 bytes is no hex and has no white space at its end.
  pub load_or_create_twice :
      (k other : Str)
      → length k ≡ key_bytes
      → decode_base64 (encode_base64 k) ≡ some k
      → decode_hex (encode_base64 k) ≡ none
      → trim_bytes (encode_base64 k) ≡ encode_base64 k
      → let load = load_or_create_master_key decode_hex decode_base64 encode_base64 in
        load other (load k none).1 ≡ (k, some (encode_base64 k))
  unfolding load_or_create_master_key decode_master_key
  load_or_create_twice k other sized back no_hex trimmed = rw (trimmed, no_hex, back) (ground arith)

  -- A file that is there but holds no key is overwritten with a new key, whatever was in it.
  pub load_or_create_overwrites :
      (k text : Str)
      → decode_master_key decode_hex decode_base64 encode_base64 (trim_bytes text) ≡ none
      → load_or_create_master_key decode_hex decode_base64 encode_base64 k (some text)
        ≡ (k, some (encode_base64 k))
  unfolding load_or_create_master_key
  load_or_create_overwrites k text bad = rw bad
