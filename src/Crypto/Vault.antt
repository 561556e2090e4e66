-- ===== src/Crypto/Vault.antt =====
-- internal/crypto/secret.go: the vault. AES-GCM with the master key is the record `Aead`; a nonce is an
-- argument, and so is the clock. Hex and base64 are parameters.
pub mod Blobs
pub mod MasterKey
pub mod Race
use post_lite.Base.{
  ltb, ◌==◌, if◌then◌else◌, length, take, drop, Str, trim_right, GoMap, lookup, insert, decode_hex,
  ℕ, ◌+◌, ◌*◌, ◌%◌, ◌^◌, ◌≡◌, Bool, ◌&&◌, ◌||◌, Option, none, some, [], ◌++◌,
}

-- cipher.AEAD: Open fails where the tag does not fit
pub record Aead : Type 0 where
  pub seal : Str → Str → Str
  pub unseal : Str → Str → Option Str
  pub unseal-seal : (nonce plain : Str) → unseal nonce (seal nonce plain) ≡ some plain

-- 5 minutes, in nanoseconds
abbrev pub cache_ttl : ℕ
cache_ttl = 5 * 60 * 1000000000

pub record CacheEntry : Type 0 where
  pub value : Str
  pub expires : ℕ
  pub gen : ℕ

pub record Vault : Type 0 where
  pub cache : GoMap CacheEntry
  pub gen : ℕ

abbrev pub new_vault : Vault
new_vault = record { cache = []; gen = 0 }

-- v.gen++ on a uint64
unfoldable pub invalidate : Vault → Vault
invalidate v = record { cache = []; gen = (v.gen + 1) % 2 ^ 64 }

abbrev pub nonce_bytes : ℕ
nonce_bytes = 12

module _ (a : Aead) where
  -- Seal with the nonce that rand.Read gave
  unfoldable pub seal_blob : Str → Str → Str
  seal_blob nonce plain = nonce ++ a.seal nonce plain

  -- Open
  unfoldable pub open_blob : Str → Option Str
  open_blob blob =
      if ltb (length blob) nonce_bytes
      then none
      else a.unseal (take nonce_bytes blob) (drop nonce_bytes blob)

  abbrev pub usable : ℕ → ℕ → CacheEntry → Bool
  usable now gen e = (e.gen == gen) && ltb now e.expires

  abbrev pub usable_value : ℕ → ℕ → Option CacheEntry → Option Str
  usable_value now gen none = none
  usable_value now gen (some e) = if usable now gen e then some e.value else none

  -- Lookup's look into the cache, under the read lock
  unfoldable pub cached : ℕ → Str → Vault → Option Str
  cached now name v = usable_value now v.gen (lookup name v.cache)

  -- What the fetched blob decrypts to
  unfoldable pub fetched : Option Str → Option Str
  unfolding open_blob
  fetched none = none
  fetched (some blob) = open_blob blob

  -- Lookup's write into the cache, under the lock: with the generation of that moment
  unfoldable pub remember : ℕ → Str → Str → Vault → Vault
  remember now name plain v = record v {
    cache = insert name (record { value = plain; expires = now + cache_ttl; gen = v.gen }) v.cache;
  }

  abbrev pub after_fetch : ℕ → Str → Option Str → Vault → Option Str × Vault
  after_fetch now name none v = (none, v)
  after_fetch now name (some plain) v = (some plain, remember now name plain v)

  -- Lookup, with nothing else between its parts; `fetch` gives the blob, none where there is none
  abbrev pub lookup_from : ℕ → Str → (Str → Option Str) → Option Str → Vault → Option Str × Vault
  lookup_from now name fetch (some value) v = (some value, v)
  lookup_from now name fetch none v = after_fetch now name (fetched (fetch name)) v

  unfoldable pub lookup_secret : ℕ → Str → (Str → Option Str) → Vault → Option Str × Vault
  unfolding cached fetched remember
  lookup_secret now name fetch v = lookup_from now name fetch (cached now name v) v

-- trimBytes
abbrev pub is_trimmed : ℕ → Bool
is_trimmed c = (c == 10) || (c == 13) || (c == 32)

unfoldable pub trim_bytes : Str → Str
trim_bytes b = trim_right is_trimmed b

abbrev pub key_bytes : ℕ
key_bytes = 32

module _ (decode_hex decode_base64 : Str → Option Str) (encode_base64 : Str → Str) where
  abbrev pub of_key_size : Option Str → Option Str
  of_key_size none = none
  of_key_size (some k) = if length k == key_bytes then some k else none

  abbrev pub or_else : Option Str → Option Str → Option Str
  or_else none o = o
  or_else (some k) o = some k

  -- DecodeMasterKey
  unfoldable pub decode_master_key : Str → Option Str
  decode_master_key s = or_else (of_key_size (decode_hex s)) (of_key_size (decode_base64 s))

  abbrev pub file_key : Option Str → Option Str
  file_key none = none
  file_key (some text) = decode_master_key (trim_bytes text)

  abbrev pub or_generated : Str → Option Str → Option Str → Str × Option Str
  or_generated k file (some old) = (old, file)
  or_generated k file none = (k, some (encode_base64 k))

  -- LoadOrCreateMasterKey: the key, and the file afterwards; none is a file that cannot be read.
  -- `k` is the key that GenerateMasterKey draws; writing does not fail.
  unfoldable pub load_or_create_master_key : Str → Option Str → Str × Option Str
  unfolding decode_master_key trim_bytes
  load_or_create_master_key k file = or_generated k file (file_key file)
