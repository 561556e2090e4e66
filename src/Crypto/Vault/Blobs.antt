-- ===== src/Crypto/Vault/Blobs.antt =====
-- Sealed blobs.
use post_lite.Base.{
  length, take, drop, length-append, take_append_length, drop_append_length, Str, ◌≡◌, some, ◌++◌,
  arith,
}
use post_lite.Crypto.Vault.{Aead, nonce_bytes, seal_blob, open_blob}

module _ (a : Aead) (nonce plain : Str) (sized : length nonce ≡ nonce_bytes) where
  nonce_taken : take nonce_bytes (nonce ++ a.seal nonce plain) ≡ nonce
  nonce_taken = rw (← sized) (take_append_length nonce (a.seal nonce plain))

  nonce_dropped : drop nonce_bytes (nonce ++ a.seal nonce plain) ≡ a.seal nonce plain
  nonce_dropped = rw (← sized) (drop_append_length nonce (a.seal nonce plain))

  -- What was sealed with a nonce of twelve bytes is opened again.
  pub open_blob-seal_blob : open_blob a (seal_blob a nonce plain) ≡ some plain
  unfolding open_blob seal_blob
  open_blob-seal_blob =
      rw (nonce_taken, nonce_dropped, a.unseal-seal)
        (ground (arith, length-append nonce (a.seal nonce plain)))
