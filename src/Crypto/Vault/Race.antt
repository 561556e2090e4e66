-- ===== src/Crypto/Vault/Race.antt =====
-- Lookup that is under way while a secret is written (internal/crypto/secret.go).
use post_lite.Base.{Str, str_eq_iff, lookup, insert, ℕ, ◌+◌, ◌<◌, ◌≡◌, none, some, arith}
use post_lite.Crypto.Vault.{
  Aead, cache_ttl, Vault, invalidate, open_blob, cached, fetched, remember, after_fetch,
  lookup_secret,
}

module _ (a : Aead) where
  -- A secret that is not cached is looked up while it is written anew; the write stores the new blob and
  -- then invalidates the vault. If the whole lookup comes before the invalidation, the next lookup
  -- fetches the new value. If its fetch comes before and its write into the cache after, the next
  -- lookups of 5 minutes give the old value, although the new blob is stored: the entry is marked
  -- with the generation of its writing, not of its fetch.
  pub lookup_secret_stale :
      (v : Vault) (now later : ℕ) (name blob blob' old new : Str)
      → cached a now name v ≡ none
      → open_blob a blob ≡ some old
      → open_blob a blob' ≡ some new
      → later < now + cache_ttl
      → let fetch_old = λ (n : Str). some blob in
        let fetch_new = λ (n : Str). some blob' in
        let before = invalidate (lookup_secret a now name fetch_old v).1 in
        let across = (after_fetch a now name (fetched a (fetch_old name)) (invalidate v)).1 in
        ((lookup_secret a later name fetch_new before).0 ≡ some new)
        × ((lookup_secret a later name fetch_new across).0 ≡ some old)
  unfolding lookup_secret cached remember invalidate lookup insert fetched
  lookup_secret_stale v now later name blob blob' old new missing was is soon =
      (ground arith, ground (arith, str_eq_iff name name))
