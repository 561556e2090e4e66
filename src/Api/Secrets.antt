-- ===== src/Api/Secrets.antt =====
-- internal/httpapi/secrets.go, and the lookup of a secret that the execute and realtime handlers hand
-- to the resolver. Sealing draws a nonce, which is an argument.
pub mod Fresh
use mathlib.Core.Option
use post_lite.Base.{
  leb, ◌==◌, all, Str, str_eq, ℕ, Bool, false, not, ◌&&◌, ◌||◌, Option, List, [], ◌∷◌, map,
}
use post_lite.Crypto.Vault.{Aead, invalidate, seal_blob, lookup_secret}
use post_lite.Store.{User}
use post_lite.Store.Secrets.{
  create_secret, update_secret, SecretMeta, list_secrets, get_secret, delete_secret,
}
use post_lite.Api.{
  State, audit, M, ◌>>=◌, ◌>>◌, respond, is_missing, check, gets, modify, change_vault, attempt,
  require_admin, decode,
}

abbrev pub is_letter : ℕ → Bool
is_letter c = (leb b'a' c && leb c b'z') || (leb b'A' c && leb c b'Z')

abbrev pub is_secret_byte : ℕ → Bool
is_secret_byte c =
    is_letter c || (leb b'0' c && leb c b'9') || (c == b'.') || (c == b'_') || (c == b'-')

-- ^[a-zA-Z][a-zA-Z0-9._-]*$
abbrev pub is_secret_name : Str → Bool
is_secret_name [] = false
is_secret_name (c ∷ s) = is_letter c && all is_secret_byte s

pub record SecretBody : Type 0 where
  pub name : Str
  pub value : Str

module _ (a : Aead) where
  -- secretLookup: what the store holds, through the vault
  unfoldable pub secret_of : ℕ → Str → State → Option Str × State
  secret_of clock name s =
      let (found, v) = lookup_secret a clock name (λ n. get_secret n s.db) s.vault in
      (found, record s { vault = v })

  module _ (requester : Option User) where
    unfoldable pub create_secret_handler : ℕ → Str → Option SecretBody → M ℕ
    create_secret_handler now nonce body = do
      admin ← require_admin requester
      b ← decode body
      check (is_secret_name b.name) 400 "bad_request"
      check (not (str_eq b.value [])) 400 "bad_request"
      old ← gets (get_secret b.name)
      check (is_missing old) 409 "conflict"
      id ← attempt 500 "internal" (create_secret now b.name (seal_blob a nonce b.value) admin.id)
      change_vault invalidate
      audit admin "secret.create" id b.name
      respond id

    unfoldable pub update_secret_handler : ℕ → Str → Str → Option Str → M (Unit {0})
    update_secret_handler now nonce name body = do
      admin ← require_admin requester
      check (is_secret_name name) 400 "bad_request"
      value ← decode body
      check (not (str_eq value [])) 400 "bad_request"
      attempt 404 "not_found" (λ db.
          Option.map (λ db'. (tt, db')) (update_secret now name (seal_blob a nonce value) db))
      change_vault invalidate
      audit admin "secret.update" 0 name

    unfoldable pub list_secrets_handler : M (List SecretMeta)
    list_secrets_handler = do admin ← require_admin requester; gets list_secrets

    unfoldable pub delete_secret_handler : Option ℕ → M ℕ
    delete_secret_handler id_param = do
      admin ← require_admin requester
      id ← decode id_param
      modify (delete_secret id)
      change_vault invalidate
      audit admin "secret.delete" id []
      respond id
