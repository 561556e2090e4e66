-- ===== src/Tests/Vault.antt =====
-- The vault and its cache at concrete inputs.
use post_lite.Api.{State}
use post_lite.Crypto.Vault.Race.{lookup_secret_stale}
use post_lite.Store.Secrets.{find_secret, create_secret, update_secret, get_secret, delete_secret}
use post_lite.Base.{
  Str, codes, cut_prefix, lookup, delete, insert, encode_hex, decode_hex, ◌≡◌, refl, Option, none,
  some, List, [], ◌∷◌, ◌++◌, arith,
}
use post_lite.Crypto.Vault.{
  Aead, new_vault, invalidate, seal_blob, open_blob, cached, fetched, remember, after_fetch,
  lookup_secret, trim_bytes, decode_master_key, load_or_create_master_key,
}
use post_lite.Api.Secrets.{
  secret_of, create_secret_handler, update_secret_handler, delete_secret_handler,
}
use post_lite.Api.Secrets.Fresh.{
  Event, create, change, look_up, happen, happened, held, secret_of-happened,
}
use post_lite.Tests.Store.{tables, root, bob, db}

unfoldable pub vaults : Unit {0}
unfolding tables seal_blob open_blob cached fetched remember lookup_secret invalidate trim_bytes
    decode_master_key load_or_create_master_key happen happened secret_of create_secret_handler
    update_secret_handler delete_secret_handler create_secret update_secret get_secret delete_secret
    find_secret delete lookup insert decode_hex encode_hex
vaults = tt

pub cut_prefix-append : (p s : Str) → cut_prefix (p ++ s) p ≡ some s
cut_prefix-append [] s = refl
cut_prefix-append (c ∷ p) s = ground (arith, cut_prefix-append p s)

-- A cipher that hides nothing, with the nonce as the tag
abbrev open_with : Str → Str → Option Str
open_with nonce text = cut_prefix text nonce

abbrev pub plainly : Aead
plainly = record {
  seal = λ nonce plain. nonce ++ plain;
  unseal = open_with;
  unseal-seal = cut_prefix-append;
}

abbrev pub nonce : Str
nonce = codes "0123456789ab"

-- Encoded with a mark in front, which is no digit
abbrev marked : Str → Str
marked k = b'!' ∷ k

abbrev unmarked : Str → Option Str
unmarked e = cut_prefix e (codes "!")

abbrev key : Str
key = codes "0123456789abcdef0123456789abcdef"

-- A hex key with a newline at its end is loaded.
key_tests :
    load_or_create_master_key decode_hex unmarked marked
      (codes "other")
      (some (encode_hex key ++ 10 ∷ []))
    ≡ (key, some (encode_hex key ++ 10 ∷ []))
unfolding vaults
key_tests = refl

lookup_secret_stale_example :
    let blob = seal_blob plainly nonce (codes "old") in
    let blob' = seal_blob plainly nonce (codes "new") in
    let fetch_old = λ (n : Str). some blob in
    let fetch_new = λ (n : Str). some blob' in
    let before = invalidate (lookup_secret plainly 8 (codes "api") fetch_old new_vault).1 in
    let across =
      (after_fetch plainly 8
        (codes "api")
        (fetched plainly (fetch_old (codes "api")))
        (invalidate new_vault)).1 in
    ((lookup_secret plainly 9 (codes "api") fetch_new before).0 ≡ some (codes "new"))
    × ((lookup_secret plainly 9 (codes "api") fetch_new across).0 ≡ some (codes "old"))
unfolding vaults
lookup_secret_stale_example =
    lookup_secret_stale plainly new_vault 8 9 (codes "api") (seal_blob plainly nonce (codes "old"))
      (seal_blob plainly nonce (codes "new")) (codes "old") (codes "new") refl refl refl
      (omega arith)

abbrev pub empty : State
empty = record {
  db = db;
  limiter = record { m = [] };
  audit = [];
  crypto = none;
  vault = new_vault;
  transports = [];
}

-- Created, looked up, updated
abbrev writes : List Event
writes =
    change (some root) 7 nonce (codes "api") (some (codes "v2"))
    ∷ look_up 6 (codes "api")
    ∷ create (some root) 5 nonce (some (record { name = codes "api"; value = codes "v1" }))
    ∷ []

secret_of-happened_example :
    (secret_of plainly 8 (codes "api") (happened plainly writes empty)).0
    ≡ held plainly (codes "api") (happened plainly writes empty).db
secret_of-happened_example = secret_of-happened plainly writes empty 8 (codes "api") refl

secret_tests :
    ((secret_of plainly 8 (codes "api") (happened plainly writes empty)).0 ≡ some (codes "v2"))
    × ((secret_of plainly 8 (codes "db") (happened plainly writes empty)).0 ≡ none)
    × ((happened plainly
          (create (some bob) 5 nonce (some (record { name = codes "api"; value = codes "v1" }))
            ∷ [])
          empty).db.secrets
        ≡ [])
unfolding vaults
secret_tests = (refl, refl, refl)
