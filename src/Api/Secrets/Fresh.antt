-- ===== src/Api/Secrets/Fresh.antt =====
-- The cache of the vault against the store.
use post_lite.Base.{
  if◌then◌else◌, Bool-cases, Option-cases, Str, str_eq, str_eq_iff, lookup, lookup-insert, ℕ, ◌+◌,
  ◌≡◌, refl, sym, ◌∙◌, ◌⊎◌, inl, inr, Bool, true, Option, some, List, [], ◌∷◌, arith,
}
use post_lite.Crypto.Vault.{
  Aead, cache_ttl, CacheEntry, Vault, new_vault, invalidate, cached, fetched, remember,
  lookup_secret,
}
use post_lite.Store.{User, Db}
use post_lite.Store.Secrets.{create_secret, update_secret, get_secret}
use post_lite.Api.{State}
use post_lite.Api.Secrets.{
  SecretBody, secret_of, create_secret_handler, update_secret_handler, delete_secret_handler,
}

pub data Event : Type 0 where
  create : Option User → ℕ → Str → Option SecretBody → Event
  change : Option User → ℕ → Str → Str → Option Str → Event
  remove : Option User → Option ℕ → Event
  look_up : ℕ → Str → Event

module _ (a : Aead) where
  unfoldable pub happen : Event → State → State
  happen (create r now nonce b) s = (create_secret_handler a r now nonce b s).1
  happen (change r now nonce name b) s = (update_secret_handler a r now nonce name b s).1
  happen (remove r i) s = (delete_secret_handler a r i s).1
  happen (look_up clock name) s = (secret_of a clock name s).1

  -- The newest stands first.
  unfoldable pub happened : List Event → State → State
  unfolding happen
  happened [] s = s
  happened (e ∷ es) s = happen e (happened es s)

  -- What a lookup promises: the secret that the store holds, decrypted
  abbrev pub held : Str → Db → Option Str
  held name db = fetched a (get_secret name db)

  -- What is in the cache and of this generation is what the store holds.
  abbrev IsFresh : State → Type 0
  IsFresh s =
      (name : Str) (e : CacheEntry)
      → lookup name s.vault.cache ≡ some e
      → e.gen ≡ s.vault.gen
      → held name s.db ≡ some e.value

  -- A handler leaves secrets and vault alone, or leaves an empty cache.
  abbrev Clears : State → State → Type 0
  Clears s s' = ((s'.db.secrets ≡ s.db.secrets) × (s'.vault ≡ s.vault)) ⊎ (s'.vault.cache ≡ [])

  create-Clears :
      (r : Option User) (now : ℕ) (nonce : Str) (b : Option SecretBody) (s : State)
      → Clears s (create_secret_handler a r now nonce b s).1
  unfolding create_secret_handler create_secret invalidate
  create-Clears r now nonce b s = ground arith

  change-Clears :
      (r : Option User) (now : ℕ) (nonce name : Str) (b : Option Str) (s : State)
      → Clears s (update_secret_handler a r now nonce name b s).1
  unfolding update_secret_handler update_secret invalidate
  change-Clears r now nonce name b s = ground arith

  remove-Clears :
      (r : Option User) (i : Option ℕ) (s : State) → Clears s (delete_secret_handler a r i s).1
  unfolding delete_secret_handler invalidate
  remove-Clears r i s = ground arith

  Clears-IsFresh : (s s' : State) → Clears s s' → IsFresh s → IsFresh s'
  unfolding get_secret lookup
  Clears-IsFresh s s' (inl (same, kept)) h name e found now =
      rw same (h name e (rw (← kept) found) (ground arith))
  Clears-IsFresh s s' (inr empty) h name e found now = absurd (ground arith)

  cached-eq-some :
      (clock : ℕ) (name value : Str) (v : Vault)
      → cached a clock name v ≡ some value
      → (e : CacheEntry) × (lookup name v.cache ≡ some e) × (e.gen ≡ v.gen) × (e.value ≡ value)
  unfolding cached
  cached-eq-some clock name value v hit = elim (Option-cases (lookup name v.cache)) [
    | inl missed ↦ absurd (ground arith)
    | inr (e, found) ↦ (e, found, ground arith, ground arith)
  ]

  value_here :
      (b : Bool) (new e : CacheEntry) (o : Option CacheEntry)
      → b ≡ true
      → (if b then some new else o) ≡ some e
      → some new.value ≡ some e.value
  value_here b new e o here found = ground arith

  remember-IsFresh :
      (clock : ℕ) (name plain : Str) (s : State)
      → held name s.db ≡ some plain
      → IsFresh s
      → IsFresh (record s { vault = remember a clock name plain s.vault })
  unfolding remember
  remember-IsFresh clock name plain s known h other e found now =
      let new : CacheEntry = record {
        value = plain;
        expires = clock + cache_ttl;
        gen = s.vault.gen;
      } in
      let at_other = sym (lookup-insert name other new s.vault.cache) ∙ found in
      elim (Bool-cases (str_eq name other)) [
        | inl same ↦
            let known_other : held other s.db ≡ some plain =
              rw (← (str_eq_iff name other).0 same) known in
            known_other
            ∙ value_here (str_eq name other) new e (lookup other s.vault.cache) same at_other
        | inr ne ↦ h other e (ground arith) now
      ]

  -- A lookup finds what the store holds, and leaves the cache fresh.
  secret_of_lem :
      (clock : ℕ) (name : Str) (s : State)
      → IsFresh s
      → ((secret_of a clock name s).0 ≡ held name s.db) × IsFresh (secret_of a clock name s).1
  unfolding secret_of lookup_secret
  secret_of_lem clock name s h = elim (Option-cases (cached a clock name s.vault)) [
    | inr (value, hit) ↦
        let (e, found, now, same) = cached-eq-some clock name value s.vault hit in
        rw hit (rw (← same) (sym (h name e found now)), h)
    | inl miss ↦ elim (Option-cases (held name s.db)) [
      | inl gone ↦ rw (miss, gone) (refl, h)
      | inr (plain, known) ↦ rw (miss, known) (refl, remember-IsFresh clock name plain s known h)
    ]
  ]

  happen-IsFresh : (e : Event) (s : State) → IsFresh s → IsFresh (happen e s)
  unfolding happen
  happen-IsFresh (create r now nonce b) s h =
      Clears-IsFresh s (create_secret_handler a r now nonce b s).1 (create-Clears r now nonce b s) h
  happen-IsFresh (change r now nonce name b) s h =
      Clears-IsFresh s (update_secret_handler a r now nonce name b s).1
        (change-Clears r now nonce name b s) h
  happen-IsFresh (remove r i) s h =
      Clears-IsFresh s (delete_secret_handler a r i s).1 (remove-Clears r i s) h
  happen-IsFresh (look_up clock name) s h = (secret_of_lem clock name s h).1

  happened-IsFresh : (es : List Event) (s : State) → IsFresh s → IsFresh (happened es s)
  unfolding happened
  happened-IsFresh [] s h = h
  happened-IsFresh (e ∷ es) s h = happen-IsFresh e (happened es s) (happened-IsFresh es s h)

  new-IsFresh : (s : State) → s.vault ≡ new_vault → IsFresh s
  unfolding lookup
  new-IsFresh s new name e found now = absurd (ground arith)

  -- The cache is never seen: after any sequence of requests that write secrets, by anyone, and of
  -- lookups at any times, one after the other, a lookup through the vault gives what the store holds
  -- then, decrypted.
  pub secret_of-happened :
      (es : List Event) (s : State) (clock : ℕ) (name : Str)
      → s.vault ≡ new_vault
      → (secret_of a clock name (happened es s)).0 ≡ held name (happened es s).db
  secret_of-happened es s clock name new =
      (secret_of_lem clock name (happened es s) (happened-IsFresh es s (new-IsFresh s new))).0
