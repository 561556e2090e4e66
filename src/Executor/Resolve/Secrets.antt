-- ===== src/Executor/Resolve/Secrets.antt =====
-- What a resolver records of what it has put in, and what it could not resolve.
use post_lite.Base.{
  Bool-cases, Option-cases, length, any, All, All-concat, Str, codes, str_eq, str_eq_iff,
  str_eq_refl, contains, cut_prefix, GoMap, lookup, lookup-insert, ℕ, zero, suc, ◌+◌, ◌≡◌, refl,
  ◌≢◌, inl, inr, Bool, true, false, Option, none, some, List, [], ◌∷◌, ◌++◌, map, arith,
}
use post_lite.Executor.Resolve.Tokens.{
  Token, literal, variable, IsPlain, print, expand, resolve-print,
}
use post_lite.Executor.Redact.{is_member, new_redactor, text}
use post_lite.Executor.Redact.Masking.{NoStar, text-new_redactor}
use post_lite.Executor.Resolve.{
  placeholder, Resolver, new_resolver, add_once, unresolved, substitute, resolve_from, resolve,
  used_secrets,
}

-- A name is resolved if the environment or the vault has it.
unfoldable pub is_known : (Str → Option Str) → GoMap Str → Str → Bool
is_known secret values name = elim (lookup name values) [
  | some v ↦ true
  | none ↦ elim (cut_prefix name (codes "sec.")) [
    | none ↦ false
    | some rest ↦ elim (secret rest) [ none ↦ false | some v ↦ true ]
  ]
]

pub record IsHonest (secret : Str → Option Str) (values : GoMap Str) (r : Resolver) : Type 0 where
  pub same_values : r.values ≡ values
  pub unknown : All (λ w. is_known secret values w ≡ false) r.warnings
  pub genuine : (n v : Str) → lookup n r.used ≡ some v → secret n ≡ some v

All-add_once : (P : Str → Type 0) (w : Str) (ws : List Str) → P w → All P ws → All P (add_once w ws)
unfolding add_once
All-add_once P w ws p h = elim (Bool-cases (any (str_eq w) ws)) [
  | inl old ↦ rw old h
  | inr new ↦ rw new (All-concat P w ws p h)
]

module _ (secret : Str → Option Str) (values : GoMap Str) where
  unresolved-IsHonest :
      (name : Str) (r : Resolver)
      → is_known secret values name ≡ false
      → IsHonest secret values r
      → IsHonest secret values (unresolved name r).1
  unresolved-IsHonest name r u h = record {
    same_values = h.same_values;
    unknown = All-add_once _ name r.warnings u h.unknown;
    genuine = h.genuine;
  }

  substitute-IsHonest :
      (name : Str) (r : Resolver)
      → IsHonest secret values r
      → IsHonest secret values (substitute secret name r).1
  unfolding substitute
  substitute-IsHonest name r h = elim (Option-cases (lookup name r.values)) [
    | inr (v, hit) ↦ rw hit h
    | inl miss ↦ elim (Option-cases (cut_prefix name (codes "sec."))) [
      | inl plain ↦
          rw (miss, plain) (unresolved-IsHonest name r (unfold is_known in ground arith) h)
      | inr (rest, found) ↦ elim (Option-cases (secret rest)) [
        | inl gone ↦
            rw (miss, found, gone) (unresolved-IsHonest name r (unfold is_known in ground arith) h)
        | inr (v, opened) ↦
            rw (miss, found, opened)
              (record {
                same_values = h.same_values;
                unknown = h.unknown;
                genuine = λ n w e.
                    ground (arith, lookup-insert rest n v r.used, h.genuine n w, str_eq_iff rest n);
              })
      ]
    ]
  ]

  resolve_from-IsHonest :
      (skip : ℕ) (s : Str) (r : Resolver)
      → IsHonest secret values r
      → IsHonest secret values (resolve_from secret skip s r).1
  unfolding resolve_from
  resolve_from-IsHonest skip [] r h = h
  resolve_from-IsHonest (suc skip) (c ∷ s) r h = resolve_from-IsHonest skip s r h
  resolve_from-IsHonest zero (c ∷ s) r h = elim (Option-cases (placeholder (c ∷ s))) [
    | inl miss ↦ rw (miss, resolve_from) (resolve_from-IsHonest zero s r h)
    | inr (name, hit) ↦
        rw (hit, resolve_from)
          (resolve_from-IsHonest (length name + 3) s (substitute secret name r).1
            (substitute-IsHonest name r h))
  ]

new_resolver-IsHonest :
    (secret : Str → Option Str) (values : GoMap Str) → IsHonest secret values (new_resolver values)
unfolding lookup
new_resolver-IsHonest secret values = record {
  same_values = refl;
  unknown = tt;
  genuine = λ n v e. cc;
}

-- Whatever the text, a new resolver ends with the values it began with, warns only of names that
-- neither the environment nor the vault has, and records as used only what the vault holds.
pub resolve-IsHonest :
    (secret : Str → Option Str) (values : GoMap Str) (s : Str)
    → IsHonest secret values (resolve secret s (new_resolver values)).1
unfolding resolve
resolve-IsHonest secret values s =
    resolve_from-IsHonest secret values 0 s _ (new_resolver-IsHonest secret values)

-- A name that stands for the secret `n`, which has the value `v`.
pub record Names (secret : Str → Option Str) (values : GoMap Str) (name n v : Str) : Type 0 where
  pub free : lookup name values ≡ none
  pub prefixed : cut_prefix name (codes "sec.") ≡ some n
  pub held : secret n ≡ some v

module _ (secret : Str → Option Str) (values : GoMap Str) where
  substitute_records :
      (name n v : Str) (r : Resolver)
      → IsHonest secret values r
      → Names secret values name n v
      → lookup n (substitute secret name r).1.used ≡ some v
  unfolding substitute
  substitute_records name n v r h e =
      rw (h.same_values, e.free, e.prefixed, e.held) (rw (lookup-insert, str_eq_refl n))

  substitute_keeps :
      (name n v : Str) (r : Resolver)
      → IsHonest secret values r
      → lookup n r.used ≡ some v
      → lookup n (substitute secret name r).1.used ≡ some v
  unfolding substitute
  substitute_keeps name n v r h e = elim (Option-cases (lookup name r.values)) [
    | inr (w, hit) ↦ rw hit e
    | inl miss ↦ elim (Option-cases (cut_prefix name (codes "sec."))) [
      | inl plain ↦ rw (miss, plain) e
      | inr (rest, found) ↦ elim (Option-cases (secret rest)) [
        | inl gone ↦ rw (miss, found, gone) e
        | inr (w, opened) ↦
            rw (miss, found, opened)
              (ground (arith, lookup-insert rest n w r.used, str_eq_iff rest n, h.genuine n v e))
      ]
    ]
  ]

  expand_keeps :
      (ts : List Token) (n v : Str) (r : Resolver)
      → IsHonest secret values r
      → lookup n r.used ≡ some v
      → lookup n (expand secret ts r).1.used ≡ some v
  unfolding expand
  expand_keeps [] n v r h e = e
  expand_keeps (literal c ∷ ts) n v r h e = expand_keeps ts n v r h e
  expand_keeps (variable name ∷ ts) n v r h e =
      expand_keeps ts n v (substitute secret name r).1 (substitute-IsHonest secret values name r h)
        (substitute_keeps name n v r h e)

  expand_records :
      (before after : List Token) (name n v : Str) (r : Resolver)
      → IsHonest secret values r
      → Names secret values name n v
      → lookup n (expand secret (before ++ variable name ∷ after) r).1.used ≡ some v
  unfolding expand
  expand_records [] after name n v r h e =
      expand_keeps after n v (substitute secret name r).1
        (substitute-IsHonest secret values name r h) (substitute_records name n v r h e)
  expand_records (literal c ∷ before) after name n v r h e =
      expand_records before after name n v r h e
  expand_records (variable x ∷ before) after name n v r h e =
      expand_records before after name n v (substitute secret x r).1
        (substitute-IsHonest secret values x r h) e

is_member-lookup :
    (m : GoMap Str) (n v : Str) → lookup n m ≡ some v → is_member v (map (λ p. p.1) m) ≡ true
unfolding lookup
is_member-lookup [] n v e = absurd (cc)
is_member-lookup ((k, w) ∷ m) n v e = ground (arith, is_member-lookup m n v, str_eq_refl v)

-- A secret that a placeholder of the text names is masked afterwards: in whatever text the
-- redactor of the used secrets masks, the secret's value does not occur, if it is not empty and
-- has no star in it.
pub used_secrets_masked :
    (secret : Str → Option Str) (values : GoMap Str) (before after : List Token) (name n v s : Str)
    → All IsPlain (before ++ variable name ∷ after)
    → Names secret values name n v
    → v ≢ []
    → NoStar v
    → (let r = (resolve secret (print (before ++ variable name ∷ after)) (new_resolver values)).1 in
        contains (text (new_redactor (used_secrets r)) s) v ≡ false)
used_secrets_masked secret values before after name n v s plain e full clean =
    let r = new_resolver values in
    rw (resolve-print secret (before ++ variable name ∷ after) r plain) (
      text-new_redactor _ v s
        (is_member-lookup _ n v (
          expand_records secret values before after name n v r (new_resolver-IsHonest secret values)
            e))
        full clean)
