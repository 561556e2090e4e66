-- ===== src/Api/Exchange/Import.antt =====
-- What an import leaves in the store.
use post_lite.Api.{State, ret, and_then-eq-ret, attempt}
use post_lite.Api.Exchange.{
  ExpRequest, new_id, mapped_id, headers_text, query_text, payload_of, import_requests,
}
use post_lite.Base.{
  ◌==◌, if◌then◌else◌, Option-cases, Str, codes, GoMap, ℕ, ◌+◌, ◌≡◌, refl, sym, ap, ◌∙◌, inl, inr,
  Bool, true, false, Option, none, some, List, [], ◌∷◌, ◌++◌, map, append_assoc, append-nil, arith,
}
use post_lite.Store.{Request, Db, last_id, keep}
use post_lite.Store.Requests.{RequestPayload, or_default, row, create_request, list_requests}

map-append {ℓ κ} :
    {A : Type ℓ} {B : Type κ} (f : A → B) (xs ys : List A) → map f (xs ++ ys) ≡ map f xs ++ map f ys
map-append f [] ys = refl
map-append f (x ∷ xs) ys = ap (λ l. f x ∷ l) (map-append f xs ys)

keep-append :
    (p : Request → Bool) (xs : List Request) (x : Request)
    → p x ≡ true
    → keep p (xs ++ x ∷ []) ≡ keep p xs ++ x ∷ []
unfolding keep
keep-append p [] x h = ground arith
keep-append p (y ∷ xs) x h = ground (arith, keep-append p xs x h)

-- A row without its id
abbrev pub content : Request → Request
content r = record r { id = 0 }

abbrev pub contents : ℕ → Db → List Request
contents i db = map content (list_requests i db)

contents-create_request :
    (now : ℕ) (p : RequestPayload) (owner : Option ℕ) (db : Db) (i : ℕ) (db' : Db)
    → create_request now p owner db ≡ some (i, db')
    → contents p.collection_id db' ≡ contents p.collection_id db ++ row now 0 owner p ∷ []
unfolding create_request list_requests row
contents-create_request now p owner db i db' made =
    let new : Request = row now (last_id Request.id db.requests + 1) owner p in
    let p_of = λ (r : Request). r.collection_id == p.collection_id in
    let grown : db'.requests ≡ db.requests ++ new ∷ [] = ground arith in
    ap (λ rs. map content (keep p_of rs)) grown
    ∙ ap (map content) (keep-append p_of db.requests new (ground arith))
    ∙ map-append content (keep p_of db.requests) (new ∷ [])

attempt_db :
    (now : ℕ) (p : RequestPayload) (owner : Option ℕ) (s s' : State) (i : ℕ)
    → attempt 500 "internal" (create_request now p owner) s ≡ (ret i, s')
    → (j : ℕ) × (create_request now p owner s.db ≡ some (j, s'.db))
attempt_db now p owner s s' i done = elim (Option-cases (create_request now p owner s.db)) [
  | inl refused ↦ absurd (ground arith)
  | inr ((j, db'), made) ↦ (j, made ∙ ap (λ db. some (j, db)) (ground arith))
]

module _ (parse_headers : Str → Option (GoMap Str)) (parse_query : Str → List (Str × Str))
    (show_headers : GoMap Str → Str) (show_query : List (Str × Str) → Str) where
  abbrev or_text : Str → Str → Str
  or_text default [] = default
  or_text default (c ∷ s) = c ∷ s

  abbrev encoded {ℓ} : {A : Type ℓ} → (A → Str) → Option A → Str
  encoded show none = []
  encoded show (some a) = show a

  -- The id that a folder got, by the id that it had in the file: the latest one of a list of both
  abbrev folder_after : Option ℕ → List (ℕ × ℕ) → Option ℕ
  folder_after none ids = none
  folder_after (some i) [] = none
  folder_after (some i) ((old, new) ∷ ids) =
      let earlier = folder_after (some i) ids in if old == i then some new else earlier

  new_id-after : (i : ℕ) (ids : List (ℕ × ℕ)) → new_id i ids ≡ folder_after (some i) ids
  unfolding new_id
  new_id-after i [] = refl
  new_id-after i ((old, new) ∷ ids) =
      ap (λ o. if old == i then some new else o) (new_id-after i ids)

  mapped_id-after : (o : Option ℕ) (ids : List (ℕ × ℕ)) → mapped_id o ids ≡ folder_after o ids
  mapped_id-after none ids = refl
  mapped_id-after (some i) ids = new_id-after i ids

  -- The row, but for its id, that the request of the file becomes
  abbrev pub imported : ℕ → Option ℕ → ℕ → List (ℕ × ℕ) → ExpRequest → Request
  imported now owner collection_id ids e = record {
    id = 0;
    collection_id = collection_id;
    folder_id = folder_after e.folder_id ids;
    owner_id = owner;
    name = e.name;
    protocol = or_text (codes "http") e.protocol;
    method = e.method;
    url = e.url;
    headers = encoded show_headers e.headers;
    query = encoded show_query e.query;
    body_type = or_text (codes "none") e.body_type;
    body = e.body;
    variables = e.variables;
    script = e.script;
    test_script = e.test_script;
    use_proxy = false;
    updated_at = now;
  }

  or_default-or_text : (s default : Str) → or_default s default ≡ or_text default s
  unfolding or_default
  or_default-or_text [] default = refl
  or_default-or_text (c ∷ s) default = refl

  headers-encoded :
      (h : Option (GoMap Str))
      → headers_text parse_headers parse_query show_headers show_query h ≡ encoded show_headers h
  headers-encoded none = refl
  headers-encoded (some m) = refl

  query-encoded :
      (q : Option (List (Str × Str)))
      → query_text parse_headers parse_query show_headers show_query q ≡ encoded show_query q
  query-encoded none = refl
  query-encoded (some m) = refl

  row-payload_of :
      (now : ℕ) (owner : Option ℕ) (collection_id : ℕ) (ids : List (ℕ × ℕ)) (e : ExpRequest)
      → row now 0 owner
          (payload_of parse_headers parse_query show_headers show_query collection_id ids e)
        ≡ imported now owner collection_id ids e
  unfolding row payload_of
  row-payload_of now owner collection_id ids e =
      rw
        (
          or_default-or_text e.protocol (codes "http"),
          or_default-or_text e.body_type (codes "none"),
          headers-encoded e.headers,
          query-encoded e.query,
          mapped_id-after e.folder_id ids,
        )
        refl

  -- Where the loop of an import over the requests succeeds, it has added exactly these to the collection,
  -- in their order: with the new owner, in the folders that their old ones have become, with their
  -- headers and query as text, with "http" and "none" where protocol and body type are empty, with
  -- all their other columns as they are, and without the preference for a proxy.
  pub contents-import_requests :
      (now collection_id : ℕ) (owner : Option ℕ) (ids : List (ℕ × ℕ)) (rs : List ExpRequest)
      (s s' : State)
      → import_requests parse_headers parse_query show_headers show_query now collection_id owner
          ids rs s
        ≡ (ret tt, s')
      → contents collection_id s'.db
        ≡ contents collection_id s.db ++ map (imported now owner collection_id ids) rs
  unfolding import_requests
  contents-import_requests now cid owner ids [] s s' done =
      ap (λ m. contents cid m.1.db) (sym done) ∙ sym (append-nil (contents cid s.db))
  contents-import_requests now cid owner ids (r ∷ rs) s s' done =
      let p = payload_of parse_headers parse_query show_headers show_query cid ids r in
      let (i, s₁, first, rest) =
        and_then-eq-ret (attempt 500 "internal" (create_request now p owner) s)
          (λ i.
            import_requests parse_headers parse_query show_headers show_query now cid owner ids rs)
          tt s' done in
      let (j, made) = attempt_db now p owner s s₁ i first in
      contents-import_requests now cid owner ids rs s₁ s' rest
      ∙ ap (λ l. l ++ map (imported now owner cid ids) rs)
          (contents-create_request now p owner s.db j s₁.db made
            ∙ ap (λ x. contents cid s.db ++ x ∷ []) (row-payload_of now owner cid ids r))
      ∙ append_assoc (contents cid s.db) (imported now owner cid ids r ∷ [])
          (map (imported now owner cid ids) rs)
