-- ===== src/Api/Exchange/Keeps.antt =====
-- What import, and with it every request of the collection handlers, leaves of the collections that are
-- there.
use post_lite.Base.{
  if◌then◌else◌, Bool-cases, Option-cases, Str, GoMap, ℕ, ◌≡◌, ◌∙◌, inl, inr, Bool, false, not,
  ◌||◌, Option, none, some, List, [], ◌∷◌, arith,
}
use post_lite.Store.{User, Collection, Db, is_admin}
use post_lite.Store.Access.{can_manage_collection}
use post_lite.Store.Collections.{create_collection, get_collection, create_folder}
use post_lite.Store.Requests.{RequestPayload, create_request}
use post_lite.Api.{State, audit, Res, ret, fail, M, and_then, ◌>>=◌, ◌>>◌, respond, attempt}
use post_lite.Api.Exchange.{
  ExpFolder, ExpRequest, ExpCollection, mapped_id, payload_of, import_folders, import_requests,
  import_collection_handler,
}
use post_lite.Api.Collections.{is_named}
use post_lite.Api.Collections.Access.{
  Call, handle, create_collection-keeps, create_folder-keeps, Keeps, handle-Keeps,
}

module _ (k : ℕ) (c : Collection) where
  and_then-Keeps {ℓ κ} :
      {A : Type ℓ} {B : Type κ} (r : Res A × State) (f : A → M B)
      → Keeps k c r.1
      → ((a : A) (s : State) → Keeps k c s → Keeps k c (f a s).1)
      → Keeps k c (and_then r f).1
  and_then-Keeps (ret a, s) f h next = next a s h
  and_then-Keeps (fail status code, s) f h next = h

  create_request-get_collection :
      (now i : ℕ) (p : RequestPayload) (owner : Option ℕ) (db db' : Db)
      → create_request now p owner db ≡ some (i, db')
      → get_collection k db' ≡ get_collection k db
  unfolding create_request get_collection
  create_request-get_collection now i p owner db db' made = ground arith

  attempt_collection-Keeps :
      (now : ℕ) (name : Str) (owner : Option ℕ) (s : State)
      → Keeps k c s
      → Keeps k c (attempt 500 "internal" (create_collection now name owner) s).1
  attempt_collection-Keeps now name owner s h =
      elim (Option-cases (create_collection now name owner s.db)) [
        | inl refused ↦ rw refused h
        | inr ((i, db'), made) ↦
            rw made (create_collection-keeps now k i name owner s.db db' c made h)
      ]

  attempt_folder-Keeps :
      (cid : ℕ) (parent : Option ℕ) (name : Str) (s : State)
      → Keeps k c s
      → Keeps k c (attempt 500 "internal" (create_folder cid parent name) s).1
  attempt_folder-Keeps cid parent name s h =
      elim (Option-cases (create_folder cid parent name s.db)) [
        | inl refused ↦ rw refused h
        | inr ((i, db'), made) ↦ rw made (create_folder-keeps k i cid parent name s.db db' made ∙ h)
      ]

  attempt_request-Keeps :
      (now : ℕ) (p : RequestPayload) (owner : Option ℕ) (s : State)
      → Keeps k c s
      → Keeps k c (attempt 500 "internal" (create_request now p owner) s).1
  attempt_request-Keeps now p owner s h = elim (Option-cases (create_request now p owner s.db)) [
    | inl refused ↦ rw refused h
    | inr ((i, db'), made) ↦ rw made (create_request-get_collection now i p owner s.db db' made ∙ h)
  ]

-- All requests that write collections or folders
pub data CollectionWrite : Type 0 where
  edit : Call → CollectionWrite
  load : ℕ → Option Bool → Option ExpCollection → CollectionWrite

module _ (parse_headers : Str → Option (GoMap Str)) (parse_query : Str → List (Str × Str))
    (show_headers : GoMap Str → Str) (show_query : List (Str × Str) → Str) where
  unfoldable pub write_collection : Option User → CollectionWrite → M ℕ
  write_collection r (edit call) = handle r call
  write_collection r (load now global exp) =
      import_collection_handler parse_headers parse_query show_headers show_query now r global exp

  module _ (k : ℕ) (c : Collection) where
    import_folders-Keeps :
        (cid : ℕ) (ids : List (ℕ × ℕ)) (fs : List ExpFolder) (s : State)
        → Keeps k c s
        → Keeps k c
            (import_folders parse_headers parse_query show_headers show_query cid ids fs s).1
    unfolding import_folders
    import_folders-Keeps cid ids [] s h = h
    import_folders-Keeps cid ids (f ∷ fs) s h =
        and_then-Keeps k c
          (attempt 500 "internal" (create_folder cid (mapped_id f.parent_id ids) f.name) s)
          (λ i.
            import_folders parse_headers parse_query show_headers show_query cid ((f.id, i) ∷ ids)
              fs)
          (attempt_folder-Keeps k c cid (mapped_id f.parent_id ids) f.name s h)
          (λ i s' h'. import_folders-Keeps cid ((f.id, i) ∷ ids) fs s' h')

    import_requests-Keeps :
        (now cid : ℕ) (owner : Option ℕ) (ids : List (ℕ × ℕ)) (rs : List ExpRequest) (s : State)
        → Keeps k c s
        → Keeps k c
            (import_requests parse_headers parse_query show_headers show_query now cid owner ids rs
              s).1
    unfolding import_requests
    import_requests-Keeps now cid owner ids [] s h = h
    import_requests-Keeps now cid owner ids (r ∷ rs) s h =
        let p = payload_of parse_headers parse_query show_headers show_query cid ids r in
        and_then-Keeps k c (attempt 500 "internal" (create_request now p owner) s)
          (λ i.
            import_requests parse_headers parse_query show_headers show_query now cid owner ids rs)
          (attempt_request-Keeps k c now p owner s h)
          (λ i s' h'. import_requests-Keeps now cid owner ids rs s' h')

    module _ (now : ℕ) (u : User) (e : ExpCollection) (owner : Option ℕ) where
      abbrev finish_import : ℕ → Unit {0} → M ℕ
      finish_import id x = do audit u "collection.import" id e.name; respond id

      abbrev load_requests : ℕ → List (ℕ × ℕ) → M ℕ
      load_requests id ids =
          import_requests parse_headers parse_query show_headers show_query now id owner ids
            e.requests
          >>= finish_import id

      abbrev load_folders : ℕ → M ℕ
      load_folders id =
          import_folders parse_headers parse_query show_headers show_query id [] e.folders
          >>= load_requests id

      import_owned-Keeps :
          (s : State)
          → Keeps k c s
          → Keeps k c
              (and_then
                (attempt 500 "internal" (create_collection now e.name owner) s)
                load_folders).1
      import_owned-Keeps s h =
          and_then-Keeps k c (attempt 500 "internal" (create_collection now e.name owner) s)
            load_folders (attempt_collection-Keeps k c now e.name owner s h)
            (λ id s₁ h₁.
              and_then-Keeps k c
                (import_folders parse_headers parse_query show_headers show_query id [] e.folders
                  s₁)
                (load_requests id) (import_folders-Keeps id [] e.folders s₁ h₁)
                (λ ids s₂ h₂.
                  and_then-Keeps k c
                    (import_requests parse_headers parse_query show_headers show_query now id owner
                      ids e.requests s₂)
                    (finish_import id) (import_requests-Keeps now id owner ids e.requests s₂ h₂)
                    (λ x s₃ h₃. h₃)))

    import_collection_handler-Keeps :
        (now : ℕ) (u : User) (global : Option Bool) (exp : Option ExpCollection) (s : State)
        → Keeps k c s
        → Keeps k c (write_collection (some u) (load now global exp) s).1
    unfolding write_collection import_collection_handler
    import_collection_handler-Keeps now u none exp s h = h
    import_collection_handler-Keeps now u (some g) none s h = h
    import_collection_handler-Keeps now u (some g) (some e) s h =
        elim (Bool-cases (is_named e.name)) [
          | inr unnamed ↦ rw unnamed h
          | inl named ↦ elim (Bool-cases (not g || is_admin u)) [
            | inr barred ↦ rw (named, barred) h
            | inl may ↦
                rw (named, may) (import_owned-Keeps now u e (if g then none else some u.id) s h)
          ]
        ]

  -- A collection that the user may not manage is still there, with the same name and owner, after any
  -- request of theirs that writes collections or folders: creating, renaming and deleting of either,
  -- and import, also where it fails halfway.
  pub write_collection-Keeps :
      (u : User) (call : CollectionWrite) (s : State) (k : ℕ) (c : Collection)
      → can_manage_collection u c ≡ false
      → Keeps k c s
      → Keeps k c (write_collection (some u) call s).1
  unfolding write_collection
  write_collection-Keeps u (edit call) s k c barred h = handle-Keeps u call s k c barred h
  write_collection-Keeps u (load now global exp) s k c barred h =
      import_collection_handler-Keeps k c now u global exp s h
