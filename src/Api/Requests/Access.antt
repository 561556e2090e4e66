-- ===== src/Api/Requests/Access.antt =====
-- What the request handlers let a user do and see.
use post_lite.Store.Collections.{get_collection, list_folders}
use post_lite.Store.Access.{can_view_collection, can_use_request, can_manage_request}
use post_lite.Base.{
  ◌==◌, if◌then◌else◌, ℕ_cases, Option-cases, ℕ, ◌+◌, ◌≡◌, refl, ◌≢◌, inl, inr, true, false, not,
  Option, none, some, arith,
}
use post_lite.Store.{User, Collection, Request, Db, last_id, keep, is_admin}
use post_lite.Store.Tables.{
  find_by-keep, find_by-update, find_by-eq-some, find_by-le-last_id, find_by-append,
}
use post_lite.Store.Requests.{
  RequestPayload, row, create_request, get_request, list_requests, update_request, delete_request,
}
use post_lite.Api.{State, ret, fail, M}
use post_lite.Api.Collections.Access.{IsFailure}
use post_lite.Api.Collections.{get_collection_handler}
use post_lite.Api.Requests.{
  normalize_method, check_protocol, target_collection, or_old, list_requests_handler,
  create_request_handler, get_request_handler, update_request_handler, delete_request_handler,
}

create_request-keeps :
    (now k i : ℕ) (p : RequestPayload) (owner : Option ℕ) (db db' : Db) (r : Request)
    → create_request now p owner db ≡ some (i, db')
    → get_request k db ≡ some r
    → get_request k db' ≡ some r
unfolding create_request get_request
create_request-keeps now k i p owner db db' r e found = ground (
  arith,
  find_by-append Request.id k db.requests (row now (last_id Request.id db.requests + 1) owner p),
  find_by-le-last_id Request.id k db.requests r found,
)

update_request-keeps :
    (now k i : ℕ) (p : RequestPayload) (db db' : Db) (r : Request)
    → i ≢ k
    → update_request now i p db ≡ some db'
    → get_request k db ≡ some r
    → get_request k db' ≡ some r
unfolding update_request get_request
update_request-keeps now k i p db db' r ne e found = ground (
  arith,
  find_by-update Request.id (λ x. x.id == i) (λ x. row now x.id x.owner_id p) k db.requests
      (λ x. refl),
  find_by-eq-some Request.id k db.requests r found,
)

delete_request-keeps :
    (k i : ℕ) (db : Db) (r : Request)
    → i ≢ k
    → get_request k db ≡ some r
    → get_request k (delete_request i db) ≡ some r
unfolding delete_request get_request
delete_request-keeps k i db r ne found =
    rw
      (
        find_by-keep Request.id (λ x. not (x.id == i)) (λ j. not (j == i)) k db.requests
            (λ x. refl),
        found,
      )
      (ground arith)

module _ (u : User) (s : State) where
  create_handler-keeps :
      (now : ℕ) (body : Option RequestPayload) (k : ℕ) (r : Request)
      → get_request k s.db ≡ some r
      → get_request k (create_request_handler (some u) now body s).1.db ≡ some r
  unfolding create_request_handler
  create_handler-keeps now none k r found = found
  create_handler-keeps now (some p) k r found = elim (Option-cases (check_protocol p.protocol)) [
    | inl bad ↦ ground arith
    | inr (protocol, ok) ↦ elim (Option-cases (normalize_method p.method)) [
      | inl bad ↦ ground arith
      | inr (method, fine) ↦
          let p' : RequestPayload = record p { protocol = protocol; method = method } in
          let owner : Option ℕ = if is_admin u then none else some u.id in
          elim (Option-cases (create_request now p' owner s.db)) [
            | inl refused ↦ ground arith
            | inr ((i, db'), made) ↦
                ground (arith, create_request-keeps now k i p' owner s.db db' r made found)
          ]
    ]
  ]

  update_handler-keeps :
      (now : ℕ) (id_param : Option ℕ) (body : Option RequestPayload) (k : ℕ) (r : Request)
      (c : Collection)
      → can_manage_request u r c ≡ false
      → get_collection r.collection_id s.db ≡ some c
      → get_request k s.db ≡ some r
      → get_request k (update_request_handler (some u) now id_param body s).1.db ≡ some r
  unfolding update_request_handler
  update_handler-keeps now none body k r c barred holder found = found
  update_handler-keeps now (some i) none k r c barred holder found = ground arith
  update_handler-keeps now (some i) (some p) k r c barred holder found = elim (ℕ_cases i k) [
    | inl same ↦ rw (same, found, holder, barred) found
    | inr ne ↦ elim (Option-cases (get_request i s.db)) [
      | inl missing ↦ ground arith
      | inr (x, there) ↦ elim (Option-cases (check_protocol p.protocol)) [
        | inl bad ↦ ground arith
        | inr (protocol, ok) ↦ elim (Option-cases (normalize_method p.method)) [
          | inl bad ↦ ground arith
          | inr (method, fine) ↦
              let p' : RequestPayload = record p {
                collection_id = target_collection x p;
                name = or_old p.name x.name;
                protocol = protocol;
                method = method;
                url = or_old p.url x.url;
              } in
              elim (Option-cases (update_request now i p' s.db)) [
                | inl refused ↦ ground arith
                | inr (db', made) ↦
                    ground (arith, update_request-keeps now k i p' s.db db' r ne made found)
              ]
        ]
      ]
    ]
  ]

  delete_handler-keeps :
      (id_param : Option ℕ) (k : ℕ) (r : Request) (c : Collection)
      → can_manage_request u r c ≡ false
      → get_request k s.db ≡ some r
      → get_request k (delete_request_handler (some u) id_param s).1.db ≡ some r
  unfolding delete_request_handler can_manage_request
  delete_handler-keeps id_param k r c barred found = ground arith

  create_handler-IsFailure :
      (now : ℕ) (body : Option RequestPayload)
      → IsFailure (create_request_handler (some u) now body s) s
  unfolding create_request_handler
  create_handler-IsFailure now body = ground arith

  update_handler-IsFailure :
      (now : ℕ) (i : Option ℕ) (body : Option RequestPayload)
      → IsFailure (update_request_handler (some u) now i body s) s
  unfolding update_request_handler
  update_handler-IsFailure now i body = ground arith

  delete_handler-IsFailure : (i : Option ℕ) → IsFailure (delete_request_handler (some u) i s) s
  unfolding delete_request_handler
  delete_handler-IsFailure i = ground arith

-- The requests that write saved requests
pub data Write : Type 0 where
  post : Option RequestPayload → Write
  put : Option ℕ → Option RequestPayload → Write
  drop_row : Option ℕ → Write

unfoldable pub serve : Option User → ℕ → Write → M ℕ
serve requester now (post body) = create_request_handler requester now body
serve requester now (put i body) = update_request_handler requester now i body
serve requester now (drop_row i) = delete_request_handler requester i

serve_unauthorized :
    (now : ℕ) (call : Write) (s : State) → serve none now call s ≡ (fail 401 "unauthorized", s)
unfolding serve create_request_handler update_request_handler delete_request_handler
serve_unauthorized now (post body) s = refl
serve_unauthorized now _ s = refl

serve-IsFailure :
    (u : User) (now : ℕ) (call : Write) (s : State) → IsFailure (serve (some u) now call s) s
unfolding serve
serve-IsFailure u now (post body) s = create_handler-IsFailure u s now body
serve-IsFailure u now (put i body) s = update_handler-IsFailure u s now i body
serve-IsFailure u now (drop_row i) s = delete_handler-IsFailure u s i

-- A saved request that the user may not manage, in the collection that holds it, is still there after
-- any request of theirs that creates, updates or deletes a saved request, with all its columns as they
-- were. Deleting collections and folders, which reaches the saved requests in them, is not among these.
pub serve-keeps :
    (u : User) (now : ℕ) (call : Write) (s : State) (k : ℕ) (r : Request) (c : Collection)
    → can_manage_request u r c ≡ false
    → get_collection r.collection_id s.db ≡ some c
    → get_request k s.db ≡ some r
    → get_request k (serve (some u) now call s).1.db ≡ some r
unfolding serve
serve-keeps u now (post body) s k r c barred holder found =
    create_handler-keeps u s now body k r found
serve-keeps u now (put i body) s k r c barred holder found =
    update_handler-keeps u s now i body k r c barred holder found
serve-keeps u now (drop_row i) s k r c barred holder found =
    delete_handler-keeps u s i k r c barred found

-- Whoever sends a request that creates, updates or deletes a saved request, and whatever is in it: without a session it is
-- refused with 401 and nothing changes, and a response that is a failure has changed nothing.
pub request_writes_atomic :
    (u : User) (now : ℕ) (call : Write) (s : State)
    → (serve none now call s ≡ (fail 401 "unauthorized", s))
      × IsFailure (serve (some u) now call s) s
request_writes_atomic u now call s = (serve_unauthorized now call s, serve-IsFailure u now call s)

-- What a plain user who may view the collection c is shown of its requests: the list of requests has
-- exactly those that the user may use, while the view of the collection carries all of them, also the
-- ones of other users, for which the request's own page answers 403.
pub collection_view_exposes :
    (u : User) (s : State) (c : Collection) (r : Request)
    → get_collection c.id s.db ≡ some c
    → can_view_collection u c ≡ true
    → get_request r.id s.db ≡ some r
    → r.collection_id ≡ c.id
    → can_use_request u r c ≡ false
    → (list_requests_handler (some u) (some c.id) s
        ≡ (ret (keep (λ x. can_use_request u x c) (list_requests c.id s.db)), s))
      × (get_collection_handler (some u) (some c.id) s ≡ (
        ret (record {
          collection = c;
          folders = list_folders c.id s.db;
          requests = list_requests c.id s.db;
        }),
        s,
      ))
      × (get_request_handler (some u) (some r.id) s ≡ (fail 403 "forbidden", s))
unfolding list_requests_handler get_collection_handler get_request_handler
collection_view_exposes u s c r holds sees found inside barred =
    (ground arith, ground arith, ground arith)
