-- ===== src/Tests/Api.antt =====
-- The handlers of internal/httpapi at concrete inputs.
use mathlib.Core.Option
use post_lite.Base.{codes, ℕ, ◌≡◌, refl, false, none, some, []}
use post_lite.Crypto.Vault.{new_vault}
use post_lite.Store.{Collection, keep}
use post_lite.Store.Access.{can_use_request}
use post_lite.Store.Collections.{
  get_collection, update_collection_name, delete_collection, list_folders,
}
use post_lite.Store.Requests.{row, create_request, get_request, list_requests, update_request}
use post_lite.Api.{State, Res, ret, fail}
use post_lite.Api.Collections.{
  create_collection_handler, get_collection_handler, update_collection_handler,
  delete_collection_handler, create_folder_handler,
}
use post_lite.Api.Collections.Access.{Call, rename, handle, IsFailure, collection_writes_atomic}
use post_lite.Api.Requests.{
  normalize_method, check_protocol, check_body_type, check_scripts, list_requests_handler,
  create_request_handler, get_request_handler, update_request_handler, delete_request_handler,
}
use post_lite.Api.Requests.Access.{drop_row, serve, serve-keeps, collection_view_exposes}
use post_lite.Tests.Store.{tables, root, ann, bob, shared, bobs_request, db}

handlers : Unit {0}
unfolding tables handle serve normalize_method create_collection_handler update_collection_handler
    delete_collection_handler create_folder_handler create_request_handler update_request_handler
    delete_request_handler get_request_handler list_requests_handler get_collection_handler
    update_collection_name delete_collection check_protocol check_body_type check_scripts
    create_request update_request row
handlers = tt

abbrev now_state : State
now_state = record {
  db = db;
  limiter = record { m = [] };
  audit = [];
  crypto = none;
  vault = new_vault;
  transports = [];
}

abbrev renamed : Call
renamed = rename (some 2) (some (record { name = codes "new"; is_global = false }))

abbrev status_of {ℓ} : {A : Type ℓ} → Res A × State → ℕ
status_of (ret a, s) = 200
status_of (fail status code, s) = status

handler_tests :
    (status_of (handle (some bob) renamed now_state) ≡ 403)
    × (status_of (handle (some ann) renamed now_state) ≡ 200)
    × (Option.map Collection.name (get_collection 2 (handle (some ann) renamed now_state).1.db)
        ≡ some (codes "new"))
    × (status_of (serve (some bob) 0 (drop_row (some 1)) now_state) ≡ 403)
    × (status_of (serve (some root) 0 (drop_row (some 1)) now_state) ≡ 200)
    × (status_of (get_request_handler (some ann) (some 1) now_state) ≡ 403)
unfolding handlers
handler_tests = (refl, refl, refl, refl, refl, refl)

serve-keeps_example :
    get_request 1 (serve (some ann) 0 (drop_row (some 1)) now_state).1.db ≡ some bobs_request
unfolding handlers
serve-keeps_example =
    serve-keeps ann 0 (drop_row (some 1)) now_state 1 bobs_request shared refl refl refl

collection_writes_atomic_example :
    (handle none renamed now_state ≡ (fail 401 "unauthorized", now_state))
    × IsFailure (handle (some bob) renamed now_state) now_state
collection_writes_atomic_example = collection_writes_atomic bob renamed now_state

collection_view_exposes_example :
    (list_requests_handler (some ann) (some 1) now_state
      ≡ (ret (keep (λ x. can_use_request ann x shared) (list_requests 1 db)), now_state))
    × (get_collection_handler (some ann) (some 1) now_state ≡ (
      ret (record {
        collection = shared;
        folders = list_folders 1 db;
        requests = list_requests 1 db;
      }),
      now_state,
    ))
    × (get_request_handler (some ann) (some 1) now_state ≡ (fail 403 "forbidden", now_state))
unfolding handlers
collection_view_exposes_example =
    collection_view_exposes ann now_state shared bobs_request refl refl refl refl refl
