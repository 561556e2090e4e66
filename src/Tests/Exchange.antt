-- ===== src/Tests/Exchange.antt =====
-- Export and import at concrete inputs.
use post_lite.Base.{
  Str, codes, GoMap, ◌≡◌, refl, false, Option, none, some, List, [], ◌∷◌, ◌++◌, map,
}
use post_lite.Store.{Request}
use post_lite.Store.Collections.{create_collection, get_collection, create_folder, list_folders}
use post_lite.Store.Requests.{or_default, row, create_request, list_requests}
use post_lite.Api.{State, fail}
use post_lite.Api.Exchange.{
  ExpRequest, ExpCollection, new_id, export_collection_handler, payload_of, import_folders,
  import_requests, import_collection_handler,
}
use post_lite.Api.Exchange.Import.{contents, imported, contents-import_requests}
use post_lite.Api.Collections.Access.{Keeps}
use post_lite.Api.Exchange.Keeps.{load, write_collection, write_collection-Keeps}
use post_lite.Tests.Store.{tables, bob, private, bobs_request}
use post_lite.Tests.Vault.{empty}

exchange : Unit {0}
unfolding tables export_collection_handler import_collection_handler import_folders import_requests
    payload_of new_id create_request row or_default create_collection create_folder list_requests
    get_collection write_collection
exchange = tt

abbrev no_headers : Str → Option (GoMap Str)
no_headers s = none

abbrev no_query : Str → List (Str × Str)
no_query s = []

abbrev headers_json : GoMap Str → Str
headers_json h = codes "{}"

abbrev query_json : List (Str × Str) → Str
query_json q = codes "[]"

abbrev ping : ExpRequest
ping = record {
  id = 7;
  folder_id = some 4;
  name = codes "ping";
  protocol = codes "http";
  method = codes "GET";
  url = codes "http://good.test";
  headers = none;
  query = none;
  body_type = codes "none";
  body = [];
  variables = [];
  script = [];
  test_script = [];
}

abbrev exported : ExpCollection
exported = record {
  name = codes "copy";
  format = codes "postlite/v1";
  folders =
      record { id = 4; parent_id = none; name = codes "a" }
      ∷ record { id = 5; parent_id = some 4; name = codes "b" }
      ∷ [];
  requests = ping ∷ [];
}

abbrev after_import : State
after_import =
    (import_collection_handler no_headers no_query headers_json query_json 9 (some bob) (some false)
      (some exported) empty).1

abbrev copied : Request
copied = record bobs_request {
  collection_id = 3;
  folder_id = some 1;
  owner_id = some 3;
  updated_at = 9;
}

exchange_tests :
    (contents 3 after_import.db ≡ record copied { id = 0 } ∷ [])
    × (list_folders 3 after_import.db
        ≡ record { id = 1; collection_id = 3; parent_id = none; name = codes "a" }
          ∷ record { id = 2; collection_id = 3; parent_id = some 1; name = codes "b" }
          ∷ [])
    × ((export_collection_handler no_headers no_query headers_json query_json
          (some bob)
          (some 2)
          empty).0
        ≡ fail 403 "forbidden")
unfolding exchange
exchange_tests = (refl, refl, refl)

contents-import_requests_example :
    contents 1
      (import_requests no_headers no_query headers_json query_json 9 1
        (some 3)
        []
        (ping ∷ [])
        empty).1.db
    ≡ contents 1 empty.db
      ++ map (imported no_headers no_query headers_json query_json 9 (some 3) 1 []) (ping ∷ [])
unfolding exchange
contents-import_requests_example =
    contents-import_requests no_headers no_query headers_json query_json 9 1 (some 3) [] (ping ∷ [])
      empty
      (import_requests no_headers no_query headers_json query_json 9 1 (some 3) [] (ping ∷ [])
        empty).1
      refl

write_collection-Keeps_example :
    Keeps 2 private
      (write_collection no_headers no_query headers_json query_json
        (some bob)
        (load 9 (some false) (some exported))
        empty).1
unfolding exchange
write_collection-Keeps_example =
    write_collection-Keeps no_headers no_query headers_json query_json bob
      (load 9 (some false) (some exported)) empty 2 private refl refl
