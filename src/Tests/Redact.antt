-- ===== src/Tests/Redact.antt =====
-- The redactor of internal/executor/redact.go at concrete inputs.
use post_lite.Base.{
  Str, codes, contains, GoMap, lookup, insert, ◌≡◌, refl, false, List, [], ◌∷◌, arith,
}
use post_lite.Executor.Redact.{
  dedup, insert_by_length, sort_by_length, new_redactor, mask, replace_from, replace_all, text,
  is_sensitive, headers, header_lines, lines_in_order, header_block, request_snapshot,
  response_snapshot,
}
use post_lite.Executor.Redact.Masking.{text-new_redactor}
use post_lite.Executor.Redact.Headers.{snapshots_hide_sensitive}

redactor : Unit {0}
unfolding new_redactor text replace_all replace_from dedup insert_by_length sort_by_length
    is_sensitive headers header_lines lines_in_order header_block request_snapshot response_snapshot
    lookup insert
redactor = tt

abbrev secrets : List Str
secrets = codes "abc" ∷ [] ∷ codes "abcdef" ∷ codes "abc" ∷ []

text_tests :
    (text (new_redactor secrets) (codes "x=abcdef&y=abc&z=ab") ≡ codes "x=***&y=***&z=ab")
    × (text (new_redactor []) (codes "abc") ≡ codes "abc")
unfolding redactor
text_tests = (refl, refl)

text-new_redactor_example :
    contains (text (new_redactor secrets) (codes "ababcc=abcdef")) (codes "abc") ≡ false
unfolding redactor
text-new_redactor_example =
    text-new_redactor secrets (codes "abc") (codes "ababcc=abcdef") refl (λ e. cc) (ground arith)

abbrev sent : GoMap (List Str)
sent = (codes "Authorization", codes "Bearer t" ∷ []) ∷ (codes "Accept", codes "abc/json" ∷ []) ∷ []

abbrev other : GoMap (List Str)
other =
    (codes "Authorization", codes "Basic zz" ∷ []) ∷ (codes "Accept", codes "abc/json" ∷ []) ∷ []

headers_tests :
    headers (new_redactor secrets) sent
    ≡ (codes "Accept", codes "***/json" ∷ []) ∷ (codes "Authorization", mask ∷ []) ∷ []
unfolding redactor
headers_tests = refl

snapshots_hide_sensitive_example :
    (request_snapshot (new_redactor secrets) (codes "GET") (codes "/u") sent []
      ≡ request_snapshot (new_redactor secrets) (codes "GET") (codes "/u") other [])
    × (response_snapshot (new_redactor secrets) (codes "200 OK") sent []
        ≡ response_snapshot (new_redactor secrets) (codes "200 OK") other [])
unfolding redactor
snapshots_hide_sensitive_example =
    snapshots_hide_sensitive (new_redactor secrets) (codes "GET") (codes "/u") (codes "200 OK") sent
      other [] (refl, refl, λ e. absurd (cc), (refl, refl, λ e. refl, tt))
