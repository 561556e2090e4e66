-- ===== src/Executor/Redact.antt =====
-- internal/executor/redact.go. A Go map of headers is an association list with distinct keys; the
-- redactor is the list of its values.
pub mod Masking
pub mod Headers
use post_lite.Base.{
  leb, if◌then◌else◌, length, any, Str, codes, str_eq, has_prefix, to_lower, sort_strings, GoMap,
  lookup, insert, ℕ, zero, suc, ◌-◌, Bool, ◌||◌, Option, none, some, List, [], ◌∷◌, ◌++◌, map,
}

-- NewRedactor: the loop that skips "" and what was seen before
abbrev pub is_member : Str → List Str → Bool
is_member v vs = any (str_eq v) vs

unfoldable pub dedup : List Str → List Str → List Str
dedup seen [] = []
dedup seen (v ∷ vs) =
    let rest = dedup (v ∷ seen) vs in
    let skipped = dedup seen vs in if str_eq v [] || is_member v seen then skipped else v ∷ rest

-- sort.Slice by descending length
unfoldable pub insert_by_length : Str → List Str → List Str
insert_by_length v [] = v ∷ []
insert_by_length v (w ∷ ws) =
    let rest = insert_by_length v ws in if leb (length w) (length v) then v ∷ w ∷ ws else w ∷ rest

unfoldable pub sort_by_length : List Str → List Str
sort_by_length [] = []
sort_by_length (v ∷ vs) = insert_by_length v (sort_by_length vs)

unfoldable pub new_redactor : List Str → List Str
new_redactor values = sort_by_length (dedup [] values)

abbrev pub mask : Str
mask = codes "***"

-- strings.ReplaceAll(s, v, "***") for a `v` that is not empty: `skip` bytes of an occurrence are
-- still to be passed over.
unfoldable pub replace_from : Str → ℕ → Str → Str
replace_from v skip [] = []
replace_from v (suc skip) (c ∷ s) = replace_from v skip s
replace_from v zero (c ∷ s) =
    let hit = mask ++ replace_from v (length v - 1) s in
    let miss = c ∷ replace_from v zero s in if has_prefix (c ∷ s) v then hit else miss

unfoldable pub replace_all : Str → Str → Str
unfolding replace_from
replace_all s v = replace_from v 0 s

-- Redactor.Text
unfoldable pub text : List Str → Str → Str
text [] s = s
text (v ∷ vs) s = text vs (replace_all s v)

abbrev pub sensitive_headers : List Str
sensitive_headers =
    codes "set-cookie"
    ∷ codes "cookie"
    ∷ codes "authorization"
    ∷ codes "x-api-key"
    ∷ codes "proxy-authorization"
    ∷ []

-- _, sens := SensitiveHeaders[strings.ToLower(k)]
unfoldable pub is_sensitive : Str → Bool
is_sensitive k = is_member (to_lower k) sensitive_headers

unfoldable pub masked_values : List Str → Str → List Str → List Str
masked_values r k vs = if is_sensitive k then mask ∷ [] else map (text r) vs

-- Redactor.Headers
unfoldable pub headers : List Str → GoMap (List Str) → GoMap (List Str)
unfolding masked_values
headers r [] = []
headers r ((k, vs) ∷ h) = insert k (masked_values r k vs) (headers r h)

-- The lines of one header in a snapshot
unfoldable pub header_lines : List Str → Str → List Str → Str
header_lines r k [] = []
header_lines r k (v ∷ vs) =
    (if is_sensitive k then k ++ codes ": ***\n" else k ++ codes ": " ++ text r v ++ codes "\n")
    ++ header_lines r k vs

abbrev pub values_of : Option (List Str) → List Str
values_of none = []
values_of (some vs) = vs

unfoldable pub lines_in_order : List Str → GoMap (List Str) → List Str → Str
unfolding header_lines
lines_in_order r h [] = []
lines_in_order r h (k ∷ ks) = header_lines r k (values_of (lookup k h)) ++ lines_in_order r h ks

-- The block of headers, in the order of their names, and an empty line; nothing if there are none
unfoldable pub header_block : List Str → GoMap (List Str) → Str
unfolding lines_in_order
header_block r [] = []
header_block r (e ∷ h) =
    lines_in_order r (e ∷ h) (sort_strings (map (λ p. p.0) (e ∷ h))) ++ codes "\n"

unfoldable pub request_snapshot : List Str → Str → Str → GoMap (List Str) → Str → Str
unfolding header_block
request_snapshot r method url h body =
    method
    ++ codes " "
    ++ text r url
    ++ codes "\n"
    ++ header_block r h
    ++ (if str_eq body [] then [] else codes "Body:\n" ++ text r body)

-- `status` is the decimal text of the code
unfoldable pub response_snapshot : List Str → Str → GoMap (List Str) → Str → Str
unfolding header_block
response_snapshot r status h body =
    codes "HTTP "
    ++ status
    ++ codes "\n"
    ++ header_block r h
    ++ (if str_eq body [] then [] else text r body)
