-- ===== src/Script/Uuid.antt =====
-- internal/script/uuid.go: the identifiers, as lists of sixteen bytes. The clock, in steps of 100 ns, and
-- what rand.Read and SHA-1 give are arguments.
use post_lite.Base.{
  leb, ◌==◌, if◌then◌else◌, length, take, drop, Str, codes, str_eq, cut_prefix, trim_space,
  encode_hex, decode_hex, ℕ, zero, suc, ◌+◌, ◌*◌, ◌/◌, ◌%◌, ◌^◌, ◌<◌, ◌≡◌, Bool, ◌&&◌, Option, none,
  some, [], ◌∷◌, ◌++◌, map, arith,
}

-- Intervals of 100 ns between 1582-10-15 and 1970-01-01
abbrev pub gregorian_offset : ℕ
gregorian_offset = 122192928000000000

-- v1State
pub record V1State : Type 0 where
  pub last_ts : ℕ
  pub clock_seq : ℕ
  pub node : Str

-- The timestamp of newV1 (a uint64), and the state after it
unfoldable pub next_v1 : ℕ → V1State → ℕ × V1State
next_v1 ticks st =
    let ts = (ticks + gregorian_offset) % 2 ^ 64 in
    if leb ts st.last_ts
    then (
      (st.last_ts + 1) % 2 ^ 64,
      record st { last_ts = (st.last_ts + 1) % 2 ^ 64; clock_seq = (st.clock_seq + 1) % 16384 },
    )
    else (ts, record st { last_ts = ts })

-- The `n` low bytes of a number, the highest first
unfoldable pub big_endian : ℕ → ℕ → Str
big_endian zero x = []
big_endian (suc n) x = (x / 2 ^ (8 * n)) % 256 ∷ big_endian n x

-- time_low, time_mid, time_hi and version, clock_seq, node
unfoldable pub v1_bytes : ℕ → V1State → Str
unfolding big_endian
v1_bytes ts st =
    big_endian 4 ts
    ++ big_endian 2 (ts / 2 ^ 32)
    ++ big_endian 2 ((ts / 2 ^ 48) % 4096 + 4096)
    ++ (128 + (st.clock_seq / 256) % 64) ∷ st.clock_seq % 256 ∷ st.node

-- id[6] = id[6]&0x0f | version<<4 and id[8] = id[8]&0x3f | 0x80
unfoldable pub set_version : ℕ → Str → Str
set_version version b =
    take 6 b
    ++ map (λ c. c % 16 + version * 16) (take 1 (drop 6 b))
    ++ take 1 (drop 7 b)
    ++ map (λ c. c % 64 + 128) (take 1 (drop 8 b))
    ++ drop 9 b

-- formatUUID
unfoldable pub format_uuid : Str → Str
format_uuid b =
    let h = encode_hex (take 16 b) in
    take 8 h
    ++ b'-' ∷ take 4 (drop 8 h)
    ++ b'-' ∷ take 4 (drop 12 h)
    ++ b'-' ∷ take 4 (drop 16 h)
    ++ b'-' ∷ take 12 (drop 20 h)

-- newV4 from the bytes that were drawn, newV5 from the sum of name space and name
abbrev pub new_v4 : Str → Str
new_v4 drawn = format_uuid (set_version 4 drawn)

abbrev pub new_v5 : Str → Str
new_v5 sum = format_uuid (set_version 5 (take 16 sum))

-- strings.TrimPrefix and TrimSuffix of one byte
abbrev pub trim_prefix : Str → Str → Str
trim_prefix s p = elim (cut_prefix s p) [ none ↦ s | some rest ↦ rest ]

unfoldable pub trim_last : ℕ → Str → Str
trim_last c [] = []
trim_last c (d ∷ []) = if d == c then [] else d ∷ []
trim_last c (d ∷ e ∷ s) = d ∷ trim_last c (e ∷ s)

abbrev pub dash_at : ℕ → Str → Bool
dash_at i t = str_eq (take 1 (drop i t)) (codes "-")

-- parseUUID
unfoldable pub parse_uuid : Str → Option Str
unfolding trim_last
parse_uuid s =
    let t = trim_prefix (trim_prefix (trim_space s) (codes "urn:uuid:")) (codes "urn:UUID:") in
    let t' = trim_prefix (trim_last b'}' t) (codes "{") in
    if (length t' == 36) && dash_at 8 t' && dash_at 13 t' && dash_at 18 t' && dash_at 23 t'
    then decode_hex (
        take 8 t'
        ++ take 4 (drop 9 t')
        ++ take 4 (drop 14 t')
        ++ take 4 (drop 19 t')
        ++ take 12 (drop 24 t'))
    else none

-- The timestamp of a call is above that of the call before, whatever the clock does, until the 64 bits
-- of a timestamp are used up; and the state remembers it.
pub next_v1-lt :
    (ticks : ℕ) (st : V1State)
    → st.last_ts + 1 < 2 ^ 64
    → (st.last_ts < (next_v1 ticks st).0) × ((next_v1 ticks st).1.last_ts ≡ (next_v1 ticks st).0)
unfolding next_v1
next_v1-lt ticks st room =
    let fits : (st.last_ts + 1) % 2 ^ 64 ≡ st.last_ts + 1 = omega arith in
    (ground (arith, fits), ground arith)
