-- ===== src/Executor/WsFrame.antt =====
-- The frames of internal/executor/wsframe.go. What a connection reads is a list of bytes, at whose
-- end a read fails; what it writes is a list of bytes too, and a write does not fail. Bytes are
-- numbers below 256; `& 0x0F`, `| 0x80` of a number below 128 and `<< 8 |` of a byte are written as
-- `%`, `+` and `* 256 +`, and the int64 of a length is its bit pattern below 2 ^ 64.
pub mod RoundTrip
pub mod Limits
pub mod Messages
use post_lite.Base.{
  ltb, leb, ◌==◌, if◌then◌else◌, length, Str, ℕ, zero, suc, ◌+◌, ◌*◌, ◌/◌, ◌%◌, ◌^◌, bit_xor, Bool,
  true, false, not, ◌&&◌, Option, none, some, [], ◌∷◌, ◌++◌,
}

-- 1 << 20
abbrev pub ws_max_frame_bytes : ℕ
ws_max_frame_bytes = 1048576

pub data WsError : Type 0 where
  read_failed : WsError
  frame_too_large : ℕ → WsError
  message_too_large : WsError
  unknown_opcode : ℕ → WsError
  closed : WsError

-- byte(l >> k)
abbrev pub byte_at : ℕ → ℕ → ℕ
byte_at l k = l / 2 ^ k % 256

-- hdr[1] |= 0x80 where the frame is masked
abbrev pub mask_bit : Bool → ℕ
mask_bit mask = if mask then 128 else 0

-- hdr[:n] without the key: the opcode, and the length in one of its three forms
unfoldable pub frame_header : ℕ → ℕ → Bool → Str
frame_header opcode n mask =
    (128 + opcode % 16)
    ∷ (if ltb n 126
        then (n + mask_bit mask) ∷ []
        else if ltb n 65536
        then (126 + mask_bit mask) ∷ byte_at n 8 ∷ byte_at n 0 ∷ []
        else (127 + mask_bit mask)
          ∷ byte_at n 56
          ∷ byte_at n 48
          ∷ byte_at n 40
          ∷ byte_at n 32
          ∷ byte_at n 24
          ∷ byte_at n 16
          ∷ byte_at n 8
          ∷ byte_at n 0
          ∷ [])

-- var maskKey [4]byte
pub record MaskKey : Type 0 where
  pub k0 : ℕ
  pub k1 : ℕ
  pub k2 : ℕ
  pub k3 : ℕ

abbrev pub rotate : MaskKey → MaskKey
rotate k = record { k0 = k.k1; k1 = k.k2; k2 = k.k3; k3 = k.k0 }

-- b ^ maskKey[i % 4] over the payload
unfoldable pub apply_mask : MaskKey → Str → Str
apply_mask k [] = []
apply_mask k (b ∷ bs) = bit_xor b k.k0 ∷ apply_mask (rotate k) bs

abbrev pub key_bytes : MaskKey → Str
key_bytes k = k.k0 ∷ k.k1 ∷ k.k2 ∷ k.k3 ∷ []

-- maskKey as it is where no key is drawn
abbrev pub no_key : MaskKey
no_key = record { k0 = 0; k1 = 0; k2 = 0; k3 = 0 }

-- writeFrame: what it writes, or none where the payload is too long. `key` is what rand.Read gave.
unfoldable pub write_frame : MaskKey → ℕ → Str → Bool → Option Str
unfolding frame_header apply_mask
write_frame key opcode payload mask =
    if ltb ws_max_frame_bytes (length payload)
    then none
    else some (
        frame_header opcode (length payload) mask
        ++ (if mask then key_bytes key ++ apply_mask key payload else payload))

pub data Frame : Type 0 where
  -- fin, opcode, payload, and what is left to read
  frame : Bool → ℕ → Str → Str → Frame
  failed : WsError → Frame
  -- make([]byte, length) of a negative length
  panicked : Frame

-- io.ReadFull
unfoldable pub read_full : ℕ → Str → Option (Str × Str)
read_full zero input = some ([], input)
read_full (suc n) [] = none
read_full (suc n) (b ∷ input) = elim (read_full n input) [
  | none ↦ none
  | some (bs, rest) ↦ some (b ∷ bs, rest)
]

-- length = length << 8 | int64(ext[i]), on the bit pattern
unfoldable pub be_length : ℕ → Str → ℕ
be_length acc [] = acc
be_length acc (b ∷ bs) = be_length (acc * 256 % 2 ^ 64 + b) bs

-- length < 0
abbrev pub is_negative : ℕ → Bool
is_negative l = leb (2 ^ 63) l

abbrev pub finish_plain : Bool → ℕ → Option (Str × Str) → Frame
finish_plain fin opcode none = failed read_failed
finish_plain fin opcode (some (payload, rest)) = frame fin opcode payload rest

abbrev pub finish_masked : Bool → ℕ → MaskKey → Option (Str × Str) → Frame
finish_masked fin opcode k none = failed read_failed
finish_masked fin opcode k (some (payload, rest)) = frame fin opcode (apply_mask k payload) rest

-- From the masking key on
unfoldable pub read_payload : Bool → ℕ → Bool → ℕ → Str → Frame
unfolding read_full apply_mask
read_payload fin opcode true len (a ∷ b ∷ c ∷ d ∷ input) =
    if is_negative len
    then panicked
    else finish_masked fin opcode (record { k0 = a; k1 = b; k2 = c; k3 = d }) (read_full len input)
read_payload fin opcode true len _ = failed read_failed
read_payload fin opcode false len input =
    if is_negative len then panicked else finish_plain fin opcode (read_full len input)

-- The check of the length, which is signed
unfoldable pub read_checked : Bool → ℕ → Bool → ℕ → Str → Frame
unfolding read_payload
read_checked fin opcode masked len input =
    if not (is_negative len) && ltb ws_max_frame_bytes len
    then failed (frame_too_large len)
    else read_payload fin opcode masked len input

abbrev pub read_extended : Bool → ℕ → Bool → Option (Str × Str) → Frame
read_extended fin opcode masked none = failed read_failed
read_extended fin opcode masked (some (ext, rest)) =
    read_checked fin opcode masked (be_length 0 ext) rest

unfoldable pub read_frame : Str → Frame
unfolding read_full be_length read_checked
read_frame (h0 ∷ h1 ∷ input) =
    let fin = leb 128 h0 in
    let opcode = h0 % 16 in
    let masked = leb 128 h1 in
    let len = h1 % 128 in
    if len == 126
    then read_extended fin opcode masked (read_full 2 input)
    else if len == 127
    then read_extended fin opcode masked (read_full 8 input)
    else read_checked fin opcode masked len input
read_frame _ = failed read_failed
