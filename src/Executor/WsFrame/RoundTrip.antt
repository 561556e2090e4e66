-- ===== src/Executor/WsFrame/RoundTrip.antt =====
-- A written frame is read back.
use post_lite.Base.{
  ltb, leb, ◌==◌, if◌then◌else◌, ltb→lt, le→ltb, ==_iff, Bool-cases, all_below, all_below_sound,
  length, All, Str, ℕ, suc, ◌+◌, ◌%◌, ◌≤◌, ◌<◌, bit_xor, ◌≡◌, refl, ap, ◌∙◌, ap₂, inl, inr, Bool,
  true, false, some, [], ◌∷◌, ◌++◌, append_assoc, arith,
}
use post_lite.Executor.WsFrame.{
  ws_max_frame_bytes, byte_at, mask_bit, frame_header, MaskKey, rotate, apply_mask, key_bytes,
  write_frame, frame, read_full, be_length, is_negative, read_payload, read_checked, read_frame,
}

abbrev pub AreBytes : Str → Type 0
AreBytes = All (λ b. b < 256)

-- Every byte and every byte of a key, by evaluation
xor_table : all_below 256 (λ k. all_below 256 (λ b. bit_xor (bit_xor b k) k == b)) ≡ true
unfolding all_below
xor_table = refl

xor_twice : (b k : ℕ) → b < 256 → k < 256 → bit_xor (bit_xor b k) k ≡ b
xor_twice b k hb hk =
    (==_iff _ b).0 (all_below_sound 256 _ b (all_below_sound 256 _ k xor_table hk) hb)

pub record IsKey (k : MaskKey) : Type 0 where
  pub b0 : k.k0 < 256
  pub b1 : k.k1 < 256
  pub b2 : k.k2 < 256
  pub b3 : k.k3 < 256

pub apply_mask_twice :
    (k : MaskKey) (bs : Str) → IsKey k → AreBytes bs → apply_mask k (apply_mask k bs) ≡ bs
unfolding apply_mask
apply_mask_twice k [] hk hb = refl
apply_mask_twice k (b ∷ bs) hk hb = ap₂ ◌∷◌ (xor_twice b k.k0 hb.0 hk.b0) (
    apply_mask_twice (rotate k) bs (record { b0 = hk.b1; b1 = hk.b2; b2 = hk.b3; b3 = hk.b0 }) hb.1)

pub length-apply_mask : (k : MaskKey) (bs : Str) → length (apply_mask k bs) ≡ length bs
unfolding apply_mask
length-apply_mask k [] = refl
length-apply_mask k (b ∷ bs) = ap suc (length-apply_mask (rotate k) bs)

pub read_full-append : (bs rest : Str) → read_full (length bs) (bs ++ rest) ≡ some (bs, rest)
unfolding read_full
read_full-append [] rest = refl
read_full-append (b ∷ bs) rest = rw (read_full-append bs rest)

-- The three forms of the length
be_length_short : (n : ℕ) → n < 65536 → be_length 0 (byte_at n 8 ∷ byte_at n 0 ∷ []) ≡ n
unfolding be_length
be_length_short n h = omega arith

be_length_long :
    (n : ℕ)
    → n ≤ ws_max_frame_bytes
    → be_length 0 (
        byte_at n 56
        ∷ byte_at n 48
        ∷ byte_at n 40
        ∷ byte_at n 32
        ∷ byte_at n 24
        ∷ byte_at n 16
        ∷ byte_at n 8
        ∷ byte_at n 0
        ∷ [])
      ≡ n
unfolding be_length
be_length_long n h = omega arith

-- A length within the limit is not negative.
is_negative_small : (n : ℕ) → n ≤ ws_max_frame_bytes → is_negative n ≡ false
is_negative_small n h = ground arith

read_payload_back :
    (fin : Bool) (opcode : ℕ) (key : MaskKey) (mask : Bool) (payload rest : Str)
    → IsKey key
    → AreBytes payload
    → length payload ≤ ws_max_frame_bytes
    → read_payload fin opcode mask
        (length payload)
        ((if mask then key_bytes key ++ apply_mask key payload else payload) ++ rest)
      ≡ frame fin opcode payload rest
unfolding read_payload
read_payload_back fin opcode key true payload rest hk hb small = rw (
  is_negative_small (length payload) small,
  ← length-apply_mask key payload,
  read_full-append (apply_mask key payload) rest,
  apply_mask_twice key payload hk hb,
)
read_payload_back fin opcode key false payload rest hk hb small =
    rw (is_negative_small (length payload) small, read_full-append payload rest)

read_checked_back :
    (fin : Bool) (opcode : ℕ) (key : MaskKey) (mask : Bool) (payload rest : Str)
    → IsKey key
    → AreBytes payload
    → length payload ≤ ws_max_frame_bytes
    → read_checked fin opcode mask
        (length payload)
        ((if mask then key_bytes key ++ apply_mask key payload else payload) ++ rest)
      ≡ frame fin opcode payload rest
unfolding read_checked
read_checked_back fin opcode key mask payload rest hk hb small =
    rw (le→ltb ws_max_frame_bytes (length payload) small, is_negative_small (length payload) small)
      (read_payload_back fin opcode key mask payload rest hk hb small)

short_length : (n : ℕ) → ltb n 126 ≡ true → n < 128
short_length n h = omega (arith, ltb→lt n 126 h)

-- A header's two bytes and the bytes of the length, whatever follows
HeaderBytes : (opcode n : ℕ) (mask : Bool) → opcode < 16 → n < 128 → Type 0
HeaderBytes opcode n mask _ _ =
    (leb 128 (128 + opcode % 16) ≡ true)
    × ((128 + opcode % 16) % 16 ≡ opcode)
    × (leb 128 (n + mask_bit mask) ≡ mask)
    × ((n + mask_bit mask) % 128 ≡ n)

HeaderBytes_lem :
    (opcode n : ℕ) (mask : Bool) (small : opcode < 16) (short : n < 128)
    → HeaderBytes opcode n mask small short
unfolding HeaderBytes
HeaderBytes_lem opcode n true small short = ground arith
HeaderBytes_lem opcode n false small short = ground arith

read_frame_header :
    (opcode n : ℕ) (mask : Bool) (body : Str)
    → opcode < 16
    → n ≤ ws_max_frame_bytes
    → read_frame (frame_header opcode n mask ++ body) ≡ read_checked true opcode mask n body
unfolding read_frame frame_header HeaderBytes
read_frame_header opcode n mask body small fits = elim (Bool-cases (ltb n 126)) [
  | inl short ↦
      let h = HeaderBytes_lem opcode n mask small (short_length n short) in
      rw (short, h.0, h.1, h.2, h.3) (ground (arith))
  | inr long ↦ elim (Bool-cases (ltb n 65536)) [
    | inl middle ↦
        let h = HeaderBytes_lem opcode 126 mask small (omega arith) in
        rw (long, middle, h.0, h.1, h.2, h.3)
          (unfold read_full in rw (be_length_short n (ltb→lt n 65536 middle)))
    | inr large ↦
        let h = HeaderBytes_lem opcode 127 mask small (omega arith) in
        rw (long, large, h.0, h.1, h.2, h.3) (unfold read_full in rw (be_length_long n fits))
  ]
]

-- Reading what was written gives the frame back, whole and last of its message, with the opcode
-- and the payload that were written and the input that follows it: for every opcode below 16, every
-- payload of bytes within the limit, masked with any key or not masked.
pub read_frame-write_frame :
    (key : MaskKey) (opcode : ℕ) (payload rest : Str) (mask : Bool)
    → opcode < 16
    → IsKey key
    → AreBytes payload
    → length payload ≤ ws_max_frame_bytes
    → (out : Str) × (write_frame key opcode payload mask ≡ some out)
      × (read_frame (out ++ rest) ≡ frame true opcode payload rest)
unfolding write_frame
read_frame-write_frame key opcode payload rest mask small hk hb fits = (
  frame_header opcode (length payload) mask
      ++ (if mask then key_bytes key ++ apply_mask key payload else payload),
  rw (le→ltb ws_max_frame_bytes (length payload) fits),
  rw append_assoc (
      read_frame_header opcode (length payload) mask _ small fits
      ∙ read_checked_back true opcode key mask payload rest hk hb fits),
)
