-- ===== src/Executor/WsFrame/Limits.antt =====
-- The length that a frame announces: what is refused, what faults, and what is consumed.
use post_lite.Base.{
  ltb, leb, ◌==◌, leb→le, le→leb, Bool-cases, Option-cases, length, Str, ℕ, zero, suc, ◌+◌, ◌%◌,
  ◌≤◌, ◌≡◌, sym, ◌∙◌, ◌≢◌, ◌↔◌, inl, inr, Bool, true, false, not, ◌&&◌, Option, none, some, [], ◌∷◌,
  arith,
}
use post_lite.Executor.WsFrame.RoundTrip.{AreBytes, length-apply_mask}
use post_lite.Executor.WsFrame.{
  ws_max_frame_bytes, MaskKey, Frame, frame, failed, panicked, read_full, be_length, is_negative,
  finish_plain, finish_masked, read_payload, read_checked, read_extended, read_frame,
}

-- What every frame that is read satisfies: its payload is within the limit, and its header and
-- payload have left the input.
abbrev pub IsBounded : Str → Frame → Type 0
IsBounded input (frame fin opcode payload rest) =
    (length payload ≤ ws_max_frame_bytes) × (length rest + length payload + 2 ≤ length input)
IsBounded input (failed e) = Unit
IsBounded input panicked = Unit

pub read_full-eq-some :
    (n : ℕ) (input bs rest : Str)
    → read_full n input ≡ some (bs, rest)
    → (length bs ≡ n) × (length rest + n ≡ length input)
unfolding read_full
read_full-eq-some zero input bs rest e = ground arith
read_full-eq-some (suc n) [] bs rest e = absurd (cc)
read_full-eq-some (suc n) (b ∷ input) bs rest e = elim (Option-cases (read_full n input)) [
  | inl missed ↦ absurd (cc (rw (missed, read_full) at e))
  | inr ((cs, more), found) ↦
      let ih = read_full-eq-some n input cs more found in ground (arith, rw (found, read_full) at e)
]

finish_plain-IsBounded :
    (fin : Bool) (opcode n : ℕ) (input : Str)
    → n ≤ ws_max_frame_bytes
    → IsBounded (0 ∷ 0 ∷ input) (finish_plain fin opcode (read_full n input))
finish_plain-IsBounded fin opcode n input small = elim (Option-cases (read_full n input)) [
  | inl missed ↦ rw missed tt
  | inr ((bs, rest), found) ↦
      let (size, left) = read_full-eq-some n input bs rest found in rw found (omega arith)
]

finish_masked-IsBounded :
    (fin : Bool) (opcode n : ℕ) (k : MaskKey) (input : Str)
    → n ≤ ws_max_frame_bytes
    → IsBounded (0 ∷ 0 ∷ input) (finish_masked fin opcode k (read_full n input))
finish_masked-IsBounded fin opcode n k input small = elim (Option-cases (read_full n input)) [
  | inl missed ↦ rw missed tt
  | inr ((bs, rest), found) ↦
      let (size, left) = read_full-eq-some n input bs rest found in
      rw found (omega (arith, length-apply_mask k bs))
]

IsBounded-more :
    (input more : Str) (f : Frame)
    → length input ≤ length more
    → IsBounded input f
    → IsBounded more f
IsBounded-more input more (frame fin opcode payload rest) h b = omega arith
IsBounded-more input more (failed e) h b = tt
IsBounded-more input more panicked h b = tt

read_payload-IsBounded :
    (fin : Bool) (opcode n : ℕ) (masked : Bool) (input : Str)
    → (is_negative n ≡ false → n ≤ ws_max_frame_bytes)
    → IsBounded (0 ∷ 0 ∷ input) (read_payload fin opcode masked n input)
unfolding read_payload
read_payload-IsBounded fin opcode n false input h = elim (Bool-cases (is_negative n)) [
  | inl neg ↦ rw neg tt
  | inr pos ↦ rw pos (finish_plain-IsBounded fin opcode n input (h pos))
]
read_payload-IsBounded fin opcode n true [] h = tt
read_payload-IsBounded fin opcode n true (a ∷ []) h = tt
read_payload-IsBounded fin opcode n true (a ∷ b ∷ []) h = tt
read_payload-IsBounded fin opcode n true (a ∷ b ∷ c ∷ []) h = tt
read_payload-IsBounded fin opcode n true (a ∷ b ∷ c ∷ d ∷ input) h =
    elim (Bool-cases (is_negative n)) [
      | inl neg ↦ rw neg tt
      | inr pos ↦ rw pos (
          IsBounded-more (0 ∷ 0 ∷ input) (0 ∷ 0 ∷ a ∷ b ∷ c ∷ d ∷ input) _ (omega arith)
            (finish_masked-IsBounded fin opcode n _ input (h pos)))
    ]

read_checked-IsBounded :
    (fin : Bool) (opcode n : ℕ) (masked : Bool) (input : Str)
    → IsBounded (0 ∷ 0 ∷ input) (read_checked fin opcode masked n input)
unfolding read_checked
read_checked-IsBounded fin opcode n masked input =
    elim (Bool-cases (not (is_negative n) && ltb ws_max_frame_bytes n)) [
      | inl large ↦ rw large tt
      | inr fits ↦ rw fits (read_payload-IsBounded fin opcode n masked input (λ pos. ground arith))
    ]

read_extended-IsBounded :
    (fin : Bool) (opcode k : ℕ) (masked : Bool) (input : Str)
    → IsBounded (0 ∷ 0 ∷ input) (read_extended fin opcode masked (read_full k input))
read_extended-IsBounded fin opcode k masked input = elim (Option-cases (read_full k input)) [
  | inl missed ↦ rw missed tt
  | inr ((ext, rest), found) ↦
      let (size, left) = read_full-eq-some k input ext rest found in
      rw found (
        IsBounded-more (0 ∷ 0 ∷ rest) (0 ∷ 0 ∷ input) _ (omega arith)
          (read_checked-IsBounded fin opcode (be_length 0 ext) masked rest))
]

-- A frame that is read has a payload of at most 1 MB, whatever length it announced, and has taken
-- its payload and two bytes at least from the input.
pub read_frame-IsBounded : (input : Str) → IsBounded input (read_frame input)
unfolding read_frame
read_frame-IsBounded [] = tt
read_frame-IsBounded (h0 ∷ []) = tt
read_frame-IsBounded (h0 ∷ h1 ∷ input) = elim (Bool-cases (h1 % 128 == 126)) [
  | inl short ↦ rw short (read_extended-IsBounded (leb 128 h0) (h0 % 16) 2 (leb 128 h1) input)
  | inr other ↦ elim (Bool-cases (h1 % 128 == 127)) [
    | inl long ↦
        rw (other, long) (read_extended-IsBounded (leb 128 h0) (h0 % 16) 8 (leb 128 h1) input)
    | inr direct ↦
        rw (other, direct)
          (read_checked-IsBounded (leb 128 h0) (h0 % 16) (h1 % 128) (leb 128 h1) input)
  ]
]

be_length_negative :
    (e0 e1 e2 e3 e4 e5 e6 e7 : ℕ)
    → AreBytes (e0 ∷ e1 ∷ e2 ∷ e3 ∷ e4 ∷ e5 ∷ e6 ∷ e7 ∷ [])
    → is_negative (be_length 0 (e0 ∷ e1 ∷ e2 ∷ e3 ∷ e4 ∷ e5 ∷ e6 ∷ e7 ∷ [])) ≡ leb 128 e0
unfolding be_length
be_length_negative e0 e1 e2 e3 e4 e5 e6 e7 h = ground arith

finish_plain-ne-panicked :
    (fin : Bool) (opcode : ℕ) (o : Option (Str × Str)) → finish_plain fin opcode o ≢ panicked
finish_plain-ne-panicked fin opcode none e = cc
finish_plain-ne-panicked fin opcode (some (bs, rest)) e = cc

panicked_iff :
    (fin : Bool) (opcode n : ℕ) (input : Str)
    → (read_checked fin opcode false n input ≡ panicked) ↔ (is_negative n ≡ true)
unfolding read_checked read_payload
panicked_iff fin opcode n input =
    ground (arith, finish_plain-ne-panicked fin opcode (read_full n input))

-- An unmasked frame that announces its length in eight bytes faults exactly when the first of them
-- is 128 or more: the length is then a negative int64, which passes the check of the limit.
pub read_frame-panicked_iff :
    (h0 e0 e1 e2 e3 e4 e5 e6 e7 : ℕ) (rest : Str)
    → AreBytes (e0 ∷ e1 ∷ e2 ∷ e3 ∷ e4 ∷ e5 ∷ e6 ∷ e7 ∷ [])
    → (read_frame (h0 ∷ 127 ∷ e0 ∷ e1 ∷ e2 ∷ e3 ∷ e4 ∷ e5 ∷ e6 ∷ e7 ∷ rest) ≡ panicked) ↔ (128 ≤ e0)
unfolding read_frame read_full
read_frame-panicked_iff h0 e0 e1 e2 e3 e4 e5 e6 e7 rest h =
    let ext = e0 ∷ e1 ∷ e2 ∷ e3 ∷ e4 ∷ e5 ∷ e6 ∷ e7 ∷ [] in
    let (to, from) = panicked_iff (leb 128 h0) (h0 % 16) (be_length 0 ext) rest in
    let e = be_length_negative e0 e1 e2 e3 e4 e5 e6 e7 h in
    (λ p. leb→le 128 e0 (sym e ∙ to p), λ p. from (e ∙ le→leb 128 e0 p))
