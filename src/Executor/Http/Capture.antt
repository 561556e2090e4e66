-- ===== src/Executor/Http/Capture.antt =====
-- The captured body and its part in the history.
use post_lite.Base.{
  ltb, ltb→lt, lt→ltb, le→ltb, Bool-cases, length, take, length-take, Str, ℕ, zero, suc, ◌≤◌, ◌≡◌,
  refl, sym, ap, ◌∙◌, inl, inr, true, false, [], ◌∷◌, arith,
}
use post_lite.Executor.Http.{capture, history_body}

take_all : (n : ℕ) (s : Str) → length s ≤ n → take n s ≡ s
take_all zero [] h = refl
take_all zero (c ∷ s) h = absurd (omega arith)
take_all (suc n) [] h = refl
take_all (suc n) (c ∷ s) h = ap (λ r. c ∷ r) (take_all n s (omega arith))

take-take : (n m : ℕ) (s : Str) → n ≤ m → take n (take m s) ≡ take n s
take-take zero m s h = refl
take-take (suc n) zero s h = absurd (omega arith)
take-take (suc n) (suc m) [] h = refl
take-take (suc n) (suc m) (c ∷ s) h = ap (λ r. c ∷ r) (take-take n m s (omega arith))

-- For every limit: the captured body is the first bytes of the stream up to the limit, and it is
-- marked as truncated exactly if the stream is longer.
pub capture_lem :
    (limit : ℕ) (url stream : Str)
    → ((capture limit url stream).body ≡ take limit stream)
      × ((capture limit url stream).truncated ≡ ltb limit (length stream))
unfolding capture
capture_lem limit url stream = elim (Bool-cases (ltb limit (length stream))) [
  | inl long ↦
      let e : ltb limit (length (take (suc limit) stream)) ≡ true =
        lt→ltb _ _
          (omega (arith, length-take (suc limit) stream, ltb→lt limit (length stream) long)) in
      rw (e, long) (take-take limit (suc limit) stream (omega arith), refl)
  | inr short ↦
      let fits : length stream ≤ limit = ground arith in
      let e : ltb limit (length (take (suc limit) stream)) ≡ false =
        le→ltb _ _ (omega (arith, length-take (suc limit) stream)) in
      rw (e, short)
        (take_all (suc limit) stream (omega arith) ∙ sym (take_all limit stream fits), refl)
]

-- The body kept in the history is the first bytes of the stream up to the smaller limit, and so is
-- at most that long.
pub history_body-capture :
    (small limit : ℕ) (url stream : Str)
    → small ≤ limit
    → (history_body small (capture limit url stream) ≡ take small stream)
      × (length (history_body small (capture limit url stream)) ≤ small)
unfolding history_body
history_body-capture small limit url stream h =
    let e : history_body small (capture limit url stream) ≡ take small stream =
      rw (history_body, (capture_lem limit url stream).0)
        (elim (Bool-cases (ltb small (length (take limit stream)))) [
          | inl long ↦ rw long (take-take small limit stream h)
          | inr short ↦
              let fits : length (take limit stream) ≤ small = ground arith in
              rw short
                (sym (take_all small (take limit stream) fits) ∙ take-take small limit stream h)
        ]) in
    (e, rw e (omega (arith, length-take small stream)))
