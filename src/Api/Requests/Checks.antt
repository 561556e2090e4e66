-- ===== src/Api/Requests/Checks.antt =====
-- What the checks of a request's fields accept.

use post_lite.Base.{
  ltb, le→ltb, Bool-cases, length, all, Str, upper_byte, to_upper, is_space, trim_left, trim_right,
  trim_space, ℕ, ◌≤◌, ◌≡◌, refl, ◌↔◌, inl, inr, true, false, some, [], ◌∷◌, arith,
}
use post_lite.Api.Requests.{max_method_len, is_method_token_char, valid_method, normalize_method}

-- A byte of a token is no space and no small letter.
token_char : (c : ℕ) → is_method_token_char c ≡ true → (is_space c ≡ false) × (upper_byte c ≡ c)
unfolding is_method_token_char
token_char c h = (ground arith, ground arith)

trim_left_token : (c : ℕ) (t : Str) → is_space c ≡ false → trim_left is_space (c ∷ t) ≡ c ∷ t
trim_left_token c t h = rw h

trim_right_token : (t : Str) → all is_method_token_char t ≡ true → trim_right is_space t ≡ t
trim_right_token [] h = refl
trim_right_token (c ∷ t) h =
    let e : is_space c ≡ false = (token_char c (ground arith)).0 in
    let ih : trim_right is_space t ≡ t = trim_right_token t (ground arith) in rw (e, ih)

to_upper_token : (t : Str) → all is_method_token_char t ≡ true → to_upper t ≡ t
to_upper_token [] h = refl
to_upper_token (c ∷ t) h =
    let e : upper_byte c ≡ c = (token_char c (ground arith)).1 in
    let ih : to_upper t ≡ t = to_upper_token t (ground arith) in rw (e, ih)

trim_space_token : (t : Str) → all is_method_token_char t ≡ true → trim_space t ≡ t
trim_space_token [] h = refl
trim_space_token (c ∷ t) h =
    let e : is_space c ≡ false = (token_char c (ground arith)).0 in
    rw (trim_left_token c t e) (trim_right_token (c ∷ t) h)

abbrev pub IsToken : Str → Type 0
IsToken t = (1 ≤ length t) × (length t ≤ max_method_len) × (all is_method_token_char t ≡ true)

valid_method-IsToken : (m t : Str) → valid_method m ≡ some t → IsToken t × (t ≡ m)
valid_method-IsToken [] t e = absurd (cc)
valid_method-IsToken (c ∷ m) t e = elim (Bool-cases (ltb max_method_len (length (c ∷ m)))) [
  | inl long ↦ absurd (cc (rw long at e))
  | inr short ↦ elim (Bool-cases (all is_method_token_char (c ∷ m))) [
    | inr bad ↦ absurd (cc (rw (short, bad) at e))
    | inl good ↦
        let same : c ∷ m ≡ t = ground arith in rw (← same) ((omega arith, ground arith, good), refl)
  ]
]

IsToken-valid_method : (t : Str) → IsToken t → valid_method t ≡ some t
IsToken-valid_method [] h = absurd (omega arith)
IsToken-valid_method (c ∷ t) h = rw (le→ltb max_method_len (length (c ∷ t)) h.1, h.2)

-- A method is accepted exactly as its trimmed text in capitals, where that is a token: 1 to 32
-- bytes, each a capital letter, a digit or one of the marks of a token.
pub normalize_method_iff :
    (m t : Str) → (normalize_method m ≡ some t) ↔ (IsToken t × (t ≡ to_upper (trim_space m)))
unfolding normalize_method
normalize_method_iff m t = (
  λ e. valid_method-IsToken (to_upper (trim_space m)) t e,
  λ h. rw (← h.1) (IsToken-valid_method t h.0),
)

-- Checking an accepted method again gives the same method.
pub normalize_method_idem : (m t : Str) → normalize_method m ≡ some t → normalize_method t ≡ some t
unfolding normalize_method
normalize_method_idem m t e =
    let (token, same) = valid_method-IsToken (to_upper (trim_space m)) t e in
    rw (trim_space_token t token.2, to_upper_token t token.2) (IsToken-valid_method t token)
