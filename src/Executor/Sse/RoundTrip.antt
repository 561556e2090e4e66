-- ===== src/Executor/Sse/RoundTrip.antt =====
-- An event that is written in the format of an event stream is parsed back.
use post_lite.Base.{
  ◌==◌, ==_iff, Bool-cases, All, Str, codes, split, join, ℕ, ◌≡◌, refl, ap, ◌∙◌, subst, ◌≢◌, inl,
  inr, List, [], ◌∷◌, ◌++◌, append_assoc, append-nil, arith,
}
use post_lite.Executor.Sse.{SseEvent, Parsing, on_line, parse_lines, parse_sse_event}

-- One `data:` line for each line of the payload
unfoldable pub print_lines : List Str → Str
print_lines [] = []
print_lines (l ∷ ls) = codes "data: " ++ (l ++ 10 ∷ print_lines ls)

unfoldable pub print_event : SseEvent → Str
unfolding print_lines
print_event ev =
    codes "event: "
    ++ (ev.type ++ 10 ∷ (codes "id: " ++ (ev.id ++ 10 ∷ print_lines (split 10 ev.payload))))

abbrev pub NoNewline : Str → Type 0
NoNewline = All (λ c. c ≢ 10)

split_line : (l rest : Str) → NoNewline l → split 10 (l ++ 10 ∷ rest) ≡ l ∷ split 10 rest
split_line [] rest h = refl
split_line (c ∷ l) rest h = ground (arith, split_line l rest h.1)

-- A split text has a first part.
split-cases : (s : Str) → (l : Str) × (ls : List Str) × (split 10 s ≡ l ∷ ls)
split-cases [] = ([], [], refl)
split-cases (c ∷ s) =
    let (l, ls, e) = split-cases s in
    elim (Bool-cases (c == 10)) [
      | inl newline ↦ ([], split 10 s, rw newline)
      | inr other ↦ (c ∷ l, ls, rw (other, e))
    ]

split-NoNewline : (s : Str) → All NoNewline (split 10 s)
split-NoNewline [] = (tt, tt)
split-NoNewline (c ∷ s) =
    let (l, ls, e) = split-cases s in
    let ih = subst (All NoNewline) e (split-NoNewline s) in
    elim (Bool-cases (c == 10)) [
      | inl newline ↦ rw newline (tt, split-NoNewline s)
      | inr other ↦ rw (other, e) ((ground arith, ih.0), ih.1)
    ]

join_newline :
    (c : ℕ) (l : Str) (ls : List Str)
    → join (codes "\n") ((c ∷ l) ∷ ls) ≡ c ∷ join (codes "\n") (l ∷ ls)
join_newline c l [] = refl
join_newline c l (m ∷ ls) = refl

join-split : (s : Str) → join (codes "\n") (split 10 s) ≡ s
join-split [] = refl
join-split (c ∷ s) =
    let (l, ls, e) = split-cases s in
    let ih = subst (λ p. join (codes "\n") p ≡ s) e (join-split s) in
    elim (Bool-cases (c == 10)) [
      | inl newline ↦ rw (newline, e) (cc (ih, (==_iff c 10).0 newline))
      | inr other ↦ rw (other, e) (join_newline c l ls ∙ ap (λ r. c ∷ r) ih)
    ]

prefixed : (l : Str) → NoNewline l → NoNewline (codes "data: " ++ l)
prefixed l h = ground arith

parse_print_lines :
    (p : Parsing) (ls : List Str)
    → All NoNewline ls
    → parse_lines p (split 10 (print_lines ls)) ≡ record p { lines = p.lines ++ ls }
unfolding parse_lines print_lines
parse_print_lines p [] h = unfold on_line in rw append-nil
parse_print_lines p (l ∷ ls) h =
    rw (split_line (codes "data: " ++ l) (print_lines ls) (prefixed l h.0))
      (parse_print_lines _ ls h.1 ∙ rw append_assoc)

-- An event whose type and id have no newline in them is parsed back from its printed form, with a
-- payload of any number of lines.
pub parse_sse_event-print_event :
    (ev : SseEvent) → NoNewline ev.type → NoNewline ev.id → parse_sse_event (print_event ev) ≡ ev
unfolding parse_sse_event print_event
parse_sse_event-print_event ev ht hi =
    let body = print_lines (split 10 ev.payload) in
    rw (
      split_line (codes "event: " ++ ev.type) (codes "id: " ++ (ev.id ++ 10 ∷ body)) (ground arith),
      split_line (codes "id: " ++ ev.id) body (ground arith),
      parse_print_lines _ (split 10 ev.payload) (split-NoNewline ev.payload),
      join-split ev.payload,
    )
