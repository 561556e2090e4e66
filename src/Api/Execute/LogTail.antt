-- ===== src/Api/Execute/LogTail.antt =====
-- How much of the console is kept.
use mathlib.Core.List.{reverse_aux, reverse-reverse}
use post_lite.Base.{
  ◌==◌, length, length-drop, Str, str_eq_iff, trim_right, split, ℕ, ◌+◌, ◌-◌, ◌≤◌, ◌≡◌, refl, ◌≢◌,
  List, [], ◌∷◌, reverse, arith,
}
use post_lite.Api.Execute.Scripts.{
  max_script_log_lines, max_script_log_bytes, truncated_mark, newest_lines, fit_bytes,
  script_log_tail,
}

-- The bytes of the lines, each with its newline
unfoldable pub text_bytes : List Str → ℕ
text_bytes [] = 0
text_bytes (l ∷ ls) = length l + 1 + text_bytes ls

text_bytes_nil : text_bytes [] ≡ 0
unfolding text_bytes
text_bytes_nil = refl

text_bytes-reverse_aux :
    (xs ys : List Str) → text_bytes (reverse_aux xs ys) ≡ text_bytes xs + text_bytes ys
unfolding text_bytes
text_bytes-reverse_aux [] ys = omega arith
text_bytes-reverse_aux (l ∷ xs) ys = omega (arith, text_bytes-reverse_aux xs (l ∷ ys))

length-reverse_aux : (xs ys : List Str) → length (reverse_aux xs ys) ≡ length xs + length ys
length-reverse_aux [] ys = omega arith
length-reverse_aux (l ∷ xs) ys = omega (arith, length-reverse_aux xs (l ∷ ys))

text_bytes-fit_bytes :
    (total : ℕ) (after before : List Str)
    → text_bytes after ≡ total
    → total ≤ max_script_log_bytes
    → text_bytes (fit_bytes total after before) ≤ max_script_log_bytes + length truncated_mark + 1
unfolding text_bytes fit_bytes
text_bytes-fit_bytes total after [] sized fits = omega arith
text_bytes-fit_bytes total after (line ∷ before) sized fits =
    ground (arith, text_bytes-fit_bytes (total + (length line + 1)) (line ∷ after) before)

length-fit_bytes :
    (total : ℕ) (after before : List Str)
    → length (fit_bytes total after before) ≤ length after + length before
unfolding fit_bytes
length-fit_bytes total after [] = omega arith
length-fit_bytes total after (line ∷ before) =
    ground (arith, length-fit_bytes (total + (length line + 1)) (line ∷ after) before)

fit_bytes_all :
    (total : ℕ) (after before : List Str)
    → total + text_bytes before ≤ max_script_log_bytes
    → fit_bytes total after before ≡ reverse_aux before after
unfolding text_bytes fit_bytes
fit_bytes_all total after [] fits = refl
fit_bytes_all total after (line ∷ before) fits =
    ground (arith, fit_bytes_all (total + (length line + 1)) (line ∷ after) before)

length-newest_lines : (lines : List Str) → length (newest_lines lines) ≤ max_script_log_lines + 1
length-newest_lines lines = ground (arith, length-drop (length lines - max_script_log_lines) lines)

abbrev console_lines : Str → List Str
console_lines s = split 10 (trim_right (λ c. c == 10) s)

-- Nothing is cut from a console of at most 200 lines and 65,536 bytes.
short-script_log_tail :
    (s : Str)
    → s ≢ []
    → length (console_lines s) ≤ max_script_log_lines
    → text_bytes (console_lines s) ≤ max_script_log_bytes
    → script_log_tail s ≡ console_lines s
unfolding script_log_tail
short-script_log_tail s full few small =
    let lines = console_lines s in
    let whole : newest_lines lines ≡ lines = ground arith in
    let sized = text_bytes-reverse_aux lines [] in
    ground (
      arith,
      str_eq_iff s [],
      whole,
      text_bytes_nil,
      sized,
      fit_bytes_all 0 [] (reverse lines),
      reverse-reverse lines,
    )

-- What is kept of the console is at most 201 lines and, with their newlines, 65,561 bytes, however
-- much a script has written.
pub script_log_tail_bounds :
    (s : Str) → (length (script_log_tail s) ≤ 201) × (text_bytes (script_log_tail s) ≤ 65561)
unfolding script_log_tail
script_log_tail_bounds s =
    let kept = newest_lines (console_lines s) in
    let before = length-reverse_aux kept [] in
    (
      ground (
        arith,
        before,
        length-newest_lines (console_lines s),
        length-fit_bytes 0 [] (reverse kept),
      ),
      ground (arith, text_bytes_nil, text_bytes-fit_bytes 0 [] (reverse kept)),
    )
