-- ===== src/Executor/Sse/Stream.antt =====
-- What the reading loop of DialSSE hands on.
use post_lite.Base.{
  length, All, Str, str_eq, trim_right, split, ℕ, ◌+◌, ◌≤◌, ◌<◌, ◌≡◌, Bool, false, ◌&&◌, List, [],
  ◌∷◌, arith,
}
use post_lite.Executor.WsFrame.{ws_max_frame_bytes}
use post_lite.Executor.Sse.{
  SseEvent, Reading, Ending, finished, cancelled, is_line_end, flush, at_end, grow, read_lines,
  dial_sse,
}

abbrev pub events : Ending → List SseEvent
events (finished evs) = evs
events (cancelled evs) = evs

-- An event that says something
abbrev pub HasContent : SseEvent → Type 0
HasContent ev = str_eq ev.payload [] && str_eq ev.type [] && str_eq ev.id [] ≡ false

-- The loop's invariant
record IsSound (max_events : ℕ) (r : Reading) : Type 0 where
  counted : length r.yielded ≤ r.seen
  within : 0 < max_events → length r.yielded ≤ max_events
  content : All HasContent r.yielded
  small : length r.block ≤ ws_max_frame_bytes

module _ (yield : List SseEvent → SseEvent → Bool) (done : ℕ → Bool) (max_events : ℕ) where
  flush-IsSound :
      (r : Reading) → IsSound max_events r → IsSound max_events (flush yield done max_events r).0
  unfolding flush
  flush-IsSound r h = ground arith

  grow-IsSound :
      (r : Reading) (line : Str)
      → IsSound max_events r
      → IsSound max_events (grow yield done max_events r line)
  grow-IsSound r line h = ground arith

  abbrev IsFinal : List SseEvent → Type 0
  IsFinal evs = (0 < max_events → length evs ≤ max_events + 1) × All HasContent evs

  IsFinal-yielded : (r : Reading) → IsSound max_events r → IsFinal r.yielded
  IsFinal-yielded r h = ground arith

  at_end-IsFinal : (r : Reading) → IsSound max_events r → IsFinal (at_end yield done max_events r)
  unfolding at_end
  at_end-IsFinal r h = ground arith

  read_lines-IsFinal :
      (ls : List Str) (r : Reading)
      → IsSound max_events r
      → IsFinal (events (read_lines yield done max_events ls r))
  unfolding read_lines
  read_lines-IsFinal [] r h = at_end-IsFinal r h
  read_lines-IsFinal (l ∷ []) r h = at_end-IsFinal r h
  read_lines-IsFinal (l ∷ m ∷ ls) r h =
      let line = trim_right is_line_end l in
      let flushed = (flush yield done max_events r).0 in
      let grown = grow yield done max_events r line in
      ground (
        arith,
        IsFinal-yielded flushed (flush-IsSound r h),
        IsFinal-yielded grown (grow-IsSound r line h),
        read_lines-IsFinal (m ∷ ls) flushed (flush-IsSound r h),
        read_lines-IsFinal (m ∷ ls) grown (grow-IsSound r line h),
      )

dial_sse-IsFinal :
    (yield : List SseEvent → SseEvent → Bool) (done : ℕ → Bool) (max_events : ℕ) (input : Str)
    → IsFinal yield done max_events (events (dial_sse yield done max_events input))
unfolding dial_sse
dial_sse-IsFinal yield done max_events input =
    read_lines-IsFinal yield done max_events (split 10 input) _ (record {
      counted = omega arith;
      within = λ _. omega arith;
      content = tt;
      small = omega arith;
    })

-- Whatever the stream, the caller and the context do: with a limit on the number of events, at most one
-- more than the limit are handed on.
pub dial_sse_bounds :
    (yield : List SseEvent → SseEvent → Bool) (done : ℕ → Bool) (max_events : ℕ) (input : Str)
    → 0 < max_events
    → length (events (dial_sse yield done max_events input)) ≤ max_events + 1
dial_sse_bounds yield done max_events input limited =
    (dial_sse-IsFinal yield done max_events input).0 limited

-- Every event handed on has a payload, a type or an id, whatever the stream, the caller and the context
-- do.
pub dial_sse-HasContent :
    (yield : List SseEvent → SseEvent → Bool) (done : ℕ → Bool) (max_events : ℕ) (input : Str)
    → All HasContent (events (dial_sse yield done max_events input))
dial_sse-HasContent yield done max_events input = (dial_sse-IsFinal yield done max_events input).1
