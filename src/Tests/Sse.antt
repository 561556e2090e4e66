-- ===== src/Tests/Sse.antt =====
-- The event streams of internal/executor/sse.go at concrete inputs.
use post_lite.Base.{
  length, Str, codes, ℕ, ◌+◌, ◌≤◌, ◌≡◌, refl, Bool, true, false, List, [], ◌∷◌, arith,
}
use post_lite.Executor.Sse.{
  SseEvent, on_line, parse_lines, parse_sse_event, flush, at_end, read_lines, dial_sse,
}
use post_lite.Executor.Sse.RoundTrip.{print_event, parse_sse_event-print_event}
use post_lite.Executor.Sse.Stream.{events, dial_sse_bounds}

streams : Unit {0}
unfolding parse_sse_event parse_lines on_line print_event flush at_end read_lines dial_sse
streams = tt

abbrev stream : Str
stream = codes "event: a\ndata: 1\ndata: 2\n\n: note\n\ndata: 3\nid: 9\n\ndata: 4\ndata: 5"

abbrev go_on : List SseEvent → SseEvent → Bool
go_on seen ev = true

abbrev never : ℕ → Bool
never n = false

-- The last line has no newline: it is lost.
abbrev first : SseEvent
first = record { type = codes "a"; payload = codes "1\n2"; id = [] }

abbrev second : SseEvent
second = record { type = []; payload = codes "3"; id = codes "9" }

abbrev third : SseEvent
third = record { type = []; payload = codes "4"; id = [] }

stream_tests :
    (events (dial_sse go_on never 0 stream) ≡ third ∷ second ∷ first ∷ [])
    × (events (dial_sse go_on never 1 stream) ≡ first ∷ [])
unfolding streams
stream_tests = (refl, refl)

parse_sse_event-print_event_example : parse_sse_event (print_event first) ≡ first
parse_sse_event-print_event_example = parse_sse_event-print_event first (ground arith) tt

dial_sse_bounds_example : length (events (dial_sse go_on never 2 stream)) ≤ 2 + 1
dial_sse_bounds_example = dial_sse_bounds go_on never 2 stream (omega arith)
