-- ===== src/Executor/Sse.antt =====
-- internal/executor/sse.go: the parser of event blocks, and the reading loop of DialSSE, from the
-- first byte of a response with status 200. Opening the connection is not modelled here.
pub mod RoundTrip
pub mod Stream
use post_lite.Base.{
  ltb, ◌==◌, if◌then◌else◌, length, Str, codes, str_eq, has_prefix, trim_right, trim_space, split,
  join, cut, ℕ, ◌+◌, Bool, true, false, not, ◌&&◌, ◌||◌, List, [], ◌∷◌, ◌++◌,
}
use post_lite.Executor.WsFrame.{ws_max_frame_bytes}

pub record SseEvent : Type 0 where
  pub type : Str
  pub payload : Str
  pub id : Str

-- The variables of ParseSSEEvent's loop
pub record Parsing : Type 0 where
  pub type : Str
  pub lines : List Str
  pub id : Str

-- if strings.HasPrefix(value, " ") { value = value[1:] }
abbrev pub drop_space : Str → Str
drop_space [] = []
drop_space (c ∷ s) = if c == 32 then s else c ∷ s

-- switch strings.TrimSpace(name)
abbrev pub on_field : Str → Str → Parsing → Parsing
on_field name value p =
    if str_eq name (codes "event")
    then record p { type = value }
    else if str_eq name (codes "data")
    then record p { lines = p.lines ++ value ∷ [] }
    else if str_eq name (codes "id")
    then record p { id = value }
    else p

-- One round of the loop: empty lines and comments are passed over
unfoldable pub on_line : Parsing → Str → Parsing
on_line p line =
    if str_eq line [] || has_prefix line (codes ":")
    then p
    else let (name, value) = cut b':' line in on_field (trim_space name) (drop_space value) p

unfoldable pub parse_lines : Parsing → List Str → Parsing
unfolding on_line
parse_lines p [] = p
parse_lines p (l ∷ ls) = parse_lines (on_line p l) ls

abbrev pub start : Parsing
start = record { type = []; lines = []; id = [] }

unfoldable pub parse_sse_event : Str → SseEvent
unfolding parse_lines
parse_sse_event block =
    let p = parse_lines start (split 10 block) in
    record { type = p.type; payload = join (codes "\n") p.lines; id = p.id }

-- The loop of DialSSE: the block that is being read, the events counted, the events handed to
-- `yield` (the newest first)
pub record Reading : Type 0 where
  pub block : Str
  pub seen : ℕ
  pub yielded : List SseEvent

pub data Ending : Type 0 where
  finished : List SseEvent → Ending
  cancelled : List SseEvent → Ending

abbrev pub is_line_end : ℕ → Bool
is_line_end c = (c == 10) || (c == 13)

-- `yield` is the caller's function, which may look at what it was handed before; `done` says whether
-- the context has ended when a line has been read with so many lines left; `max_events` 0 is no limit.
module _ (yield : List SseEvent → SseEvent → Bool) (done : ℕ → Bool) (max_events : ℕ) where
  -- flush: the new state, and whether to go on
  unfoldable pub flush : Reading → Reading × Bool
  flush r =
      let ev = parse_sse_event r.block in
      let n = r.seen + 1 in
      if str_eq r.block []
      then (r, true)
      else if str_eq ev.payload [] && str_eq ev.type [] && str_eq ev.id []
      then (record r { block = [] }, true)
      else if ltb 0 max_events && ltb max_events n
      then (record r { block = []; seen = n }, false)
      else (record { block = []; seen = n; yielded = ev ∷ r.yielded }, yield r.yielded ev)

  -- The end of the stream: a trailing block is one more event
  unfoldable pub at_end : Reading → List SseEvent
  at_end r =
      let ev = parse_sse_event r.block in
      if not (str_eq r.block []) && (not (str_eq ev.payload []) || not (str_eq ev.type []))
      then ev ∷ r.yielded
      else r.yielded

  -- block.WriteString(line + "\n"), and the guard on its size
  abbrev pub grow : Reading → Str → Reading
  grow r line =
      let block = r.block ++ line ++ codes "\n" in
      if ltb ws_max_frame_bytes (length block)
      then record r { block = [] }
      else record r { block = block }

  -- The lines of the stream; the last one has no newline, and its read fails.
  unfoldable pub read_lines : List Str → Reading → Ending
  unfolding flush at_end
  read_lines [] r = finished (at_end r)
  read_lines (l ∷ []) r = finished (at_end r)
  read_lines (l ∷ m ∷ ls) r =
      let line = trim_right is_line_end l in
      let (flushed, more) = flush r in
      let after_flush = read_lines (m ∷ ls) flushed in
      let after_line = read_lines (m ∷ ls) (grow r line) in
      if str_eq line []
      then (if more then after_flush else finished flushed.yielded)
      else if done (length (m ∷ ls))
      then cancelled (grow r line).yielded
      else after_line

  unfoldable pub dial_sse : Str → Ending
  unfolding read_lines
  dial_sse input = read_lines (split 10 input) (record { block = []; seen = 0; yielded = [] })
