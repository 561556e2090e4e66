-- ===== src/Executor/WsFrame/Messages.antt =====
-- ReadMessage of internal/executor/wsframe.go: one message from the frames that follow.
use post_lite.Base.{
  ltb, leb, ◌==◌, if◌then◌else◌, le→ltb, Bool-cases, length, All, length-append, Str, ℕ, zero, suc,
  ◌+◌, ◌*◌, ◌≤◌, ◌<◌, ◌≡◌, ◌∙◌, inl, inr, Bool, true, false, Option, none, some, List, [], ◌∷◌,
  ◌++◌, append_assoc, append-nil, arith,
}
use post_lite.Executor.WsFrame.RoundTrip.{AreBytes, IsKey, read_frame-write_frame}
use post_lite.Executor.WsFrame.Limits.{IsBounded, read_frame-IsBounded}
use post_lite.Executor.WsFrame.{
  ws_max_frame_bytes, WsError, message_too_large, unknown_opcode, closed, frame_header, MaskKey,
  no_key, write_frame, Frame, frame, failed, panicked, read_frame,
}

-- The payload of a message, or an error; the input that is left; what was written meanwhile
pub data Outcome : Type 0 where
  message : Str → Str → Str → Outcome
  error : WsError → Str → Outcome
  fault : Outcome
  out_of_fuel : Outcome

abbrev pub written : Option Str → Str
written none = []
written (some bs) = bs

-- The body of the loop after a frame. A control frame is answered unmasked, its failures ignored;
-- `key` plays no part there. `next` is the rest of the loop.
abbrev pub on_frame : (Str → Str → Str → Outcome) → Str → Str → Frame → Outcome
on_frame next msg out (failed e) = error e out
on_frame next msg out panicked = fault
on_frame next msg out (frame fin opcode payload rest) =
    let checked = λ (msg' : Str) (out' : Str).
      if ltb ws_max_frame_bytes (length msg')
      then error message_too_large out'
      else next msg' rest out' in
    if leb opcode 2
    then (if fin then message (msg ++ payload) rest out else checked (msg ++ payload) out)
    else if opcode == 8
    then error closed (out ++ written (write_frame no_key 8 [] false))
    else if opcode == 9
    then checked msg (out ++ written (write_frame no_key 10 payload false))
    else if opcode == 10
    then checked msg out
    else error (unknown_opcode opcode) out

-- Each round reads a frame of two bytes at least, so more rounds than input bytes are never needed.
unfoldable pub read_message_from : ℕ → Str → Str → Str → Outcome
unfolding read_frame
read_message_from zero msg input out = out_of_fuel
read_message_from (suc fuel) msg input out =
    on_frame (λ msg' rest out'. read_message_from fuel msg' rest out') msg out (read_frame input)

unfoldable pub read_message : Str → Outcome
read_message input = read_message_from (length input + 1) [] input []

-- What any run of the loop that returns has done: the message is at most twice the limit of a
-- frame, and a message leaves less input than it found.
abbrev pub IsWithin : Str → Outcome → Type 0
IsWithin input (message msg rest out) =
    (length msg ≤ 2 * ws_max_frame_bytes) × (length rest + 2 ≤ length input)
IsWithin input (error e out) = Unit
IsWithin input fault = Unit
IsWithin input out_of_fuel = ⊥

IsWithin-more :
    (input more : Str) (o : Outcome)
    → length input ≤ length more
    → IsWithin input o
    → IsWithin more o
IsWithin-more input more (message msg rest out) h w = omega arith
IsWithin-more input more (error e out) h w = tt
IsWithin-more input more fault h w = tt
IsWithin-more input more out_of_fuel h w = w

module _ (next : Str → Str → Str → Outcome) (input : Str)
    (ih : (msg rest out : Str)
      → length msg ≤ ws_max_frame_bytes
      → length rest + 2 ≤ length input
      → IsWithin input (next msg rest out)) where
  checked-IsWithin :
      (msg rest out : Str)
      → length rest + 2 ≤ length input
      → IsWithin input (
          if ltb ws_max_frame_bytes (length msg)
          then error message_too_large out
          else next msg rest out)
  checked-IsWithin msg rest out h = elim (Bool-cases (ltb ws_max_frame_bytes (length msg))) [
    | inl large ↦ rw large tt
    | inr fits ↦ rw fits (ih msg rest out (ground arith) h)
  ]

  on_frame-IsWithin :
      (msg out : Str) (f : Frame)
      → length msg ≤ ws_max_frame_bytes
      → IsBounded input f
      → IsWithin input (on_frame next msg out f)
  on_frame-IsWithin msg out (failed e) h b = tt
  on_frame-IsWithin msg out panicked h b = tt
  on_frame-IsWithin msg out (frame fin opcode payload rest) h b = ground (
    arith,
    checked-IsWithin (msg ++ payload) rest out,
    checked-IsWithin msg rest (out ++ written (write_frame no_key 10 payload false)),
    checked-IsWithin msg rest out,
    length-append msg payload,
  )

read_message_from-IsWithin :
    (fuel : ℕ) (msg input out : Str)
    → length input < fuel
    → length msg ≤ ws_max_frame_bytes
    → IsWithin input (read_message_from fuel msg input out)
unfolding read_message_from
read_message_from-IsWithin zero msg input out h m = absurd (omega arith)
read_message_from-IsWithin (suc fuel) msg input out h m =
    on_frame-IsWithin _ input
      (λ msg' rest out' m' r.
        IsWithin-more rest input _ (omega arith)
          (read_message_from-IsWithin fuel msg' rest out' (omega arith) m'))
      msg out (read_frame input) m (read_frame-IsBounded input)

-- ReadMessage ends on every input, and a message that it returns is at most 2 MB long.
pub read_message-IsWithin : (input : Str) → IsWithin input (read_message input)
unfolding read_message
read_message-IsWithin input =
    read_message_from-IsWithin (length input + 1) [] input [] (omega arith) (omega arith)

-- Pings that a peer has written, one after the other, before `more`; and what answers them
unfoldable pub pings : MaskKey → Bool → List Str → Str → Str
pings key mask [] more = more
pings key mask (p ∷ ps) more = written (write_frame key 9 p mask) ++ pings key mask ps more

unfoldable pub pongs : List Str → Str
pongs [] = []
pongs (p ∷ ps) = written (write_frame no_key 10 p false) ++ pongs ps

abbrev pub Fits : Str → Type 0
Fits p = AreBytes p × (length p ≤ ws_max_frame_bytes)

read_frame-written :
    (key : MaskKey) (opcode : ℕ) (payload rest : Str) (mask : Bool)
    → opcode < 16
    → IsKey key
    → Fits payload
    → read_frame (written (write_frame key opcode payload mask) ++ rest)
      ≡ frame true opcode payload rest
read_frame-written key opcode payload rest mask small hk h =
    let (out, wrote, read) = read_frame-write_frame key opcode payload rest mask small hk h.0 h.1 in
    rw wrote read

length-written :
    (key : MaskKey) (opcode : ℕ) (payload : Str) (mask : Bool)
    → length payload ≤ ws_max_frame_bytes
    → 1 ≤ length (written (write_frame key opcode payload mask))
unfolding write_frame frame_header
length-written key opcode payload mask h =
    rw (le→ltb ws_max_frame_bytes (length payload) h) (omega arith)

length-pings :
    (key : MaskKey) (mask : Bool) (ps : List Str) (more : Str)
    → All Fits ps
    → length ps ≤ length (pings key mask ps more)
unfolding pings
length-pings key mask [] more h = omega arith
length-pings key mask (p ∷ ps) more h = omega (
  arith,
  length-append (written (write_frame key 9 p mask)) (pings key mask ps more),
  length-written key 9 p mask h.0.1,
  length-pings key mask ps more h.1,
)

read_message_from-pings :
    (fuel : ℕ) (key : MaskKey) (mask : Bool) (ps : List Str) (payload rest out : Str)
    → length ps < fuel
    → IsKey key
    → All Fits ps
    → Fits payload
    → read_message_from fuel []
        (pings key mask ps (written (write_frame key 1 payload mask) ++ rest))
        out
      ≡ message payload rest (out ++ pongs ps)
unfolding read_message_from pings pongs
read_message_from-pings zero key mask ps payload rest out h hk hs hp = absurd (omega arith)
read_message_from-pings (suc fuel) key mask [] payload rest out h hk hs hp =
    rw (read_frame-written key 1 payload rest mask (omega arith) hk hp, append-nil)
read_message_from-pings (suc fuel) key mask (p ∷ ps) payload rest out h hk hs hp =
    rw (read_frame-written key 9 p _ mask (omega arith) hk hs.0) (
      read_message_from-pings fuel key mask ps payload rest _ (omega arith) hk hs.1 hp
      ∙ rw append_assoc)

-- ReadMessage on any number of pings and then a text frame, all written by a peer that masks or one
-- that does not, returns the text, leaves what follows it, and has answered each ping, in order,
-- with a pong of the same payload.
pub read_message-pings :
    (key : MaskKey) (mask : Bool) (ps : List Str) (payload rest : Str)
    → IsKey key
    → All Fits ps
    → Fits payload
    → read_message (pings key mask ps (written (write_frame key 1 payload mask) ++ rest))
      ≡ message payload rest (pongs ps)
unfolding read_message
read_message-pings key mask ps payload rest hk hs hp =
    read_message_from-pings _ key mask ps payload rest []
      (omega
        (arith, length-pings key mask ps (written (write_frame key 1 payload mask) ++ rest) hs))
      hk hs hp
