-- ===== src/Api/Realtime/Relayed.antt =====
-- What goes through a relay.
use post_lite.Base.{length, Str, ℕ, ◌+◌, ◌≡◌, refl, ap, List, [], ◌∷◌, map, arith}
use post_lite.Executor.Redact.{text}
use post_lite.Api.Realtime.Relay.{
  truncate_line, tally, Relay, Message, from_browser, from_upstream, relay_message, relay_all,
}

-- A message as the other side is to see it
abbrev seen : List Str → Message → Message
seen r (from_browser msg) = from_browser msg
seen r (from_upstream msg) = from_upstream (text r msg)

abbrev from_up : Message → ℕ
from_up (from_browser msg) = 0
from_up (from_upstream msg) = 1

abbrev total : (Message → ℕ) → List Message → ℕ
total f [] = 0
total f (m ∷ ms) = f m + total f ms

-- However the two directions interleave, every message is sent on, in its order, what comes from upstream
-- masked; and the messages of both directions are counted.
pub relay_all_lem :
    (r : List Str) (ms : List Message) (t : Relay)
    → let (out, after) = relay_all r ms t in
      (out ≡ map (seen r) ms)
      × (after.up.count ≡ t.up.count + total from_up ms)
      × (after.down.count + after.up.count ≡ t.down.count + t.up.count + length ms)
unfolding relay_all relay_message
relay_all_lem r [] t = (refl, omega arith, omega arith)
relay_all_lem r (from_browser msg ∷ ms) t =
    let next : Relay = record t { down = tally (truncate_line msg 500) t.down } in
    let (sent, up, both) = relay_all_lem r ms next in
    (ap (λ out. from_browser msg ∷ out) sent, omega (arith, up), omega (arith, both))
relay_all_lem r (from_upstream msg ∷ ms) t =
    let next : Relay = record t { up = tally (truncate_line (text r msg) 500) t.up } in
    let (sent, up, both) = relay_all_lem r ms next in
    (ap (λ out. from_upstream (text r msg) ∷ out) sent, omega (arith, up), omega (arith, both))
