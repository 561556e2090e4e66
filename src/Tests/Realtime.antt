-- ===== src/Tests/Realtime.antt =====
-- Tickets and the relay at concrete inputs.
use post_lite.Base.{codes, delete, ◌≤◌, String, ◌≡◌, refl, none, some, List, [], ◌∷◌}
use post_lite.Executor.Sse.{SseEvent}
use post_lite.Api.Realtime.{
  RealtimeBody, split_protocols, resolve_list, resolve_channel, Ticket, sweep, mint_ticket,
  take_ticket, check_channel, ticket_for, connect_channel, connect_ticket, realtime_connect,
  open_ticket,
}
use post_lite.Api.Realtime.Tickets.{take_ticket-mint_ticket}
use post_lite.Api.Realtime.Issued.{
  IsSafe, Event, connect, after_events, WasAsked, open_ticket-IsSafe,
}
use post_lite.Api.Realtime.Relay.{
  escape_newlines, truncate_line, from_browser, from_upstream, new_relay, relay_message, relay_all,
  field_lines, sse_output, relay_events,
}
use post_lite.Tests.Store.{bob}
use post_lite.Tests.Vault.{empty}
use post_lite.Tests.Execute.{execution, env}

realtime : Unit {0}
unfolding execution realtime_connect connect_ticket connect_channel ticket_for check_channel
    resolve_channel resolve_list mint_ticket take_ticket sweep open_ticket after_events delete
    relay_all relay_message truncate_line escape_newlines sse_output field_lines relay_events
    split_protocols
realtime = tt

abbrev asked : String → RealtimeBody
asked url = record {
  protocol = codes "ws";
  channel = record { url = codes url; headers = []; query = []; protocols = []; event_type = [] };
  request_id = none;
  vars = [];
  active_env = none;
}

abbrev events : List (Event env)
events =
    connect 5 (codes "t2") (some bob) (some (asked "ws://10.0.0.1")) empty
    ∷ connect 4 (codes "t1") (some bob) (some (asked "ws://good.test")) empty
    ∷ []

abbrev ticket : Ticket env
ticket = record {
  protocol = codes "ws";
  channel = (asked "ws://good.test").channel;
  user = bob;
  safe_url = codes "ws://good.test";
  redactor = [];
  whitelist = [];
  expires = 60000000004;
}

ticket_tests :
    ((open_ticket env (codes "ws") 6 (codes "t1") (after_events env events)).0 ≡ some ticket)
    × ((open_ticket env (codes "sse") 6 (codes "t1") (after_events env events)).0 ≡ none)
    × ((open_ticket env (codes "ws") 6 (codes "t2") (after_events env events)).0 ≡ none)
unfolding realtime
ticket_tests = (refl, refl, refl)

open_ticket-IsSafe_example :
    IsSafe env ticket
    × WasAsked env events ticket
    × (ticket.protocol ≡ codes "ws")
    × (6 ≤ ticket.expires)
unfolding realtime
open_ticket-IsSafe_example = open_ticket-IsSafe env events (codes "ws") 6 (codes "t1") ticket refl

take_ticket-mint_ticket_example :
    ((take_ticket env 60000000004 (codes "t1") (mint_ticket env 4 (codes "t1") ticket [])).0
      ≡ some ticket)
    × ((take_ticket env 7
          (codes "t1")
          (take_ticket env 60000000004 (codes "t1") (mint_ticket env 4 (codes "t1") ticket [])).1).0
        ≡ none)
take_ticket-mint_ticket_example = take_ticket-mint_ticket env 4 60000000004 7 (codes "t1") ticket []

abbrev event : SseEvent
event = record { type = codes "tick"; payload = codes "v1\nx"; id = [] }

relay_tests :
    (relay_all
        (codes "v1" ∷ [])
        (from_browser (codes "v1") ∷ from_upstream (codes "v1") ∷ [])
        new_relay
      ≡ (
        from_browser (codes "v1") ∷ from_upstream (codes "***") ∷ [],
        record {
          up = record { count = 1; log = codes "[1] ***\n" };
          down = record { count = 1; log = codes "[1] v1\n" };
        },
      ))
    × ((relay_events (codes "v1" ∷ []) [] (event ∷ []) new_relay.up).0
        ≡ codes "event: tick\ndata: ***\ndata: x\n\n")
    × ((relay_events [] (codes "tock") (event ∷ []) new_relay.up).0 ≡ [])
    × (split_protocols (codes " a, ,b ") ≡ codes "a" ∷ codes "b" ∷ [])
unfolding realtime
relay_tests = (refl, refl, refl, refl)
