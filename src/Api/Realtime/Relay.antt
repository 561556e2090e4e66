-- ===== src/Api/Realtime/Relay.antt =====
-- internal/httpapi/realtime.go: what the relay sends on and what it keeps of it. The two directions of
-- a WebSocket run side by side: a message is one step of one of them.
use post_lite.Base.{
  ltb, ◌==◌, if◌then◌else◌, length, take, Str, codes, str_eq, split, show_int, ℕ, ◌+◌, Bool, not,
  ◌&&◌, Option, none, List, [], ◌∷◌, ◌++◌,
}
use post_lite.Executor.Redact.{text}
use post_lite.Executor.Sse.{SseEvent}
use post_lite.Store.History.{insert_history, purge_history}
use post_lite.Api.{M, modify}
use post_lite.Api.Settings.{history_key, setting_or}
use post_lite.Api.Execute.{ExecEnv}
use post_lite.Api.Execute.Handler.{keep_or}
use post_lite.Api.Realtime.{Ticket}

-- 8 << 10
abbrev pub realtime_max_log : ℕ
realtime_max_log = 8192

-- strings.ReplaceAll(s, "\n", "\\n")
unfoldable pub escape_newlines : Str → Str
escape_newlines [] = []
escape_newlines (c ∷ s) =
    let rest = escape_newlines s in if c == 10 then b'\\' ∷ b'n' ∷ rest else c ∷ rest

-- The three bytes of "…"
abbrev pub ellipsis : Str
ellipsis = 226 ∷ 128 ∷ 166 ∷ []

unfoldable pub truncate_line : Str → ℕ → Str
unfolding escape_newlines
truncate_line s n =
    let escaped = escape_newlines s in
    if ltb n (length escaped) then take n escaped ++ ellipsis else escaped

-- One direction: how many messages, and their summary
pub record Tally : Type 0 where
  pub count : ℕ
  pub log : Str

abbrev pub log_entry : ℕ → Str → Str
log_entry count line = codes "[" ++ show_int count ++ codes "] " ++ line ++ 10 ∷ []

-- fmt.Fprintf to the summary while it is short enough
abbrev pub tally : Str → Tally → Tally
tally line t =
    let log =
      if ltb (length t.log) realtime_max_log
      then t.log ++ log_entry (t.count + 1) line
      else t.log in
    record { count = t.count + 1; log = log }

pub record Relay : Type 0 where
  pub up : Tally
  pub down : Tally

pub data Message : Type 0 where
  from_browser : Str → Message
  from_upstream : Str → Message

abbrev pub new_relay : Relay
new_relay = record { up = record { count = 0; log = [] }; down = record { count = 0; log = [] } }

-- A message that was read: what is sent on, and the relay afterwards
unfoldable pub relay_message : List Str → Message → Relay → Message × Relay
unfolding truncate_line
relay_message r (from_browser msg) t =
    (from_browser msg, record t { down = tally (truncate_line msg 500) t.down })
relay_message r (from_upstream msg) t =
    let red = text r msg in
    (from_upstream red, record t { up = tally (truncate_line red 500) t.up })

unfoldable pub relay_all : List Str → List Message → Relay → List Message × Relay
unfolding relay_message
relay_all r [] t = ([], t)
relay_all r (m ∷ ms) t =
    let (m', t') = relay_message r m t in let (ms', t'') = relay_all r ms t' in (m' ∷ ms', t'')

-- What realtimeWS keeps for the history
unfoldable pub ws_summary : List Str → Str → Relay → Str
ws_summary r subprotocol t =
    codes "ws frames up="
    ++ show_int t.down.count
    ++ codes " down="
    ++ show_int t.up.count
    ++ codes " subprotocol="
    ++ subprotocol
    ++ codes "\n-- to upstream --\n"
    ++ text r t.down.log
    ++ codes "\n-- from upstream --\n"
    ++ t.up.log

-- The lines of an event as they are sent to the browser
unfoldable pub field_lines : Str → List Str → Str
field_lines name [] = []
field_lines name (l ∷ ls) = name ++ l ++ 10 ∷ field_lines name ls

abbrev pub optional_line : Str → Str → Str
optional_line name value = if str_eq value [] then [] else field_lines name (value ∷ [])

unfoldable pub sse_output : List Str → SseEvent → Str
unfolding field_lines
sse_output r ev =
    optional_line (codes "event: ") ev.type
    ++ optional_line (codes "id: ") ev.id
    ++ field_lines (codes "data: ") (split 10 (text r ev.payload))
    ++ 10 ∷ []

abbrev pub sse_line : List Str → SseEvent → Str
sse_line r ev =
    codes "event="
    ++ ev.type
    ++ codes " id="
    ++ ev.id
    ++ codes " "
    ++ truncate_line (text r ev.payload) 500

abbrev pub is_filtered : Str → SseEvent → Bool
is_filtered event_type ev =
    not (str_eq event_type []) && not (str_eq ev.type []) && not (str_eq ev.type event_type)

-- The yield of realtimeSSE over the events: what is written to the browser
unfoldable pub relay_events : List Str → Str → List SseEvent → Tally → Str × Tally
unfolding sse_output truncate_line
relay_events r event_type [] t = ([], t)
relay_events r event_type (ev ∷ evs) t =
    let skipped = relay_events r event_type evs t in
    let (rest, t') = relay_events r event_type evs (tally (sse_line r ev) t) in
    if is_filtered event_type ev then skipped else (sse_output r ev ++ rest, t')

module _ (env : ExecEnv) where
  -- writeRealtimeHistory; the setting is read by fmt.Sscanf, as far as it is a number
  unfoldable pub write_realtime_history :
      (Str → Option ℕ) → ℕ → Ticket env → Str → ℕ → ℕ → Str → M (Unit {0})
  write_realtime_history scan now t method status duration summary = modify (λ db.
      let db' =
        (insert_history now none t.user.id method t.safe_url status duration
          (text t.redactor (method ++ codes " " ++ t.safe_url)) (take 1048576 summary) db).1 in
      let v = setting_or history_key [] db' in
      purge_history (if str_eq v [] then env.max_history else keep_or env (scan v)) db')
