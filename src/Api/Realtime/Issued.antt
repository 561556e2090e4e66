-- ===== src/Api/Realtime/Issued.antt =====
-- What a ticket says of the request that it was handed out for.
use post_lite.Api.Settings.{whitelist_key, setting_or}
use post_lite.Executor.Redact.{new_redactor, text}
use post_lite.Base.{
  ltb, if◌then◌else◌, Bool-cases, Option-cases, Str, codes, str_eq, str_eq_iff, contains,
  sort_strings, GoMap, lookup, insert, ℕ, ◌+◌, ◌≤◌, ◌≡◌, refl, sym, ap, ◌∙◌, ◌⊎◌, inl, inr, true,
  false, ◌||◌, Option, none, some, List, [], ◌∷◌, map, arith,
}
use post_lite.Executor.Target.{TargetError, Checked, passed, refused, parse_whitelist}
use post_lite.Executor.Resolve.{Resolver, used_secrets}
use post_lite.Store.{User, Db}
use post_lite.Api.{State, Res, ret, fail, and_then-eq-ret}
use post_lite.Api.Execute.{ExecEnv, request_values}
use post_lite.Api.Realtime.{
  ticket_ttl, Channel, RealtimeBody, is_ws, Ticket, mint_ticket, take_ticket, load_channel,
  check_channel, resolved_channel, ticket_for, connect_channel, connect_ticket, minted,
  realtime_connect, open_ticket,
}
use post_lite.Api.Realtime.Tickets.{
  AllTickets, sweep-AllTickets, insert-AllTickets, lookup-AllTickets, take_found-AllTickets,
}
use post_lite.Crypto.Vault.{Aead}
use post_lite.Api.Secrets.{secret_of}
use post_lite.Api.Execute.Content.{look_up_all}
use post_lite.Store.Settings.{get_setting}

module _ (env : ExecEnv) where
  -- The target of the ticket has passed the policy under the whitelist that it carries.
  abbrev pub IsSafe : Ticket env → Type 0
  IsSafe t = check_channel env t.protocol t.whitelist t.channel.url ≡ passed tt

  abbrev or_blank : Option Str → Str
  or_blank none = []
  or_blank (some v) = v

  -- The whitelist that is stored in the settings
  abbrev pub stored_whitelist : Db → Option (List env.net.Cidr)
  stored_whitelist db = parse_whitelist env.net (or_blank (get_setting (codes "ssrf_whitelist") db))

  -- A ticket for the user, under the whitelist that is stored in the state
  abbrev IsMade : User → State → Ticket env → Type 0
  IsMade u s t = IsSafe t × (stored_whitelist s.db ≡ some t.whitelist) × (t.user ≡ u)

  read_whitelist :
      (o : Option Str)
      → or_blank o ≡ (elim o [ none ↦ [] | some v ↦ if str_eq v [] then [] else v ])
  read_whitelist none = refl
  read_whitelist (some v) = ground (arith, str_eq_iff v [])

  stored :
      (db : Db) → stored_whitelist db ≡ parse_whitelist env.net (setting_or whitelist_key [] db)
  unfolding setting_or
  stored db = ap (parse_whitelist env.net) (read_whitelist (get_setting whitelist_key db))

  load_channel-kept :
      (u : User) (id : Option ℕ) (c : Channel) (s : State) → (load_channel env u id c s).1 ≡ s
  load_channel-kept u none c s = ground arith
  load_channel-kept u (some id) c s = ground arith

  loaded-kept :
      (u : User) (id : Option ℕ) (c : Channel) (s : State) (c' : Channel) (s₁ : State)
      → load_channel env u id c s ≡ (ret c', s₁)
      → s₁ ≡ s
  loaded-kept u id c s c' s₁ loaded = ap (λ m. m.1) (sym loaded) ∙ load_channel-kept u id c s

  look_up_all-db :
      (a : Aead) (clock : ℕ) (names : List Str) (s : State)
      → (look_up_all a clock names s).db ≡ s.db
  unfolding look_up_all secret_of
  look_up_all-db a clock [] s = refl
  look_up_all-db a clock (name ∷ names) s =
      look_up_all-db a clock names (secret_of a clock name s).1

  abbrev ticket_of : User → Str → Channel → Resolver → List (env.net.Cidr) → Ticket env × List Str
  ticket_of u protocol c resolver wl =
      let r = new_redactor (used_secrets resolver) in
      (
        record {
          protocol = protocol;
          channel = c;
          user = u;
          safe_url = text r c.url;
          redactor = r;
          whitelist = wl;
          expires = 0;
        },
        sort_strings resolver.warnings,
      )

  Checked_cases : (k : Checked (Unit {0})) → (k ≡ passed tt) ⊎ ((e : TargetError) × (k ≡ refused e))
  Checked_cases (passed ok) = inl refl
  Checked_cases (refused e) = inr (e, refl)

  ticket_for-IsMade :
      (u : User) (protocol : Str) (c : Channel) (resolver : Resolver) (s : State)
      (r : Ticket env × List Str) (s' : State)
      → ticket_for env u protocol c resolver s ≡ (ret r, s')
      → IsMade u s r.0
  unfolding ticket_for setting_or
  ticket_for-IsMade u protocol c resolver s r s' done =
      elim (Bool-cases (contains c.url (codes "{{"))) [
        | inl left ↦ absurd (ground arith)
        | inr clean ↦
            elim (Option-cases (parse_whitelist env.net (setting_or whitelist_key [] s.db))) [
              | inl bad ↦ absurd (ground arith)
              | inr (wl, good) ↦ elim (Checked_cases (check_channel env protocol wl c.url)) [
                | inr (e, stopped) ↦ absurd (ground arith)
                | inl ok ↦
                    let same : ticket_of u protocol c resolver wl ≡ r = ground arith in
                    rw (← same) (ok, stored s.db ∙ good, refl)
              ]
            ]
      ]

  connect_channel-IsMade :
      (clock : ℕ) (u : User) (b : RealtimeBody) (c : Channel) (s : State)
      (r : Ticket env × List Str) (s' : State)
      → connect_channel env clock u b c s ≡ (ret r, s')
      → IsMade u s r.0
  unfolding connect_channel
  connect_channel-IsMade clock u b c s r s' done =
      let m = resolved_channel env clock c (request_values env u b.active_env b.vars s.db) s in
      let (res, s₁, first, rest) =
        and_then-eq-ret m (λ res. ticket_for env u b.protocol res.0 res.1) r s' done in
      let kept : s₁.db ≡ s.db =
        sym (ap (λ m. m.1.db) first) ∙ look_up_all-db env.aead clock (map (λ p. p.0) _) s in
      let (safe, stored, owner) = ticket_for-IsMade u b.protocol res.0 res.1 s₁ r s' rest in
      (safe, ap stored_whitelist (sym kept) ∙ stored, owner)

  connect_ticket-IsMade :
      (clock : ℕ) (requester : Option User) (body : Option RealtimeBody) (s : State)
      (r : Ticket env × List Str) (s' : State)
      → connect_ticket env clock requester body s ≡ (ret r, s')
      → (u : User) × (requester ≡ some u) × IsMade u s r.0
  unfolding connect_ticket
  connect_ticket-IsMade clock none body s r s' done = absurd (ground arith)
  connect_ticket-IsMade clock (some u) none s r s' done = absurd (ground arith)
  connect_ticket-IsMade clock (some u) (some b) s r s' done =
      elim (Bool-cases (is_ws b.protocol || str_eq b.protocol (codes "sse"))) [
        | inr bad ↦ absurd (ground arith)
        | inl good ↦
            let (c, s₁, loaded, rest) =
              and_then-eq-ret (load_channel env u b.request_id b.channel s)
                (connect_channel env clock u b) r s' (ground arith) in
            let kept = loaded-kept u b.request_id b.channel s c s₁ loaded in
            let made = connect_channel-IsMade clock u b c s₁ r s' rest in
            (u, refl, rw (← kept) made)
      ]

  pub data Event : Type 0 where
    connect : ℕ → Str → Option User → Option RealtimeBody → State → Event
    opened : Str → ℕ → Str → Event

  -- The events, the latest first
  unfoldable pub after_events : List Event → GoMap (Ticket env)
  after_events [] = []
  after_events (connect clock id requester body s ∷ es) =
      (realtime_connect env clock id requester body (after_events es) s).1
  after_events (opened protocol now id ∷ es) = (open_ticket env protocol now id (after_events es)).1

  -- One of the events is a request of the ticket's user, at the time of the ticket, in a state whose
  -- settings hold the ticket's whitelist.
  unfoldable pub WasAsked : List Event → Ticket env → Type 0
  WasAsked [] t = ⊥
  WasAsked (connect clock id requester body s ∷ es) t =
      ((requester ≡ some t.user)
        × (stored_whitelist s.db ≡ some t.whitelist)
        × (t.expires ≡ clock + ticket_ttl))
      ⊎ WasAsked es t
  WasAsked (opened protocol now id ∷ es) t = WasAsked es t

  abbrev IsIssued : List Event → Ticket env → Type 0
  IsIssued es t = IsSafe t × WasAsked es t

  later_connect :
      (clock : ℕ) (id : Str) (requester : Option User) (body : Option RealtimeBody) (s : State)
      (es : List Event) (m : GoMap (Ticket env))
      → AllTickets env (IsIssued es) m
      → AllTickets env (IsIssued (connect clock id requester body s ∷ es)) m
  unfolding WasAsked
  later_connect clock id requester body s es [] h = tt
  later_connect clock id requester body s es (e ∷ m) h =
      ((h.0.0, inr h.0.1), later_connect clock id requester body s es m h.1)

  later_opened :
      (protocol : Str) (now : ℕ) (id : Str) (es : List Event) (m : GoMap (Ticket env))
      → AllTickets env (IsIssued es) m
      → AllTickets env (IsIssued (opened protocol now id ∷ es)) m
  unfolding WasAsked
  later_opened protocol now id es [] h = tt
  later_opened protocol now id es (e ∷ m) h = (h.0, later_opened protocol now id es m h.1)

  minted-AllTickets :
      (P : Ticket env → Type 0) (clock : ℕ) (id : Str) (m : GoMap (Ticket env))
      (r : Res (Ticket env × List Str) × State)
      → ((t : Ticket env × List Str) (s : State)
          → r ≡ (ret t, s)
          → P (record t.0 { expires = clock + ticket_ttl }))
      → AllTickets env P m
      → AllTickets env P (minted env clock id m r).1
  unfolding mint_ticket
  minted-AllTickets P clock id m (fail status code, s) p h = h
  minted-AllTickets P clock id m (ret (t, warnings), s) p h =
      let ticket : Ticket env = record t { expires = clock + ticket_ttl } in
      sweep-AllTickets env P clock (insert id ticket m)
        (insert-AllTickets env P id ticket m (p (t, warnings) s refl) h)

  connected-IsIssued :
      (clock : ℕ) (id : Str) (requester : Option User) (body : Option RealtimeBody) (s : State)
      (es : List Event) (t : Ticket env × List Str) (s' : State)
      → connect_ticket env clock requester body s ≡ (ret t, s')
      → IsIssued
          (connect clock id requester body s ∷ es)
          (record t.0 { expires = clock + ticket_ttl })
  unfolding WasAsked
  connected-IsIssued clock id requester body s es t s' done =
      let (u, sender, (safe, whitelist, owner)) =
        connect_ticket-IsMade clock requester body s t s' done in
      (safe, inl (sender ∙ ap some (sym owner), whitelist, refl))

  after_events-IsIssued : (es : List Event) → AllTickets env (IsIssued es) (after_events es)
  unfolding after_events realtime_connect open_ticket take_ticket
  after_events-IsIssued [] = tt
  after_events-IsIssued (connect clock id requester body s ∷ es) =
      minted-AllTickets (IsIssued (connect clock id requester body s ∷ es)) clock id
        (after_events es) (connect_ticket env clock requester body s)
        (connected-IsIssued clock id requester body s es)
        (later_connect clock id requester body s es (after_events es) (after_events-IsIssued es))
  after_events-IsIssued (opened protocol now id ∷ es) =
      take_found-AllTickets env (IsIssued (opened protocol now id ∷ es)) now id (after_events es)
        (lookup id (after_events es))
        (later_opened protocol now id es (after_events es) (after_events-IsIssued es))

  -- A ticket for a target outside the policy does not exist: after any sequence of requests for tickets,
  -- by anyone and with any settings at the time, and of connections that take them, whatever ticket opens
  -- a connection was handed out on one of these requests: to its user, under the whitelist that was
  -- stored then, 60 seconds before it expires. Its target has passed the policy under this whitelist,
  -- it has the protocol that the connection asks for, and it has not expired.
  pub open_ticket-IsSafe :
      (es : List Event) (protocol : Str) (now : ℕ) (id : Str) (t : Ticket env)
      → (open_ticket env protocol now id (after_events es)).0 ≡ some t
      → IsSafe t × WasAsked es t × (t.protocol ≡ protocol) × (now ≤ t.expires)
  unfolding open_ticket take_ticket
  open_ticket-IsSafe es protocol now id t found =
      let m = after_events es in
      elim (Option-cases (lookup id m)) [
        | inl missing ↦ absurd (ground arith)
        | inr (x, there) ↦
            let (safe, asked_for) =
              lookup-AllTickets env (IsIssued es) id x m (after_events-IsIssued es) there in
            let live : ltb x.expires now ≡ false = ground arith in
            let asked : str_eq x.protocol protocol ≡ true = ground arith in
            let same : x ≡ t = ground arith in
            rw (← same) (safe, asked_for, (str_eq_iff x.protocol protocol).0 asked, ground arith)
      ]
