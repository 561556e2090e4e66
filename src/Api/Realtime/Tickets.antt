-- ===== src/Api/Realtime/Tickets.antt =====
-- What a ticket is good for.
use post_lite.Base.{
  ltb, if◌then◌else◌, Bool-cases, All, Str, str_eq, str_eq_refl, GoMap, lookup, delete, insert,
  lookup-delete, lookup-insert, ℕ, ◌+◌, ◌≡◌, refl, ◌∙◌, inl, inr, false, Option, none, some, [],
  ◌∷◌, arith,
}
use post_lite.Api.Execute.{ExecEnv}
use post_lite.Api.Realtime.{ticket_ttl, Ticket, sweep, mint_ticket, take_found, take_ticket}

module _ (env : ExecEnv) where
  lookup-sweep :
      (now : ℕ) (id : Str) (t : Ticket env) (m : GoMap (Ticket env))
      → lookup id m ≡ some t
      → ltb t.expires now ≡ false
      → lookup id (sweep env now m) ≡ some t
  unfolding lookup sweep
  lookup-sweep now id t [] found live = absurd (ground arith)
  lookup-sweep now id t ((k, x) ∷ m) found live = ground (arith, lookup-sweep now id t m)

  -- A ticket that was minted can be taken for the next 60 seconds, as it was minted, and then no more;
  -- and once it was taken, whatever came of it, it cannot be taken again.
  pub take_ticket-mint_ticket :
      (now later again : ℕ) (id : Str) (t : Ticket env) (tickets : GoMap (Ticket env))
      → let ticket : Ticket env = record t { expires = now + ticket_ttl } in
        let taken = take_ticket env later id (mint_ticket env now id t tickets) in
        (taken.0 ≡ (if ltb (now + ticket_ttl) later then none else some ticket))
        × ((take_ticket env again id taken.1).0 ≡ none)
  unfolding take_ticket mint_ticket
  take_ticket-mint_ticket now later again id t tickets =
      let ticket : Ticket env = record t { expires = now + ticket_ttl } in
      let m = insert id ticket tickets in
      let there : lookup id m ≡ some ticket =
        lookup-insert id id ticket tickets ∙ rw (str_eq_refl id) refl in
      let live = lookup-sweep now id ticket m there (ground arith) in
      rw (live, lookup-delete id id (sweep env now m), str_eq_refl id) (refl, refl)

-- What all tickets in the map satisfy
module _ (env : ExecEnv) (P : Ticket env → Type 0) where
  abbrev pub AllTickets : GoMap (Ticket env) → Type 0
  AllTickets = All (λ e. P e.1)

  pub sweep-AllTickets :
      (now : ℕ) (m : GoMap (Ticket env)) → AllTickets m → AllTickets (sweep env now m)
  unfolding sweep
  sweep-AllTickets now [] h = h
  sweep-AllTickets now ((k, t) ∷ m) h = elim (Bool-cases (ltb t.expires now)) [
    | inl old ↦ rw old (sweep-AllTickets now m h.1)
    | inr live ↦ rw live (h.0, sweep-AllTickets now m h.1)
  ]

  pub insert-AllTickets :
      (id : Str) (t : Ticket env) (m : GoMap (Ticket env))
      → P t
      → AllTickets m
      → AllTickets (insert id t m)
  unfolding insert
  insert-AllTickets id t [] p h = (p, tt)
  insert-AllTickets id t ((k, x) ∷ m) p h = elim (Bool-cases (str_eq k id)) [
    | inl same ↦ rw same (p, h.1)
    | inr other ↦ rw other (h.0, insert-AllTickets id t m p h.1)
  ]

  pub delete-AllTickets :
      (id : Str) (m : GoMap (Ticket env)) → AllTickets m → AllTickets (delete id m)
  unfolding delete
  delete-AllTickets id [] h = h
  delete-AllTickets id ((k, x) ∷ m) h = elim (Bool-cases (str_eq k id)) [
    | inl same ↦ rw same (delete-AllTickets id m h.1)
    | inr other ↦ rw other (h.0, delete-AllTickets id m h.1)
  ]

  pub lookup-AllTickets :
      (id : Str) (t : Ticket env) (m : GoMap (Ticket env))
      → AllTickets m
      → lookup id m ≡ some t
      → P t
  unfolding lookup
  lookup-AllTickets id t [] h found = absurd (ground arith)
  lookup-AllTickets id t ((k, x) ∷ m) h found = elim (Bool-cases (str_eq k id)) [
    | inl same ↦ let is_t : x ≡ t = ground arith in rw (← is_t) h.0
    | inr other ↦ lookup-AllTickets id t m h.1 (ground arith)
  ]

  pub take_found-AllTickets :
      (now : ℕ) (id : Str) (m : GoMap (Ticket env)) (o : Option (Ticket env))
      → AllTickets m
      → AllTickets (take_found env now id m o).1
  take_found-AllTickets now id m none h = h
  take_found-AllTickets now id m (some t) h = delete-AllTickets id m h
