-- ===== src/Api/Environments/Access.antt =====
-- What the environment handlers let a user change.
use post_lite.Base.{
  ◌==◌, if◌then◌else◌, Bool-cases, ℕ_cases, Option-cases, Str, str_eq, GoMap, ℕ, ◌+◌, ◌≡◌, refl,
  ◌≢◌, ◌⊎◌, inl, inr, true, false, not, Option, none, some, [], arith,
}
use post_lite.Store.{User, Environment, Db, last_id}
use post_lite.Store.Tables.{
  find_by-keep, find_by-update, find_by-eq-some, find_by-le-last_id, find_by-append,
}
use post_lite.Store.Access.{can_manage_environment}
use post_lite.Store.Environments.{
  create_environment, get_environment, update_environment, delete_environment,
}
use post_lite.Api.{State, M, attempt}
use post_lite.Api.Collections.Access.{IsFailure}
use post_lite.Api.Environments.{
  EnvBody, or_user, vars_json, create_environment_handler, update_environment_handler,
  delete_environment_handler,
}

create_environment-keeps :
    (name scope : Str) (owner : Option ℕ) (vars : Str) (i k : ℕ) (db db' : Db) (e : Environment)
    → create_environment name scope owner vars db ≡ some (i, db')
    → get_environment k db ≡ some e
    → get_environment k db' ≡ some e
unfolding create_environment get_environment
create_environment-keeps name scope owner vars i k db db' e made found =
    let new : Environment = record {
      id = last_id Environment.id db.environments + 1;
      name = name;
      scope = scope;
      owner_id = owner;
      vars = vars;
    } in
    ground (
      arith,
      find_by-append Environment.id k db.environments new,
      find_by-le-last_id Environment.id k db.environments e found,
    )

attempt_create-keeps :
    (name scope : Str) (owner : Option ℕ) (vars : Str) (k : ℕ) (s : State) (e : Environment)
    → get_environment k s.db ≡ some e
    → get_environment k (attempt 500 "internal" (create_environment name scope owner vars) s).1.db
      ≡ some e
attempt_create-keeps name scope owner vars k s e found =
    elim (Option-cases (create_environment name scope owner vars s.db)) [
      | inl refused ↦ rw refused found
      | inr ((i, db'), made) ↦
          rw made (create_environment-keeps name scope owner vars i k s.db db' e made found)
    ]

update_environment-keeps :
    (i k : ℕ) (name vars : Str) (db db' : Db) (e : Environment)
    → i ≢ k
    → update_environment i name vars db ≡ some db'
    → get_environment k db ≡ some e
    → get_environment k db' ≡ some e
unfolding update_environment get_environment
update_environment-keeps i k name vars db db' e ne made found = ground (
  arith,
  find_by-update Environment.id (λ x. x.id == i) (λ x. record x { name = name; vars = vars }) k
      db.environments (λ x. refl),
  find_by-eq-some Environment.id k db.environments e found,
)

delete_environment-keeps :
    (i k : ℕ) (db : Db) (e : Environment)
    → i ≢ k
    → get_environment k db ≡ some e
    → get_environment k (delete_environment i db) ≡ some e
unfolding delete_environment get_environment
delete_environment-keeps i k db e ne found =
    rw
      (
        find_by-keep Environment.id (λ x. not (x.id == i)) (λ j. not (j == i)) k db.environments
            (λ x. refl),
        found,
      )
      (ground arith)

-- The requests that write environments
pub data EnvWrite : Type 0 where
  post : Option EnvBody → EnvWrite
  put : Option ℕ → Option EnvBody → EnvWrite
  drop_row : Option ℕ → EnvWrite

module _ (parse_vars : Str → GoMap Str) (show_vars : GoMap Str → Str) where
  unfoldable pub write_env : Option User → EnvWrite → M ℕ
  write_env requester (post body) = create_environment_handler parse_vars show_vars requester body
  write_env requester (put i body) =
      update_environment_handler parse_vars show_vars requester i body
  write_env requester (drop_row i) = delete_environment_handler parse_vars show_vars requester i

  create_handler-keeps :
      (u : User) (s : State) (body : Option EnvBody) (k : ℕ) (e : Environment)
      → get_environment k s.db ≡ some e
      → get_environment k (create_environment_handler parse_vars show_vars (some u) body s).1.db
        ≡ some e
  unfolding create_environment_handler
  create_handler-keeps u s none k e found = found
  create_handler-keeps u s (some b) k e found =
      let vars = vars_json parse_vars show_vars b.vars in
      let scope = or_user b.scope in
      elim (Option-cases b.owner_id) [
        | inl own ↦ rw own (
            ground (
              arith,
              attempt_create-keeps b.name scope none vars k s e found,
              attempt_create-keeps b.name scope (some u.id) vars k s e found,
            ))
        | inr (o, given) ↦ rw given (
            ground (
              arith,
              attempt_create-keeps b.name scope none vars k s e found,
              attempt_create-keeps b.name scope (some o) vars k s e found,
            ))
      ]

  update_handler-keeps :
      (u : User) (s : State) (i : Option ℕ) (body : Option EnvBody) (k : ℕ) (e : Environment)
      → can_manage_environment u e ≡ false
      → get_environment k s.db ≡ some e
      → get_environment k (update_environment_handler parse_vars show_vars (some u) i body s).1.db
        ≡ some e
  unfolding update_environment_handler
  update_handler-keeps u s none body k e barred found = found
  update_handler-keeps u s (some i) none k e barred found = ground arith
  update_handler-keeps u s (some i) (some b) k e barred found = elim (ℕ_cases i k) [
    | inl same ↦ rw (same, found, barred) found
    | inr ne ↦ elim (Option-cases (get_environment i s.db)) [
      | inl missing ↦ ground arith
      | inr (x, there) ↦
          let name : Str = if str_eq b.name [] then x.name else b.name in
          let vars = vars_json parse_vars show_vars b.vars in
          elim (Option-cases (update_environment i name vars s.db)) [
            | inl refused ↦ ground arith
            | inr (db', made) ↦
                ground (arith, update_environment-keeps i k name vars s.db db' e ne made found)
          ]
    ]
  ]

  delete_handler-keeps :
      (u : User) (s : State) (i : Option ℕ) (k : ℕ) (e : Environment)
      → can_manage_environment u e ≡ false
      → get_environment k s.db ≡ some e
      → get_environment k (delete_environment_handler parse_vars show_vars (some u) i s).1.db
        ≡ some e
  unfolding delete_environment_handler
  delete_handler-keeps u s none k e barred found = found
  delete_handler-keeps u s (some i) k e barred found = elim (ℕ_cases i k) [
    | inl same ↦ rw (same, found, barred) found
    | inr ne ↦ ground (arith, delete_environment-keeps i k s.db e ne found)
  ]

  write_env-IsFailure :
      (u : User) (call : EnvWrite) (s : State) → IsFailure (write_env (some u) call s) s
  unfolding write_env create_environment_handler update_environment_handler
      delete_environment_handler
  write_env-IsFailure u (post body) s = ground arith
  write_env-IsFailure u (put i body) s = ground arith
  write_env-IsFailure u (drop_row i) s = ground arith

  write_env_barred :
      (u : User) (call : EnvWrite) (s : State) (k : ℕ) (e : Environment)
      → can_manage_environment u e ≡ false
      → get_environment k s.db ≡ some e
      → get_environment k (write_env (some u) call s).1.db ≡ some e
  unfolding write_env
  write_env_barred u (post body) s k e barred found = create_handler-keeps u s body k e found
  write_env_barred u (put i body) s k e barred found =
      update_handler-keeps u s i body k e barred found
  write_env_barred u (drop_row i) s k e barred found = delete_handler-keeps u s i k e barred found

  -- What the request of a user may make of an environment
  abbrev pub IsLeft : User → Option Environment → Option Environment → Type 0
  IsLeft u none after = Unit
  IsLeft u (some e) after = (can_manage_environment u e ≡ true) ⊎ (after ≡ some e)

  -- Whatever request to create, update or delete an environment a user sends: an environment that they may
  -- not manage is still there afterwards, with its name, its owner and its variables; and a response
  -- that is a failure has changed nothing, neither the store nor the audit lines.
  pub write_env_keeps :
      (u : User) (call : EnvWrite) (s : State) (k : ℕ)
      → let (answer, after) = write_env (some u) call s in
        IsLeft u (get_environment k s.db) (get_environment k after.db) × IsFailure (answer, after) s
  write_env_keeps u call s k = (
    elim (Option-cases (get_environment k s.db)) [
      | inl missing ↦ rw missing tt
      | inr (e, found) ↦ elim (Bool-cases (can_manage_environment u e)) [
        | inl may ↦ rw found (inl may)
        | inr barred ↦ rw found (inr (write_env_barred u call s k e barred found))
      ]
    ],
    write_env-IsFailure u call s,
  )
