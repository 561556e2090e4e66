-- ===== src/Api/Login/Sessions.antt =====
-- What a login gives and refuses.
use post_lite.Auth.Password.{verify_password}
use post_lite.Auth.LoginCrypto.{LoginCrypto, decrypt}
use post_lite.Auth.RateLimit.{is_locked, note_fail}
use post_lite.Api.{State, ret, fail}
use post_lite.Api.Login.{
  LoginBody, session_ttl, LoginEnv, accepted, login_handler, logout_handler, session_user,
}
use post_lite.Base.{
  ltb, if◌then◌else◌, Bool-cases, Option-cases, Str, str_eq, str_eq_iff, ℕ, ◌+◌, ◌<◌, String, ◌≡◌,
  refl, ◌≢◌, inl, inr, Bool, true, false, not, ◌&&◌, Option, none, some, List, [], ◌∷◌, ◌++◌, arith,
}
use post_lite.Store.{User, Session, Db, find_by, keep}
use post_lite.Store.Users.{
  get_user, get_by_username, find_session, create_session, get_session, delete_session,
  purge_expired,
}

find_session-append :
    (hash : Str) (ss : List Session) (s : Session)
    → find_session hash ss ≡ none
    → s.id ≡ hash
    → find_session hash (ss ++ s ∷ []) ≡ some s
unfolding find_session
find_session-append hash [] s e same = ground (arith, str_eq_iff s.id hash)
find_session-append hash (t ∷ ss) s e same = ground (arith, find_session-append hash ss s)

find_session-keep-some :
    (p : Session → Bool) (hash : Str) (ss : List Session) (s : Session)
    → find_session hash ss ≡ some s
    → p s ≡ true
    → find_session hash (keep p ss) ≡ some s
unfolding find_session keep
find_session-keep-some p hash [] s e h = absurd (cc)
find_session-keep-some p hash (t ∷ ss) s e h = ground (arith, find_session-keep-some p hash ss s)

find_session_deleted :
    (hash : Str) (ss : List Session)
    → find_session hash (keep (λ s. not (str_eq s.id hash)) ss) ≡ none
unfolding find_session keep
find_session_deleted hash [] = refl
find_session_deleted hash (t ∷ ss) = ground (arith, find_session_deleted hash ss)

-- The session that a login has opened, after the expired ones were purged
opened-keeps :
    (now ttl user_id : ℕ) (hash : Str) (db db' : Db)
    → create_session now hash user_id ttl db ≡ some db'
    → get_session hash (purge_expired now db')
      ≡ some (record { id = hash; user_id = user_id; expires_at = now + ttl })
unfolding create_session get_session purge_expired
opened-keeps now ttl user_id hash db db' e =
    let s : Session = record { id = hash; user_id = user_id; expires_at = now + ttl } in
    elim (Option-cases (find_by User.id user_id db.users)) [
      | inl missing ↦ ground arith
      | inr (u, found) ↦ elim (Option-cases (find_session hash db.sessions)) [
        | inr (t, taken) ↦ ground arith
        | inl free ↦ ground (
          arith,
          find_session-keep-some (λ x. not (ltb x.expires_at now)) hash (db.sessions ++ s ∷ []) s
              (find_session-append hash db.sessions s free refl),
        )
      ]
    ]

opened-users :
    (now ttl user_id : ℕ) (hash : Str) (db db' : Db)
    → create_session now hash user_id ttl db ≡ some db'
    → (purge_expired now db').users ≡ db.users
unfolding create_session purge_expired
opened-users now ttl user_id hash db db' e = ground arith

module _ (env : LoginEnv) where
  open env use {is_loopback, token_hash, scrypt, decode_base64, decrypt_oaep, parse_payload}

  abbrev pub opened : ℕ → Str → LoginCrypto → Option Str
  opened clock enc c = (decrypt decode_base64 decrypt_oaep parse_payload clock enc c).0

  -- What a login has done that gives a user, after the steps that may have no result
  login_handler-eq-ret :
      (clock now : ℕ) (ip token password : Str) (c : LoginCrypto) (b : LoginBody) (s s' : State)
      (u v : User) (db' : Db)
      → s.crypto ≡ some c
      → opened clock b.enc c ≡ some password
      → get_by_username b.username s.db ≡ some v
      → create_session now (token_hash token) v.id session_ttl s.db ≡ some db'
      → login_handler env clock now ip token (some b) s ≡ (ret u, s')
      → (v ≡ u)
        × (v.enabled && verify_password scrypt password v.password_hash v.salt ≡ true)
        × (not (is_loopback ip) && (is_locked clock ip s.limiter).0 ≡ false)
        × (s'.db ≡ purge_expired now db')
        × (s'.crypto ≡ some (decrypt decode_base64 decrypt_oaep parse_payload clock b.enc c).1)
  unfolding login_handler
  login_handler-eq-ret clock now ip token password c b s s' u v db' is_set good found made e =
      ground arith

  -- The same for any login that gives a user
  abbrev pub IsEarned : ℕ → ℕ → Str → Str → LoginBody → State → State → User → Type 0
  IsEarned clock now ip token b s s' u =
      (password : Str) × (c : LoginCrypto) × (db' : Db) × (s.crypto ≡ some c)
      × (opened clock b.enc c ≡ some password)
      × (get_by_username b.username s.db ≡ some u)
      × (u.enabled && verify_password scrypt password u.password_hash u.salt ≡ true)
      × (not (is_loopback ip) && (is_locked clock ip s.limiter).0 ≡ false)
      × (create_session now (token_hash token) u.id session_ttl s.db ≡ some db')
      × (s'.db ≡ purge_expired now db')
      × (s'.crypto ≡ some (decrypt decode_base64 decrypt_oaep parse_payload clock b.enc c).1)

  -- A login that gives a user was earned: LoginCrypto has decrypted the envelope to the password of the
  -- enabled user with the name that was sent, and an address that is not loopback was not locked. It
  -- has opened one session for that user and purged the expired ones.
  pub login_handler-IsEarned :
      (clock now : ℕ) (ip token : Str) (b : LoginBody) (s s' : State) (u : User)
      → login_handler env clock now ip token (some b) s ≡ (ret u, s')
      → IsEarned clock now ip token b s s' u
  unfolding login_handler
  login_handler-IsEarned clock now ip token b s s' u e = elim (Option-cases s.crypto) [
    | inl unset ↦ absurd (ground arith)
    | inr (c, is_set) ↦ elim (Option-cases (opened clock b.enc c)) [
      | inl bad ↦ absurd (ground arith)
      | inr (password, good) ↦ elim (Option-cases (get_by_username b.username s.db)) [
        | inl unknown ↦ absurd (ground arith)
        | inr (v, found) ↦
            elim (Option-cases (create_session now (token_hash token) v.id session_ttl s.db)) [
              | inl refused ↦ absurd (ground arith)
              | inr (db', made) ↦
                  let (same, mine, unlocked, after, used) =
                    login_handler-eq-ret clock now ip token password c b s s' u v db' is_set good
                      found made e in
                  (
                    password,
                    c,
                    db',
                    is_set,
                    good,
                    rw (← same) found,
                    rw (← same) mine,
                    unlocked,
                    rw (← same) made,
                    after,
                    used,
                  )
            ]
      ]
    ]
  ]

  session_user_found :
      (t : ℕ) (cookie : Str) (s : State) (session : Session) (u : User)
      → cookie ≢ []
      → get_session (token_hash cookie) s.db ≡ some session
      → t < session.expires_at
      → get_user session.user_id s.db ≡ some u
      → u.enabled ≡ true
      → session_user env t cookie s ≡ (some u, s)
  unfolding session_user
  session_user_found t cookie s session u full found fresh known able = ground arith

  -- After a login that gives a user, its token is a session of that user for 24 hours: until then the
  -- middleware finds the user by it, while the tables stay as the login has left them.
  pub session_user-login_handler :
      (clock now t : ℕ) (ip token : Str) (b : LoginBody) (s s' : State) (u : User)
      → login_handler env clock now ip token (some b) s ≡ (ret u, s')
      → get_user u.id s.db ≡ some u
      → token ≢ []
      → t < now + session_ttl
      → session_user env t token s' ≡ (some u, s')
  unfolding get_user
  session_user-login_handler clock now t ip token b s s' u e known full fresh =
      let (password, c, db', is_set, good, found, mine, unlocked, made, after, used) =
        login_handler-IsEarned clock now ip token b s s' u e in
      let kept = opened-keeps now session_ttl u.id (token_hash token) s.db db' made in
      let users = opened-users now session_ttl u.id (token_hash token) s.db db' made in
      session_user_found t token s'
        (record { id = token_hash token; user_id = u.id; expires_at = now + session_ttl }) u full
        (rw after kept) fresh (rw (after, users) known) (ground arith)

  -- After a logout the cookie is no session of anyone.
  pub logout_ends :
      (now : ℕ) (cookie : Str) (s : State)
      → (session_user env now cookie (logout_handler env cookie s).1).0 ≡ none
  unfolding session_user logout_handler get_session delete_session
  logout_ends now cookie s = ground (arith, find_session_deleted (token_hash cookie) s.db.sessions)

  -- A login answered with 401 leaves the tables and the audit log as they were, and is counted: an
  -- address that is not loopback has one failure more noted by the limiter, which changes in nothing
  -- else but what asking it for the lock has cleared.
  pub login_handler_counts :
      (clock now : ℕ) (ip token : Str) (code : String) (body : Option LoginBody) (s s' : State)
      → login_handler env clock now ip token body s ≡ (fail 401 code, s')
      → (s'.db ≡ s.db)
        × (s'.audit ≡ s.audit)
        × (s'.limiter ≡ (
            if is_loopback ip
            then s.limiter
            else note_fail clock ip (is_locked clock ip s.limiter).1))
  unfolding login_handler
  login_handler_counts clock now ip token code none s s' e = absurd (ground arith)
  login_handler_counts clock now ip token code (some b) s s' e =
      elim (Bool-cases (is_loopback ip)) [
        | inl local ↦ elim (Option-cases s.crypto) [
          | inl unset ↦ absurd (ground arith)
          | inr (c, is_set) ↦ elim (Option-cases (opened clock b.enc c)) [
            | inl bad ↦ absurd (ground arith)
            | inr (password, good) ↦
                elim (Option-cases (accepted env password (get_by_username b.username s.db))) [
                  | inl unmatched ↦ ground arith
                  | inr (v, matched) ↦ absurd (ground arith)
                ]
          ]
        ]
        | inr far ↦ elim (Bool-cases (is_locked clock ip s.limiter).0) [
          | inl locked ↦ absurd (ground arith)
          | inr free ↦ elim (Option-cases s.crypto) [
            | inl unset ↦ absurd (ground arith)
            | inr (c, is_set) ↦ elim (Option-cases (opened clock b.enc c)) [
              | inl bad ↦ absurd (ground arith)
              | inr (password, good) ↦
                  elim (Option-cases (accepted env password (get_by_username b.username s.db))) [
                    | inl unmatched ↦ ground arith
                    | inr (v, matched) ↦ absurd (ground arith)
                  ]
            ]
          ]
        ]
      ]
