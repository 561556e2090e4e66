-- ===== src/Api/Login.antt =====
-- internal/httpapi/auth.go: the login key, login, logout and the current user; and the middleware of
-- internal/auth/middleware.go, which finds the user of a session cookie. The hash of a token, scrypt,
-- the test for a loopback address and what LoginCrypto rests on are the record `LoginEnv`. The limiter
-- is always set. `token` is what NewToken has drawn, `drawn` the nonce of a challenge.
pub mod Sessions
pub mod Replay
use mathlib.Core.Option
use post_lite.Auth.Password.{verify_password}
use post_lite.Auth.LoginCrypto.{LoginCrypto, new_challenge, LoginPayload, decrypt}
use post_lite.Base.{
  ltb, if◌then◌else◌, Str, codes, str_eq, ℕ, Bool, false, not, ◌&&◌, ◌||◌, Option, none, some, [],
  map,
}
use post_lite.Auth.RateLimit.{RateLimiter, is_locked, note_fail, reset}
use post_lite.Store.{User, Session, is_admin}
use post_lite.Store.Users.{
  get_user, get_by_username, create_session, get_session, delete_session, purge_expired,
}
use post_lite.Api.{
  State, ret, M, ◌>>=◌, ◌>>◌, respond, refuse, require_some, check, gets, modify, attempt,
  require_user, decode,
}

pub record LoginBody : Type 0 where
  pub username : Str
  pub enc : Str

-- 24 hours, in the unit of the store
abbrev pub session_ttl : ℕ
session_ttl = 86400

-- Limiter.IsLocked, NoteFail and Reset on the server's limiter
abbrev pub query : ℕ → Str → M Bool
query now ip s =
    let (locked, l) = is_locked now ip s.limiter in (ret locked, record s { limiter = l })

abbrev pub change_limiter : (RateLimiter → RateLimiter) → M (Unit {0})
change_limiter f s = (ret tt, record s { limiter = f s.limiter })

pub record LoginEnv : Type 0 where
  pub is_loopback : Str → Bool
  -- TokenHash
  pub token_hash : Str → Str
  pub scrypt : Str → Str → ℕ → Option Str
  pub decode_base64 : Str → Option Str
  pub decrypt_oaep : Str → Option Str
  pub parse_payload : Str → Option LoginPayload

-- NewChallenge, which may fail, on the server's LoginCrypto
abbrev pub issued : Option Str × LoginCrypto → M Str
issued (o, c) s = require_some 500 "internal" o (record s { crypto = some c })

abbrev pub issue_on : ℕ → Option Str → Option LoginCrypto → M Str
issue_on clock drawn none = refuse 500 "internal"
issue_on clock drawn (some c) = issued (new_challenge clock drawn c)

-- loginKey: the challenge; the public key beside it is not modelled
unfoldable pub login_key_handler : ℕ → Option Str → M Str
login_key_handler clock drawn s = issue_on clock drawn s.crypto s

module _ (env : LoginEnv) where
  open env use {is_loopback, token_hash, scrypt, decode_base64, decrypt_oaep, parse_payload}

  abbrev pub is_limited : Str → Bool
  is_limited ip = not (is_loopback ip)

  -- The user, if enabled and if the password is theirs
  abbrev pub accepted : Str → Option User → Option User
  accepted password none = none
  accepted password (some u) =
      if u.enabled && verify_password scrypt password u.password_hash u.salt then some u else none

  -- NoteFail and the answer 401
  abbrev pub require_accepted : ℕ → Str → Option User → M User
  require_accepted now ip (some u) = respond u
  require_accepted now ip none = do
    if is_limited ip then change_limiter (note_fail now ip) else respond tt
    refuse 401 "invalid_credentials"

  abbrev pub open_session : ℕ → Str → User → M (Unit {0})
  open_session now token u = attempt 500 "internal" (λ db.
      Option.map (λ db'. (tt, db')) (create_session now (token_hash token) u.id session_ttl db))

  -- s.LoginCrypto.Decrypt: the challenge is used up also where the answer is a failure
  abbrev pub decrypted : Option Str × LoginCrypto → M Str
  decrypted (o, c) s = require_some 400 "bad_login_payload" o (record s { crypto = some c })

  abbrev pub decrypt_with : ℕ → Str → LoginCrypto → M Str
  decrypt_with clock enc c =
      decrypted (decrypt decode_base64 decrypt_oaep parse_payload clock enc c)

  abbrev pub login_crypto : M LoginCrypto
  login_crypto s = require_some 500 "internal" s.crypto s

  -- `clock` is the clock of the limiter and of the challenges in nanoseconds, `now` that of the store.
  unfoldable pub login_handler : ℕ → ℕ → Str → Str → Option LoginBody → M User
  login_handler clock now ip token body = do
    b ← decode body
    locked ← if is_limited ip then query clock ip else respond false
    check (not locked) 429 "rate_limited"
    c ← login_crypto
    check (not (str_eq b.enc [])) 400 "encryption_required"
    password ← decrypt_with clock b.enc c
    found ← gets (get_by_username b.username)
    u ← require_accepted clock ip (accepted password found)
    if is_limited ip then change_limiter (reset ip) else respond tt
    open_session now token u
    modify (purge_expired now)
    respond u

  -- The cookie is "" where there is none.
  unfoldable pub logout_handler : Str → M (Unit {0})
  logout_handler cookie =
      if str_eq cookie [] then respond tt else modify (delete_session (token_hash cookie))

  abbrev pub enabled_user : Option User → Option User
  enabled_user none = none
  enabled_user (some u) = if u.enabled then some u else none

  abbrev pub session_of : ℕ → Str → Option Session → State → Option User × State
  session_of now hash none s = (none, s)
  session_of now hash (some session) s =
      if ltb now session.expires_at
      then (enabled_user (get_user session.user_id s.db), s)
      else (none, record s { db = delete_session hash s.db })

  -- Middleware: the user that the handlers are given
  unfoldable pub session_user : ℕ → Str → State → Option User × State
  session_user now cookie s =
      if str_eq cookie []
      then (none, s)
      else session_of now (token_hash cookie) (get_session (token_hash cookie) s.db) s

-- me
unfoldable pub me_handler : Option User → M User
me_handler requester = require_user requester

-- RequireRole, with the handler that it guards
unfoldable pub require_role {ℓ} : {A : Type ℓ} → Str → Option User → M A → M A
require_role role requester next = do
  u ← require_user requester
  check (not (str_eq role (codes "admin")) || is_admin u) 403 "forbidden"
  next
