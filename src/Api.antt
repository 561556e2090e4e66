-- ===== src/Api.antt =====
-- internal/httpapi/server.go: what the handlers share. A handler takes the user that the session
-- middleware put into the request, the parts of the request that it decodes (none where decoding
-- fails) and the state, and gives the response and the new state. A failure is its status and its
-- code; the message beside it is not modelled.
pub mod Login
pub mod Secrets
pub mod Environments
pub mod History
pub mod Settings
pub mod Execute
pub mod Realtime
pub mod Exchange
pub mod Users
pub mod Collections
pub mod Requests
use post_lite.Base.{
  Str, GoMap, ℕ, String, ◌≡◌, refl, Bool, true, false, Option, none, some, List, [], ◌∷◌, ◌++◌,
  arith,
}
use post_lite.Auth.RateLimit.{RateLimiter}
use post_lite.Auth.LoginCrypto.{LoginCrypto}
use post_lite.Crypto.Vault.{Vault}
use post_lite.Executor.Http.{Transport}
use post_lite.Store.{User, Db, is_admin}

-- An audit line: its detail is "id=… name=…"; the id is 0 and the name "" where the source
-- gives none.
pub record AuditEntry : Type 0 where
  pub actor : Str
  pub action : String
  pub id : ℕ
  pub name : Str

pub record State : Type 0 where
  pub db : Db
  pub limiter : RateLimiter
  pub audit : List AuditEntry
  -- none where no LoginCrypto is set
  pub crypto : Option LoginCrypto
  pub vault : Vault
  -- the executor's transports for proxies
  pub transports : GoMap Transport

pub data Res {ℓ} (A : Type ℓ) : Type ℓ where
  ret : A → Res A
  fail : ℕ → String → Res A

abbrev pub M {ℓ} : Type ℓ → Type ℓ
M A = State → Res A × State

abbrev pub and_then {ℓ κ} : {A : Type ℓ} {B : Type κ} → Res A × State → (A → M B) → Res B × State
and_then (ret a, s) f = f a s
and_then (fail status code, s) f = (fail status code, s)

infixl 5 ◌>>=◌ ◌>>◌
abbrev pub ◌>>=◌ {ℓ κ} : {A : Type ℓ} {B : Type κ} → M A → (A → M B) → M B
◌>>=◌ m f s = and_then (m s) f

abbrev pub ◌>>◌ {ℓ} : {B : Type ℓ} → M (Unit {0}) → M B → M B
m >> k = m >>= λ _. k

-- A chain that responds has responded at each step.
pub and_then-eq-ret {ℓ κ} :
    {A : Type ℓ} {B : Type κ} (r : Res A × State) (f : A → M B) (b : B) (s' : State)
    → and_then r f ≡ (ret b, s')
    → (a : A) × (s : State) × (r ≡ (ret a, s)) × (f a s ≡ (ret b, s'))
and_then-eq-ret (ret a, s) f b s' done = (a, s, refl, done)
and_then-eq-ret (fail status code, s) f b s' done = absurd (ground arith)

module _ {ℓ} {A : Type ℓ} where
  abbrev pub respond : A → M A
  respond a s = (ret a, s)

  abbrev pub refuse : ℕ → String → M A
  refuse status code s = (fail status code, s)

  -- if err != nil { fail(…); return }
  abbrev pub require_some : ℕ → String → Option A → M A
  require_some status code none = refuse status code
  require_some status code (some a) = respond a

abbrev pub is_missing {ℓ} : {A : Type ℓ} → Option A → Bool
is_missing none = true
is_missing (some a) = false

abbrev pub check : Bool → ℕ → String → M (Unit {0})
check true status code s = (ret tt, s)
check false status code s = (fail status code, s)

abbrev pub gets {ℓ} : {A : Type ℓ} → (Db → A) → M A
gets f s = (ret (f s.db), s)

abbrev pub modify : (Db → Db) → M (Unit {0})
modify f s = (ret tt, record s { db = f s.db })

abbrev pub change_vault : (Vault → Vault) → M (Unit {0})
change_vault f s = (ret tt, record s { vault = f s.vault })

-- An insert or an update that a constraint may refuse
abbrev pub attempt_on {ℓ} : {A : Type ℓ} → ℕ → String → Option (A × Db) → M A
attempt_on status code none s = (fail status code, s)
attempt_on status code (some (a, db)) s = (ret a, record s { db = db })

abbrev pub attempt {ℓ} : {A : Type ℓ} → ℕ → String → (Db → Option (A × Db)) → M A
attempt status code f s = attempt_on status code (f s.db) s

-- s.audit: the lines that are handed to the sink, in their order. What the sink of cmd/postlite/main.go
-- does with a line, logging it and appending it to the row audit_log of the settings, is not in `db`;
-- no handler reads this row.
abbrev pub audit : User → String → ℕ → Str → M (Unit {0})
audit u action i name s = (
  ret tt,
  record s {
    audit = s.audit ++ record { actor = u.username; action = action; id = i; name = name } ∷ [];
  },
)

-- requireUser and requireAdmin
abbrev pub require_user : Option User → M User
require_user = require_some 401 "unauthorized"

abbrev pub require_admin : Option User → M User
require_admin requester = do
  u ← require_user requester
  check (is_admin u) 403 "forbidden"
  respond u

-- decodeBody and idParam
abbrev pub decode {ℓ} : {A : Type ℓ} → Option A → M A
decode = require_some 400 "bad_request"
