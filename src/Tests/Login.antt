-- ===== src/Tests/Login.antt =====
-- Login, logout and the session middleware at concrete inputs.
use post_lite.Base.{
  Str, codes, str_eq, cut_prefix, cut, delete, encode_hex, decode_hex, String, ◌≡◌, refl, ◌≢◌, none,
  some, [], ◌∷◌, ◌++◌, arith,
}
use post_lite.Auth.RateLimit.{gc, is_locked, note_fail, reset}
use post_lite.Auth.LoginCrypto.{
  new_login_crypto, drop_expired, make_room, add_challenge, new_challenge, consume, LoginPayload,
  open_envelope, decrypt,
}
use post_lite.Auth.Password.{verify_password}
use post_lite.Api.Login.Replay.{login_handler_no_replay}
use post_lite.Crypto.Vault.{new_vault}
use post_lite.Store.{User}
use post_lite.Store.Users.{find_session, create_session, get_session, delete_session, purge_expired}
use post_lite.Api.{State, Res, ret, fail}
use post_lite.Api.Login.{LoginEnv, login_handler, logout_handler, session_user}
use post_lite.Api.Login.Sessions.{IsEarned, login_handler-IsEarned, session_user-login_handler}
use post_lite.Tests.Store.{tables, bob, db}

logins : Unit {0}
unfolding tables login_handler logout_handler session_user is_locked note_fail reset gc delete
    create_session get_session purge_expired delete_session find_session encode_hex decode_hex
    verify_password add_challenge new_challenge consume decrypt drop_expired make_room open_envelope
logins = tt

-- scrypt that gives the password and the salt, and envelopes "enc:challenge/password" in the open
abbrev payload_of : Str × Str → LoginPayload
payload_of (c, p) = record { challenge = c; password = p }

abbrev env : LoginEnv
env = record {
  is_loopback = λ ip. str_eq ip (codes "::1");
  token_hash = λ t. b'#' ∷ t;
  scrypt = λ plain salt n. some (plain ++ salt);
  decode_base64 = λ e. cut_prefix e (codes "enc:");
  decrypt_oaep = λ ct. some ct;
  parse_payload = λ t. some (payload_of (cut b'/' t));
}

abbrev hashed_bob : User
hashed_bob = record bob { password_hash = encode_hex (codes "pws"); salt = encode_hex (codes "s") }

abbrev state : State
state = record {
  db = record db { users = hashed_bob ∷ [] };
  limiter = record { m = [] };
  audit = [];
  crypto = some (new_challenge 5 (some (codes "c1")) new_login_crypto).1;
  vault = new_vault;
  transports = [];
}

abbrev login_as : String → String → State → Res User × State
login_as name enc =
    login_handler env 7 50 (codes "10.1.1.1") (codes "tok")
      (some (record { username = codes name; enc = codes enc }))

abbrev logged_in : State
logged_in = (login_as "bob" "enc:c1/pw" state).1

login_tests :
    ((login_as "bob" "enc:c1/pw" state).0 ≡ ret hashed_bob)
    × ((login_as "bob" "enc:c1/no" state).0 ≡ fail 401 "invalid_credentials")
    × ((login_as "eve" "enc:c1/pw" state).0 ≡ fail 401 "invalid_credentials")
    × ((login_as "bob" "c1/pw" state).0 ≡ fail 400 "bad_login_payload")
    × ((login_as "bob" "enc:c2/pw" state).0 ≡ fail 400 "bad_login_payload")
    × ((login_as "bob" "enc:c1/pw" logged_in).0 ≡ fail 400 "bad_login_payload")
    × ((login_as "bob" "" state).0 ≡ fail 400 "encryption_required")
    × ((session_user env 86450 (codes "tok") logged_in).0 ≡ none)
unfolding logins
login_tests = (refl, refl, refl, refl, refl, refl, refl, refl)

login_handler-IsEarned_example :
    IsEarned env 7 50
      (codes "10.1.1.1")
      (codes "tok")
      (record { username = codes "bob"; enc = codes "enc:c1/pw" })
      state
      logged_in
      hashed_bob
unfolding logins
login_handler-IsEarned_example =
    login_handler-IsEarned env 7 50 (codes "10.1.1.1") (codes "tok")
      (record { username = codes "bob"; enc = codes "enc:c1/pw" }) state logged_in hashed_bob refl

session_user-login_handler_example :
    session_user env 86449 (codes "tok") logged_in ≡ (some hashed_bob, logged_in)
unfolding logins
session_user-login_handler_example =
    session_user-login_handler env 7 50 86449 (codes "10.1.1.1") (codes "tok")
      (record { username = codes "bob"; enc = codes "enc:c1/pw" }) state logged_in hashed_bob refl
      refl (λ e. cc) (omega arith)

login_handler_no_replay_example :
    login_handler env 8 51
      (codes "10.9.9.9")
      (codes "t2")
      (some (record { username = codes "bob"; enc = codes "enc:c1/pw" }))
      logged_in
    ≢ (ret hashed_bob, state)
unfolding logins
login_handler_no_replay_example =
    login_handler_no_replay env 7 8 50 51 (codes "10.1.1.1") (codes "10.9.9.9") (codes "tok")
      (codes "t2") (record { username = codes "bob"; enc = codes "enc:c1/pw" })
      (record { username = codes "bob"; enc = codes "enc:c1/pw" }) state logged_in state hashed_bob
      hashed_bob refl refl
