-- ===== src/Api/Login/Replay.antt =====
-- A login request that is sent again.
use post_lite.Base.{Str, ℕ, ◌≡◌, ◌≢◌, some, arith}
use post_lite.Store.{User}
use post_lite.Auth.LoginCrypto.Replay.{decrypt_twice}
use post_lite.Api.{State, ret}
use post_lite.Api.Login.{LoginBody, LoginEnv, login_handler}
use post_lite.Api.Login.Sessions.{login_handler-IsEarned}

-- Who has recorded a login request that gave a user, and sends its envelope again, under whatever name,
-- from whatever address and at whatever time, gets no user for it.
pub login_handler_no_replay :
    (env : LoginEnv) (clock clock' now now' : ℕ) (ip ip' token token' : Str) (b b' : LoginBody)
    (s s' s'' : State) (u v : User)
    → login_handler env clock now ip token (some b) s ≡ (ret u, s')
    → b'.enc ≡ b.enc
    → login_handler env clock' now' ip' token' (some b') s' ≢ (ret v, s'')
login_handler_no_replay env clock clock' now now' ip ip' token token' b b' s s' s'' u v first same
      again =
    let (password, c, db', is_set, good, found, mine, unlocked, made, after, used) =
      login_handler-IsEarned env clock now ip token b s s' u first in
    let (password', d, db'', is_set', good', _, _, _, _, _, _) =
      login_handler-IsEarned env clock' now' ip' token' b' s' s'' v again in
    ground (
      arith,
      decrypt_twice env.decode_base64 env.decrypt_oaep env.parse_payload clock clock' b.enc c,
    )
