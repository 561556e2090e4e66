-- ===== src/Lib.antt =====
-- PostLite: an HTTP client for teams, with a server in Go that keeps collections of requests, sends
-- them on behalf of its users and relays WebSocket and event streams.
--
-- The parts. A request reaches a handler (internal/httpapi) with the user that the session middleware
-- found. The handler asks the store (internal/repository) for rows and for the access rules, and
-- answers or refuses. Sending a request puts the environment and the vault's secrets into its
-- placeholders (internal/executor/resolve.go), checks the target against the SSRF policy
-- and sends it (internal/executor/http.go), and masks the secrets in what is kept of it
-- (internal/executor/redact.go). Realtime connections use internal/executor/wsframe.go and
-- internal/executor/sse.go. Logins are limited per address by internal/auth/ratelimit.go and
-- send the password in an envelope with a challenge (internal/auth/loginenc.go). Secrets are kept
-- encrypted, and decrypted through the cache of the vault (internal/crypto/secret.go).
--
-- The files.
--   Base: bytes as lists of numbers, package `strings`, Go maps as association lists, Boolean tests.
--   Auth/RateLimit: RateLimiter. IsLocked, NoteFail and Reset are is_locked, note_fail and reset;
--     the clock is their argument, in nanoseconds.
--   Auth/LoginCrypto: LoginCrypto. NewChallenge, Decrypt and consume are new_challenge, decrypt and
--     consume. Auth/Password: HashPassword, VerifyPassword, RandomPassword.
--   Crypto/Vault: Vault. Seal, Open, Invalidate and Lookup are seal_blob, open_blob, invalidate and
--     lookup_secret; the cipher is the record Aead. LoadOrCreateMasterKey.
--   Executor/Resolve: Resolver. Resolve is resolve, with the pattern varRe as placeholder.
--   Executor/Redact: Redactor. Text, Headers, RequestSnapshot and ResponseSnapshot.
--   Executor/Target: ParseWhitelist, parseHTTPTarget, checkTarget and what is built on them. Package
--     net is the record Net.
--   Executor/Http: Execute, transportFor, CheckRedirect, the captured body and HistoryBody.
--   Executor/WsFrame: writeFrame and readFrame over byte lists; Executor/WsFrame/Messages: ReadMessage.
--   Executor/Sse: ParseSSEEvent and the loop of DialSSE.
--   Store: the rows of internal/models and the tables; Store/Access: CanView, CanManage, CanUseRequest
--     and CanManageRequest; Store/Users, Collections, Requests, Environments, History, Settings, Secrets:
--     the operations of the files of internal/repository with these names.
--   Api: what handlers share (internal/httpapi/server.go), as a monad over the state that may fail
--     with a status; Api/Login: internal/httpapi/auth.go and the session middleware
--     (internal/auth/middleware.go); Api/Users, Collections, Requests, Environments, Settings, History
--     and Secrets: the handlers of the files with these names.
--   Api/Execute: the execute handler. Api/Execute loads the request and its values, Scripts runs both
--     scripts, Content resolves the placeholders, Sending reads the settings and sends, Handler
--     composes them. What is not in the repository is the record ExecEnv.
--   Api/Realtime: realtimeConnect and the tickets (mintTicket, takeTicket); Api/Realtime/Relay: what
--     realtimeWS and realtimeSSE send on and keep.
--   Api/Exchange: export and import of collections (internal/httpapi/collections.go). Store/Migrations:
--     Migrate of internal/db/migrations.go.
--   Script: identifiers, the registry of modules, the parts of a URL, and DecodeString and EncodeBytes
--     (uuid.go, registry.go, context.go and jsbytes.go of internal/script).
--   Tests: all of it at concrete inputs.
--
-- Bounds and fuel. Execute has six rounds of fuel: CheckRedirect stops a sixth request, so they are
-- never used up. ReadMessage has as many rounds as the input has bytes, and one more: each frame takes
-- two bytes at least. A length of eight bytes is an int64 in two's complement; the limits are
-- those of the source. Times and ids are natural numbers.
--
-- Audit lines are kept beside the tables, in the order in which they are handed to the sink; what the sink
-- of cmd/postlite/main.go makes of them, the row audit_log of the settings included, is left out.
-- The query that Execute adds to the first URL is part of what the servers answer by.
--
-- Not modelled: the SQL driver and its failures, the HTTP server, ciphers and hash functions, goroutines
-- and locks, the texts of error messages; dialling and deadlines of realtime connections; the
-- script engine and what is bound to it; the SQL of the migrations; the front end.
pub mod Base
pub mod Auth
pub mod Crypto
pub mod Executor
pub mod Script
pub mod Store
pub mod Api
pub mod Tests
