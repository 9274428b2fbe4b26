-- ===== src/Lib.antt =====
-- Verification of uncluster: a Control plane signs short-lived SSH certificates for Callers and
-- tells each machine's Agent which Caller may log in as which user.
--
-- The parts and their files:
-- - Prelude: shared types. Prelude/Exec is the monad of the stateful code: a state, and a list that
--   says of each coming action whether the environment refuses it, so that every theorem over all
--   worlds covers a failure of any single statement or system call. Prelude/Exec/Triple has its pre-
--   and postconditions, one for each outcome. Prelude/Signed has int64 with its wrap-around.
-- - PolicyHash: internal/policyhash/policyhash.go (Canonical, Hash).
-- - Token: internal/token/token.go (String, Parse, HashSecret, VerifySecret).
-- - Store: internal/store/store.go and internal/store/sqlite.go. Store/Db has the rows, the state Db
--   (one list of rows for each table), statements and transactions; Store/Tokens, Agents, Reports, Acl,
--   Audit and Update have one function for each method of sqliteStore, in the order of its SQL
--   statements, with the keys, UNIQUE constraints and references of internal/store/migrations.go.
-- - Server: internal/server. Server/Http has the answers; Server/Auth is requireAuth of
--   middleware_auth.go, Server/Certs is handlers_certs.go with Sign of internal/ca/ca.go, Server/Acl and
--   Server/Resolve are handlers_acl.go, Server/Update is handlers_update.go, Server/Register and
--   Server/Heartbeat are handlers_agent.go, Server/Tokens, Server/Agents and Server/AuditLog are
--   handlers_tokens.go, handlers_agents.go and handlers_audit.go. Server/Router is buildRouter of
--   router.go: every route with its handler and the kind of token that it wants.
-- - Agent: internal/agent. Agent/Dir is the principals directory with the calls of package os, and
--   Agent/Policy is policy.go (renderPrincipalsDir and what it calls), Agent/Apply its
--   runApplyPolicy, Agent/Wipe is wipePrincipals of policy_apply_unix.go. Agent/PayloadStore is
--   payloadstore.go, with a pointer as the version whose binary it names. Agent/Loop is Run,
--   heartbeatLoop, heartbeatOnceV2, checkFailClosed and onRevoked of agent.go with the answers of
--   http.go: a run is a list of what happens, in any order, and the apply channel with its worker is
--   part of the state. Agent/Host is the machine of the launcher, and Agent/Launcher is launcher.go,
--   launcher_exec_unix.go and healthmarker.go as a step relation (Agent/Launcher/Reach), in which the
--   environment chooses each next event and the calls that it refuses. Agent/SelfUpdate is
--   HandleCheckUpdate of selfupdate.go, updatehost.go and selfupdate_apply_unix.go, and
--   Agent/SelfUpdate/InPlace is Apply and Rollback of selfupdate.go. Agent/Spool is the Windows side:
--   principalswriter.go, principalswriter_windows.go and policy_apply_windows.go, two services that
--   meet in the two files of a spool directory.
-- - Validate: internal/validate. Validate/Skip is ShouldSkip of skip.go and Validate/Reboot is reboot.go.
-- - Tests: runs at concrete inputs.
--
-- A handler is a function of its decoded request (none where the JSON cannot be read), of the
-- clock's reading in nanoseconds, and of the random ids that it draws. Its effects stay whatever it
-- answers. The router, the middleware, the certificate handler and the heartbeat meet in the
-- database: a grant is written by Store/Acl, read by the certificate handler, and sent by the
-- heartbeat to the Agent, which renders it.
--
-- Parameters: BLAKE3 (sum_hex), base32, Sscanf and argon2 (the record Crypto), and
-- golang.org/x/crypto/ssh (the record Ssh), net/url, HTTP GET and SHA-256 of a download (the record
-- Web), and JSON and SHA-256 of the spool files (the record Codec). What a proof relies on of them
-- is a named hypothesis (IsStandard, IsCodec). Loops are structural recursion; there is no fuel but
-- for the decimal digits of a number, where it is the number itself plus one, and each round divides
-- by ten. A wait (pollApplied, the heartbeat loop) is the list of its rounds up to the deadline or
-- the end of the run. Texts are lists of code points; for valid UTF-8 their order is the bytewise
-- order of Go and SQLite. Times before the epoch are not modelled for the clock.
--
-- Not modelled: HTTP and JSON on the wire, logging, the migrations as text, the files of the CA
-- key, the bytes of a staged binary, the jitter and backoff of the heartbeat, the owners and access
-- lists of Windows, the gatekeeper (host installation and diagnosis), the rest of the validation
-- tool (its lock, its evidence and the commands that it runs) and the command line. They are I/O
-- around the parts above, or not yet covered. Letter case is folded for ASCII alone. The HTTP
-- client of an update follows redirects: where they lead is a parameter, recorded with each request
-- and bounded by nothing.
pub mod Prelude
pub mod PolicyHash
pub mod Token
pub mod Store
pub mod Server
pub mod Agent
pub mod Tests
pub mod Validate
