-- ===== src/Tests/RouterRuns.antt =====
-- Whole requests, from the Authorization header on, at concrete inputs.
use uncluster.Prelude.{◌≡◌, refl, true, Option, none, some, str_eq, find}
use uncluster.Prelude.Exec.{ok, err, attempt}
use uncluster.Token.{parse, verify_secret}
use uncluster.Store.Db.{TokenKind, Agent, Db}
use uncluster.Store.Db
use uncluster.Server.Http.{unauthorized}
use uncluster.Server.Auth.Sound.{Authentic}
use uncluster.Server.Certs.Audited.{Issued}
use uncluster.Server.Heartbeat.Answer.{Answers}
use uncluster.Server.Router.{
  Server, issue_cert, agent_heartbeat, certificate, beaten, list_agents, serve,
}
use uncluster.Server.Router.Gated.{serve-issue_cert, serve-agent_heartbeat}
use uncluster.Tests.CertRuns.{request, response}
use uncluster.Tests.ServerRuns.{caller_header, agent_header, beat, beat_response, payload}
use uncluster.Tests.Fixtures.{crypto, ssh, clock, sum_hex, granted_db, quiet}

abbrev server : Server
server = record { crypto = crypto; ssh = ssh; sum_hex = sum_hex; ready = true; now = clock }

tokens_named : find (λ t. str_eq t.id "") (quiet granted_db).state.tokens ≡ none
unfolding granted_db quiet find str_eq
tokens_named = refl

agents_named : find (λ g. str_eq g.id "") (quiet granted_db).state.agents ≡ none
unfolding granted_db quiet find str_eq
agents_named = refl

cert_run :
    (serve server caller_header (issue_cert "r1" "r2" 1 (some request)) (quiet granted_db)).0
    ≡ ok (certificate response)
unfolding serve granted_db quiet crypto attempt parse verify_secret
cert_run = refl

serve-issue_cert_example :
    (row : Db.Token) × (g : Option Agent) × Authentic crypto clock
      (quiet granted_db).state
      TokenKind.caller
      caller_header
      row
      g
    × Issued ssh
        (quiet granted_db).state
        "r1"
        clock
        1
        row.id
        (some request)
        response
        (serve server caller_header
          (issue_cert "r1" "r2" 1 (some request))
          (quiet granted_db)).1.state
serve-issue_cert_example =
    serve-issue_cert server caller_header (quiet granted_db) tokens_named agents_named "r1" "r2" 1
      (some request) response cert_run

beat_run :
    (serve server agent_header (agent_heartbeat (some beat)) (quiet granted_db)).0
    ≡ ok (beaten beat_response)
unfolding serve granted_db quiet crypto attempt parse verify_secret
beat_run = refl

serve-agent_heartbeat_example :
    (row : Db.Token) × (a : Agent) × Authentic crypto clock
      (quiet granted_db).state
      TokenKind.agent
      agent_header
      row
      (some a)
    × Answers (quiet granted_db).state a.id beat payload
serve-agent_heartbeat_example =
    serve-agent_heartbeat server agent_header (quiet granted_db) beat beat_response payload refl
      beat_run

-- The Agent's token does not open a route of the operator's.
misused : (serve server agent_header list_agents (quiet granted_db)).0 ≡ err unauthorized
unfolding serve granted_db quiet crypto attempt parse verify_secret
misused = refl
