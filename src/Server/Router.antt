-- ===== src/Server/Router.antt =====
-- internal/server/router.go: which handler stands behind which kind of token. A request is its route
-- with what the handler reads of it and draws for it.
pub mod Gated
use uncluster.Prelude.{ℕ, String, Bool, Option, none, some, List, []}
use uncluster.Prelude.Signed.{ℤ}
use uncluster.Prelude.Exec.{pure, raise, ◌>>=◌, ◌>>◌}
use uncluster.Token
use uncluster.Token.{Crypto}
use uncluster.Store.Db.{Db, TokenKind, Agent, CertEvent}
use uncluster.Store.Update.{SetUpdatePolicyParams}
use uncluster.Store.Db
use uncluster.Server.Http.{Status, Http, unauthorized, internal}
use uncluster.Server.Auth.{require_auth}
use uncluster.Server.Certs.{Ssh, CertRequest, CertResponse, handle_issue_cert}
use uncluster.Server.Acl.{
  AclEntrySummary, CreateAclRequest, handle_create_acl, handle_delete_acl, handle_list_acl,
}
use uncluster.Server.Update.{UpdatePlanResponse, handle_get_update_plan, handle_set_update_policy}
use uncluster.Server.Register.{AgentRegisterRequest, AgentRegisterResponse, handle_agent_register}
use uncluster.Server.Heartbeat.{V2HeartbeatRequest, V2HeartbeatResponse, handle_v2_heartbeat}
use uncluster.Server.Tokens.{
  CreateTokenRequest, CreateTokenResponse, TokenSummary, handle_create_token, handle_list_tokens,
  handle_revoke_token,
}
use uncluster.Server.Agents.{
  AgentDetail, handle_list_agents, handle_get_agent, handle_delete_agent, handle_set_agent,
}
use uncluster.Server.AuditLog.{AuditQuery, handle_list_cert_events}

-- The first two are open, the next two are the Agent's, and the rest are the operator's.
pub data Request : Type 0 where
  healthz : Request
  agent_register :
      String
      → String
      → Option Token.Token
      → (String → Option String)
      → Option AgentRegisterRequest
      → Request
  agent_heartbeat : Option V2HeartbeatRequest → Request
  get_update_plan : Request
  create_token :
      (TokenKind → Option Token.Token)
      → (String → Option String)
      → Option CreateTokenRequest
      → Request
  list_tokens : Request
  revoke_token : String → Request
  set_update_policy : Option SetUpdatePolicyParams → Request
  create_acl : String → Option CreateAclRequest → Request
  delete_acl : String → Request
  list_acl : String → String → Request
  list_agents : Request
  get_agent : String → Request
  delete_agent : String → Request
  set_agent : String → Option (Option ℤ) → Request
  list_cert_events : (String → Option ℤ) → AuditQuery → Request
  issue_cert : String → String → ℕ → Option CertRequest → Request

-- The body of a 2xx answer; `done` is one without a body.
pub data Answer : Type 0 where
  healthy done : Answer
  registered : AgentRegisterResponse → Answer
  beaten : V2HeartbeatResponse → Answer
  plan : UpdatePlanResponse → Answer
  token : CreateTokenResponse → Answer
  tokens : List TokenSummary → Answer
  entry : AclEntrySummary → Answer
  entries : List AclEntrySummary → Answer
  agent : AgentDetail → Answer
  agents : List AgentDetail → Answer
  events : List CertEvent → Answer
  certificate : CertResponse → Answer

-- The group of a route: the kind of token that its requireAuth wants, or none.
abbrev pub required_kind : Request → Option TokenKind
required_kind healthz = none
required_kind (agent_register f ca t h b) = none
required_kind (agent_heartbeat b) = some TokenKind.agent
required_kind get_update_plan = some TokenKind.agent
required_kind _ = some TokenKind.caller

-- What the server is made with: the crypto of tokens, the signer's package, the hash, whether there
-- is a CA signer, and the clock.
pub record Server : Type 0 where
  pub crypto : Crypto
  pub ssh : Ssh
  pub sum_hex : List ℕ → String
  pub ready : Bool
  pub now : ℕ

module _ {A : Type 0} where
  abbrev pub answer : (A → Answer) → Http A → Http Answer
  answer f m = m >>= λ a. pure (f a)

-- The Agent of the request's token; without one the handler answers 401.
abbrev beat : Server → Option Agent → Option V2HeartbeatRequest → Http Answer
beat s none b = raise unauthorized
beat s (some g) b = answer beaten (handle_v2_heartbeat s.now g b)

-- The routes without requireAuth; the others are in `handle`, and `serve` never asks here for one.
unfoldable pub handle_open : Server → Request → Http Answer
unfolding handle_agent_register
handle_open s healthz = pure healthy
handle_open s (agent_register fresh ca minted hashed b) =
    answer registered (handle_agent_register s.crypto s.now fresh ca minted hashed b)
handle_open s _ = raise internal

-- The routes behind requireAuth, with the token's row and the Agent that it speaks for; `serve`
-- never asks here for one of the first two.
unfoldable pub handle : Server → Db.Token → Option Agent → Request → Http Answer
unfolding handle_v2_heartbeat handle_get_update_plan handle_create_token handle_list_tokens
    handle_revoke_token handle_set_update_policy handle_create_acl handle_delete_acl handle_list_acl
    handle_list_agents handle_get_agent handle_delete_agent handle_set_agent handle_list_cert_events
    handle_issue_cert
handle s t g healthz = raise internal
handle s t g (agent_register fresh ca minted hashed b) = raise internal
handle s t g (agent_heartbeat b) = beat s g b
handle s t g get_update_plan = answer plan handle_get_update_plan
handle s t g (create_token generate hashed b) =
    answer token (handle_create_token s.now generate hashed b)
handle s t g list_tokens = answer tokens handle_list_tokens
handle s t g (revoke_token id) = answer (λ _. done) (handle_revoke_token id s.now)
handle s t g (set_update_policy b) = answer (λ _. done) (handle_set_update_policy s.now b)
handle s t g (create_acl fresh b) = answer entry (handle_create_acl s.sum_hex fresh s.now b)
handle s t g (delete_acl id) = answer (λ _. done) (handle_delete_acl s.sum_hex id)
handle s t g (list_acl caller to) = answer entries (handle_list_acl caller to)
handle s t g list_agents = answer agents handle_list_agents
handle s t g (get_agent id) = answer agent (handle_get_agent id)
handle s t g (delete_agent id) = answer (λ _. done) (handle_delete_agent id s.now)
handle s t g (set_agent id b) = answer (λ _. done) (handle_set_agent id b)
handle s t g (list_cert_events read q) = answer events (handle_list_cert_events read q)
handle s t g (issue_cert request fresh serial b) =
    answer certificate (handle_issue_cert s.ssh s.ready request fresh s.now serial t.id b)

abbrev pub gated : Server → String → Request → Option TokenKind → Http Answer
gated s header req none = handle_open s req
gated s header req (some k) = do
  found ← require_auth s.crypto s.now k header
  handle s found.0 found.1 req

-- A request with its Authorization header.
unfoldable pub serve : Server → String → Request → Http Answer
unfolding require_auth handle_open handle
serve s header req = gated s header req (required_kind req)
