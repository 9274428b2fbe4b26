-- ===== src/Server/Agents.antt =====
-- internal/server/handlers_agents.go: the operator's view of the Agents.
pub mod Removed
use uncluster.Prelude.{ℕ, String, Bool, true, false, Option, none, some, List, [], ◌∷◌, map}
use uncluster.Prelude.Signed.{ℤ}
use uncluster.Prelude.Exec.{Result, World, pure, raise, ◌>>=◌, ◌>>◌}
use uncluster.Store.Db.{AgentStatus, Agent, EndpointRow}
use uncluster.Store.Agents.{list_agents, revoke_agent, set_agent_fail_closed_after}
use uncluster.Store.Reports.{AgentEndpoint, list_agent_endpoints}
use uncluster.Server.Http.{
  bad_request, Http, or_status, or_internal, or_not_found, missing_or_internal, some_or, try,
}
use uncluster.Server.Resolve.{resolve_agent}

pub record AgentDetail : Type 0 where
  pub id : String
  pub name : String
  pub status : AgentStatus
  pub agent_version : String
  pub created_at : ℕ
  pub last_seen_at : Option ℕ
  pub endpoints : List AgentEndpoint
  pub fail_closed_after : Option ℤ

abbrev endpoint_of : EndpointRow → AgentEndpoint
endpoint_of e = record { subnet = e.subnet; address = e.address }

-- Endpoints that cannot be read show as none.
abbrev endpoints_of : Option (List EndpointRow) → List AgentEndpoint
endpoints_of none = []
endpoints_of (some es) = map endpoint_of es

abbrev pub agent_detail : Agent → Option (List EndpointRow) → AgentDetail
agent_detail g es = record {
  id = g.id;
  name = g.name;
  status = g.status;
  agent_version = g.agent_version;
  created_at = g.created_at;
  last_seen_at = g.last_seen_at;
  endpoints = endpoints_of es;
  fail_closed_after = g.fail_closed_after;
}

details : List Agent → Http (List AgentDetail)
unfolding list_agent_endpoints
details [] = pure []
details (g ∷ gs) = do
  es ← try (list_agent_endpoints g.id)
  rest ← details gs
  pure (agent_detail g es ∷ rest)

unfoldable pub handle_list_agents : Http (List AgentDetail)
unfolding list_agents details
handle_list_agents = or_status or_internal list_agents >>= details

unfoldable pub handle_get_agent : String → Http AgentDetail
unfolding resolve_agent list_agent_endpoints
handle_get_agent id_or_name = do
  g ← or_status or_not_found (resolve_agent id_or_name)
  es ← try (list_agent_endpoints g.id)
  pure (agent_detail g es)

unfoldable pub handle_delete_agent : String → ℕ → Http (Unit {0})
unfolding resolve_agent revoke_agent
handle_delete_agent id_or_name now = do
  g ← or_status or_not_found (resolve_agent id_or_name)
  or_status missing_or_internal (revoke_agent g.id now)

-- `body` is none where the JSON cannot be read; the inner none clears the value.
unfoldable pub handle_set_agent : String → Option (Option ℤ) → Http (Unit {0})
unfolding resolve_agent set_agent_fail_closed_after
handle_set_agent id_or_name body = do
  g ← or_status or_not_found (resolve_agent id_or_name)
  seconds ← some_or bad_request body
  or_status missing_or_internal (set_agent_fail_closed_after g.id seconds)
