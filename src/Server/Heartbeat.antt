-- ===== src/Server/Heartbeat.antt =====
-- internal/server/handlers_agent.go, handleV2Heartbeat: what an Agent reports and what it is told.
-- The health checks and metrics of the request are only read past.
pub mod Answer
use uncluster.Prelude.{
  ℕ, String, Bool, true, false, not, Option, none, some, List, [], ◌∷◌, if◌then◌else◌, str_eq,
}
use uncluster.Prelude.Signed.{ℤ}
use uncluster.Prelude.Exec.{Result, ok, err, World, pure, raise, ◌>>=◌, ◌>>◌}
use uncluster.Store.Db.{Agent, Db, PolicyPrincipal, PolicySnapshot, unix}
use uncluster.Store.Agents.{get_agent, update_agent_heartbeat}
use uncluster.Store.Reports.{
  AgentEndpoint, UpsertAgentPolicyStateParams, upsert_agent_endpoints, upsert_agent_policy_state,
}
use uncluster.Store.Acl.{get_policy_snapshot}
use uncluster.Server.Http.{Status, bad_request, Http, or_status, or_internal, some_or, ignore, try}
use uncluster.Server.Update.{CheckUpdateCommand, build_update_commands}

pub record AgentPolicyReport : Type 0 where
  pub desired_version : Option ℕ
  pub applied_version : ℕ
  pub applied_hash : String
  pub last_apply_status : String
  pub last_apply_error : Option String
  pub last_apply_at : ℕ

pub record V2HeartbeatRequest : Type 0 where
  pub agent_version : String
  pub observed_at : ℕ
  pub endpoints : List AgentEndpoint
  pub policy_state : AgentPolicyReport

pub record PolicyPayload : Type 0 where
  pub version : ℕ
  pub hash : String
  pub principals : List PolicyPrincipal

pub record V2HeartbeatResponse : Type 0 where
  pub ack_ts : ℕ
  pub server_time : ℕ
  pub policy : Option PolicyPayload
  pub commands : List CheckUpdateCommand
  pub fail_closed_after : Option ℤ

-- The policy is sent where the hash that the Agent applied is another one.
unfoldable pub policy_for : Option PolicySnapshot → String → Option PolicyPayload
unfolding str_eq
policy_for none applied = none
policy_for (some s) applied =
    if str_eq s.hash applied
    then none
    else some (record { version = s.version; hash = s.hash; principals = s.principals })

abbrev pub version_of : Option PolicySnapshot → Option ℕ
version_of none = none
version_of (some s) = some s.version

-- The value that authentication has read stands in for a read that fails.
abbrev pub latest_fail_closed : Agent → Option Agent → Option ℤ
latest_fail_closed g none = g.fail_closed_after
latest_fail_closed g (some latest) = latest.fail_closed_after

-- if len(req.Endpoints) > 0
abbrev pub persist_endpoints : String → List AgentEndpoint → Http (Unit {0})
persist_endpoints id [] = pure tt
persist_endpoints id (e ∷ es) = ignore (upsert_agent_endpoints id (e ∷ es))

abbrev pub state_params :
    Agent → V2HeartbeatRequest → Option PolicySnapshot → UpsertAgentPolicyStateParams
state_params g req snap = record {
  agent_id = g.id;
  desired_version = version_of snap;
  applied_version = req.policy_state.applied_version;
  applied_hash = req.policy_state.applied_hash;
  last_apply_status = req.policy_state.last_apply_status;
  last_apply_error = req.policy_state.last_apply_error;
  last_apply_at = req.policy_state.last_apply_at;
}

unfoldable pub handle_v2_heartbeat :
    ℕ → Agent → Option V2HeartbeatRequest → Http V2HeartbeatResponse
unfolding update_agent_heartbeat upsert_agent_endpoints get_policy_snapshot
    upsert_agent_policy_state get_agent build_update_commands policy_for unix
handle_v2_heartbeat now g body = do
  req ← some_or bad_request body
  or_status or_internal (update_agent_heartbeat g.id req.agent_version now)
  persist_endpoints g.id req.endpoints
  snap ← try (get_policy_snapshot g.id)
  ignore (upsert_agent_policy_state now (state_params g req snap))
  latest ← try (get_agent g.id)
  commands ← build_update_commands req.agent_version
  pure (record {
    ack_ts = req.observed_at;
    server_time = unix now;
    policy = policy_for snap req.policy_state.applied_hash;
    commands = commands;
    fail_closed_after = latest_fail_closed g latest;
  })
