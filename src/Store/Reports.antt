-- ===== src/Store/Reports.antt =====
-- internal/store/sqlite.go: what an Agent reports: its policy state and its endpoints.
pub mod Frame
use uncluster.Prelude.{
  ℕ, zero, suc, String, Bool, true, false, not, ◌&&◌, Option, none, some, List, [], ◌∷◌, ◌++◌,
  if◌then◌else◌, str_eq, find, filter, any, update_where, sort, leb_codes, codes,
}
use uncluster.Prelude.Exec.{Result, ok, err, pure, ◌>>=◌, ◌>>◌}
use uncluster.Store.Db.{
  StoreError, unique_violation, constraint, AgentPolicyState, EndpointRow, Db, Sql, query,
  statement, one_row, transaction, unix,
}

pub record UpsertAgentPolicyStateParams : Type 0 where
  pub agent_id : String
  pub desired_version : Option ℕ
  pub applied_version : ℕ
  pub applied_hash : String
  pub last_apply_status : String
  pub last_apply_error : Option String
  pub last_apply_at : ℕ

-- The column holds 0 for "no desired version", and a 0 is read back as none.
abbrev pub desired_column : Option ℕ → Option ℕ
desired_column none = none
desired_column (some zero) = none
desired_column (some (suc v)) = some (suc v)

-- INSERT ... ON CONFLICT(agent_id) DO UPDATE; the agent must exist.
upsert_state : AgentPolicyState → Db → Result StoreError (Unit {0}) × Db
unfolding any str_eq update_where
upsert_state row db =
    if any (λ s. str_eq s.agent_id row.agent_id) db.policy_states
    then (
      ok tt,
      record db {
        policy_states =
            update_where (λ s. str_eq s.agent_id row.agent_id) (λ _. row) db.policy_states;
      },
    )
    else if any (λ g. str_eq g.id row.agent_id) db.agents
    then (ok tt, record db { policy_states = db.policy_states ++ row ∷ [] })
    else (err constraint, db)

unfoldable pub upsert_agent_policy_state : ℕ → UpsertAgentPolicyStateParams → Sql (Unit {0})
unfolding upsert_state unix
upsert_agent_policy_state now p = statement (
    upsert_state (record {
      agent_id = p.agent_id;
      desired_version = desired_column p.desired_version;
      applied_version = p.applied_version;
      applied_hash = p.applied_hash;
      last_apply_status = p.last_apply_status;
      last_apply_error = p.last_apply_error;
      last_apply_at = p.last_apply_at;
      updated_at = unix now;
    }))

unfoldable pub get_agent_policy_state : String → Sql AgentPolicyState
unfolding find str_eq
get_agent_policy_state id =
    query (λ db. find (λ s. str_eq s.agent_id id) db.policy_states) >>= one_row

pub record AgentEndpoint : Type 0 where
  pub subnet : String
  pub address : String

-- DELETE FROM agent_endpoints WHERE agent_id = ?
abbrev delete_endpoints : String → Db → Result StoreError (Unit {0}) × Db
delete_endpoints id db =
    (ok tt, record db { endpoints = filter (λ e. not (str_eq e.agent_id id)) db.endpoints })

-- INSERT INTO agent_endpoints, with PRIMARY KEY (agent_id, subnet).
insert_endpoint : String → AgentEndpoint → Db → Result StoreError (Unit {0}) × Db
unfolding any str_eq
insert_endpoint id e db =
    if any (λ r. str_eq r.agent_id id && str_eq r.subnet e.subnet) db.endpoints
    then (err unique_violation, db)
    else if any (λ g. str_eq g.id id) db.agents
    then (
      ok tt,
      record db {
        endpoints =
            db.endpoints ++ (record { agent_id = id; subnet = e.subnet; address = e.address } ∷ []);
      },
    )
    else (err constraint, db)

insert_endpoints : String → List AgentEndpoint → Sql (Unit {0})
unfolding insert_endpoint
insert_endpoints id [] = pure tt
insert_endpoints id (e ∷ es) = statement (insert_endpoint id e) >> insert_endpoints id es

unfoldable pub upsert_agent_endpoints : String → List AgentEndpoint → Sql (Unit {0})
unfolding transaction insert_endpoints filter
upsert_agent_endpoints id endpoints =
    transaction (statement (delete_endpoints id) >> insert_endpoints id endpoints)

-- ORDER BY subnet
unfoldable pub list_agent_endpoints : String → Sql (List EndpointRow)
unfolding sort filter leb_codes
list_agent_endpoints id = query (λ db.
    sort (λ e f. leb_codes (codes e.subnet) (codes f.subnet))
      (filter (λ e. str_eq e.agent_id id) db.endpoints))
