-- ===== src/Tests/StoreRuns.antt =====
-- The store at concrete inputs.
use uncluster.Prelude.{◌≡◌, ◌≢◌, refl, true, false, ◌&&◌, none, [], ◌∷◌, str_eq, any, find}
use uncluster.Prelude.Exec.{ok, err, World, attempt}
use uncluster.Store.Db.{PolicySnapshot, Db, transaction, io}
use uncluster.Store.Tokens.{mark_join_token_used}
use uncluster.Store.Tokens.Lifecycle.{mark_join_token_used_once}
use uncluster.Store.Agents.{is_revoked, revoke_agent, update_agent_heartbeat}
use uncluster.Store.Agents.Revocation.{update_agent_heartbeat-revives}
use uncluster.PolicyHash.{hash}
use uncluster.Store.Acl.{grants_of, CreateAclParams, create_acl, delete_acl, get_policy_snapshot}
use uncluster.Store.Acl.Invariant.{IsSynced, create_acl-IsSynced, delete_acl-IsSynced}
use uncluster.Tests.Fixtures.{sum_hex, clock, caller_id, join_id, plain_db, granted_db, quiet}

abbrev root_grant : CreateAclParams
root_grant = record {
  caller_token_id = caller_id;
  agent_id = "ag_1";
  username = "root";
  created_by = none;
}

plain_db-IsSynced : IsSynced sum_hex plain_db
unfolding plain_db sum_hex hash find grants_of
plain_db-IsSynced = record { unique = tt; hashes = λ a. refl }

create_acl-IsSynced_example :
    IsSynced sum_hex (create_acl sum_hex "acl_1" clock root_grant (quiet plain_db)).1.state
unfolding quiet
create_acl-IsSynced_example =
    create_acl-IsSynced sum_hex "acl_1" clock root_grant (quiet plain_db) plain_db-IsSynced

create_acl-IsSynced_run :
    IsSynced sum_hex (create_acl sum_hex "acl_1" clock root_grant (quiet plain_db)).1.state
unfolding quiet
create_acl-IsSynced_run =
    create_acl-IsSynced sum_hex "acl_1" clock root_grant (quiet plain_db) plain_db-IsSynced

delete_acl-IsSynced_example :
    IsSynced sum_hex
      (delete_acl sum_hex "acl_1"
        (create_acl sum_hex "acl_1" clock root_grant (quiet plain_db)).1).1.state
delete_acl-IsSynced_example =
    delete_acl-IsSynced sum_hex "acl_1"
      (create_acl sum_hex "acl_1" clock root_grant (quiet plain_db)).1 create_acl-IsSynced_run

abbrev snapshot : PolicySnapshot
snapshot = record {
  agent_id = "ag_1";
  version = 1;
  hash = "blake3:22";
  principals = record { username = "root"; caller_token_ids = caller_id ∷ [] } ∷ [];
}

snapshot_run : (get_policy_snapshot "ag_1" (quiet granted_db)).0 ≡ ok snapshot
unfolding get_policy_snapshot granted_db quiet attempt
snapshot_run = refl

used_run : (mark_join_token_used join_id clock (quiet plain_db)).0 ≡ ok tt
unfolding mark_join_token_used plain_db quiet attempt
used_run = refl

mark_join_token_used_once_example :
    (mark_join_token_used join_id clock (record {
      state = (mark_join_token_used join_id clock (quiet plain_db)).1.state;
      faults = [];
    })).0
    ≢ ok tt
mark_join_token_used_once_example =
    mark_join_token_used_once join_id clock clock (quiet plain_db) [] used_run

revoked_run : (revoke_agent "ag_1" clock (quiet plain_db)).0 ≡ ok tt
unfolding revoke_agent plain_db quiet attempt
revoked_run = refl

-- The update of the tokens is refused, behind the update of the agent.
abbrev refusing : World Db
refusing = record { state = plain_db; faults = false ∷ false ∷ false ∷ true ∷ [] }

refused_run : (revoke_agent "ag_1" clock refusing).0 ≡ err io
unfolding revoke_agent plain_db attempt
refused_run = refl

abbrev late : World Db
late = (revoke_agent "ag_1" clock (quiet plain_db)).1

late_run : (update_agent_heartbeat "ag_1" "v1" clock late).0 ≡ ok tt
unfolding update_agent_heartbeat revoke_agent plain_db quiet attempt
late_run = refl

update_agent_heartbeat-revives_example :
    any
      (λ g. str_eq g.id "ag_1" && is_revoked g.status)
      (update_agent_heartbeat "ag_1" "v1" clock late).1.state.agents
    ≡ false
update_agent_heartbeat-revives_example =
    update_agent_heartbeat-revives "ag_1" "v1" clock late late_run

nested_run : (transaction (revoke_agent "ag_1" clock) refusing).0 ≡ err io
unfolding transaction revoke_agent plain_db attempt
nested_run = refl
