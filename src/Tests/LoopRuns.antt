-- ===== src/Tests/LoopRuns.antt =====
-- The heartbeat loop at concrete inputs.
use uncluster.Prelude.{
  ◌≡◌, ◌≢◌, refl, ◌*◌, ◌-◌, ◌<◌, ◌≤◌, true, false, none, some, [], ◌∷◌, is_space, arith,
}
use uncluster.Prelude.Signed.{pos}
use uncluster.Prelude.Exec.{ok, err, attempt}
use uncluster.Store.Db.{PolicySnapshot}
use uncluster.Store.Acl.Snapshot.{allows}
use uncluster.Server.Heartbeat.{V2HeartbeatResponse, policy_for}
use uncluster.Agent.Policy.{render_principals_dir}
use uncluster.Agent.Policy.Rendered.{lets_in}
use uncluster.Agent.Loop.{
  Loop, LoopConfig, beat, revoked, agent_deprovisioned, agent_run, apply_policy, empty_policy,
  check_fail_closed, heartbeat_answered, heartbeat_request, work,
}
use uncluster.Agent.Loop.Revoked.{wiped_loop, revoked_wipes, revoked_reapplies}
use uncluster.Agent.Loop.FailClosed.{
  check_fail_closed-exact, check_fail_closed_wraps, fail_closed_recovers,
}
use uncluster.Agent.Wipe.{wiped}
use uncluster.Tests.AgentRuns.{old_dir, fresh_state, one_user, no_clash}
use uncluster.Tests.ServerRuns.{payload}

abbrev config : LoopConfig
config = record { configured = true; hooked = true }

abbrev old_loop : Loop
old_loop = record {
  policy = fresh_state;
  dir = old_dir.state;
  fail_closed_after = some (pos 60);
  last_heartbeat_ok = some 1000000000;
  queue = none;
  commits = 1;
  deprovisioned = false;
}

revoked_wipes_example :
    (agent_run config 5 [] (beat 4 [] (err revoked) ∷ []) old_loop
      ≡ (wiped_loop config refl old_loop, some agent_deprovisioned))
    × (lets_in (wiped_loop config refl old_loop).dir "bob" "x" ≡ false)
revoked_wipes_example = revoked_wipes config refl old_loop 4 5 [] [] "bob" "x" refl

-- A policy is still to be applied.
abbrev pending_loop : Loop
pending_loop = record old_loop { queue = some payload }

wiped_run :
    (render_principals_dir payload.principals
      (record { state = wiped pending_loop.dir pending_loop.dir; faults = [] })).0
    ≡ ok tt
unfolding render_principals_dir attempt is_space
wiped_run = refl

revoked_reapplies_example :
    ((agent_run config 5 [] (beat 4 [] (err revoked) ∷ []) pending_loop).1
      ≡ some agent_deprovisioned)
    × (lets_in (agent_run config 5 [] (beat 4 [] (err revoked) ∷ []) pending_loop).0.dir "bob" "x"
        ≡ allows payload.principals "bob" "x")
revoked_reapplies_example =
    revoked_reapplies config refl pending_loop payload 4 5 [] [] "bob" "x" refl one_user no_clash
      wiped_run

check_fail_closed-exact_example :
    (61000000000 - 1000000000 < 60 * 1000000000
      → check_fail_closed config 61000000000 [] old_loop ≡ old_loop)
    × (60 * 1000000000 ≤ 61000000000 - 1000000000
        → (render_principals_dir [] (record { state = old_loop.dir; faults = [] })).0 ≡ ok tt
        → (lets_in (check_fail_closed config 61000000000 [] old_loop).dir "bob" "x" ≡ false)
          × ((check_fail_closed config 61000000000 [] old_loop).policy.applied_hash ≡ ""))
check_fail_closed-exact_example =
    check_fail_closed-exact config refl 61000000000 1000000000 60 [] old_loop "bob" "x"
      (omega arith) (omega arith) refl refl

abbrev far_loop : Loop
far_loop = record old_loop { fail_closed_after = some (pos 10000000000) }

check_fail_closed_wraps_example :
    check_fail_closed config 1000000001 [] far_loop
    ≡ apply_policy config 1000000001 [] empty_policy far_loop
check_fail_closed_wraps_example =
    check_fail_closed_wraps config refl 1000000001 1000000000 10000000000 [] far_loop (omega arith)
      (omega arith) refl refl

abbrev snapshot : PolicySnapshot
snapshot = record {
  agent_id = "ag_1";
  version = payload.version;
  hash = "abc";
  principals = payload.principals;
}

abbrev answer : V2HeartbeatResponse
answer = record {
  ack_ts = 2;
  server_time = 2;
  policy =
      some (record { version = payload.version; hash = "abc"; principals = payload.principals });
  commands = [];
  fail_closed_after = none;
}

rendered_run :
    (render_principals_dir snapshot.principals (record { state = old_loop.dir; faults = [] })).0
    ≡ ok tt
unfolding render_principals_dir attempt is_space
rendered_run = refl

abc_full : snapshot.hash ≢ ""
abc_full = λ e. cc

answer_sent :
    answer.policy
    ≡ policy_for
        (some snapshot)
        (heartbeat_request (λ _. "") "1.0" 2 [] old_loop.policy).policy_state.applied_hash
unfolding policy_for heartbeat_request
answer_sent = refl

fail_closed_recovers_example :
    lets_in (work config 3 [] (heartbeat_answered config 2 answer old_loop)).dir "bob" "x"
    ≡ allows snapshot.principals "bob" "x"
fail_closed_recovers_example =
    fail_closed_recovers config refl (λ _. "") "1.0" 2 3 [] [] old_loop snapshot answer "bob" "x"
      refl abc_full one_user no_clash answer_sent rendered_run
