-- ===== src/Agent/Apply/Applied.antt =====
-- runApplyPolicy: what a newly recorded hash says of the directory.
use uncluster.Prelude.{ℕ, String, ◌≡◌, ◌≢◌, refl, Bool, true, false, ◌&&◌, any}
use uncluster.Prelude.Exec.{Result, ok, err, World}
use uncluster.Store.Db.{Db}
use uncluster.Store.Acl.{is_triple}
use uncluster.Store.Acl.Snapshot.{has_user}
use uncluster.Server.Heartbeat.{V2HeartbeatRequest, PolicyPayload}
use uncluster.Server.Heartbeat.Answer.{Answers}
use uncluster.Agent.Dir.{Dir, AgentError}
use uncluster.Agent.Policy.{render_principals_dir}
use uncluster.Agent.Policy.Rendered.{lets_in, has_tmp}
use uncluster.Agent.Policy.Enforced.{render_principals_dir-Answers}
use uncluster.Agent.Apply.{PolicyState, recorded, run_apply_policy}

-- The record does not touch the directory.
recorded_world :
    (now : ℕ) (snap : PolicyPayload) (st : PolicyState)
    (r : Result AgentError (Unit {0}) × World Dir)
    → (recorded now snap st r).1 ≡ r.1
recorded_world now snap st (ok a, w) = refl
recorded_world now snap st (err e, w) = refl

pub run_apply_policy_dir :
    (now : ℕ) (snap : PolicyPayload) (st : PolicyState) (w : World Dir)
    → (run_apply_policy true now snap st w).1 ≡ (render_principals_dir snap.principals w).1
unfolding run_apply_policy
run_apply_policy_dir now snap st w =
    recorded_world now snap st (render_principals_dir snap.principals w)

-- The record takes a new hash only where the rendering has succeeded.
recorded-ok :
    (now : ℕ) (snap : PolicyPayload) (st : PolicyState) (r : Result AgentError (Unit {0}))
    (w : World Dir)
    → (recorded now snap st (r, w)).0.applied_hash ≢ st.applied_hash
    → (r ≡ ok tt) × ((recorded now snap st (r, w)).1 ≡ w)
recorded-ok now snap st (ok a) w h = (refl, refl)
recorded-ok now snap st (err e) w h = absurd (h refl)

-- Where applying an answered policy has changed the hash that the Agent reports, the directory lets
-- a caller in as a user exactly if the table of grants had that pair for the agent, whatever calls
-- the system refuses; the user is not called like the temporary file of a user of the policy.
pub run_apply_policy-Answers :
    (old : Db) (agent u c : String) (req : V2HeartbeatRequest) (snap : PolicyPayload)
    (configured : Bool) (now : ℕ) (st : PolicyState) (w : World Dir)
    → Answers old agent req snap
    → (has_user u snap.principals && has_tmp u snap.principals) ≡ false
    → (run_apply_policy configured now snap st w).0.applied_hash ≢ st.applied_hash
    → lets_in (run_apply_policy configured now snap st w).1.state u c
      ≡ any (is_triple c agent u) old.acl
unfolding run_apply_policy
run_apply_policy-Answers old agent u c req snap false now st w a free h = absurd (h refl)
run_apply_policy-Answers old agent u c req snap true now st w a free h =
    let done =
      recorded-ok now snap st (render_principals_dir snap.principals w).0
        (render_principals_dir snap.principals w).1 h in
    rw done.1 (render_principals_dir-Answers old agent u c req snap w a free done.0)
