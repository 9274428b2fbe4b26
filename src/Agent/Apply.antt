-- ===== src/Agent/Apply.antt =====
-- internal/agent/policy.go, runApplyPolicy, with doApplyPolicy of policy_apply_unix.go: the record of
-- what was applied, which the next heartbeat reports. The text of an error is left out.
pub mod Applied
use uncluster.Prelude.{ℕ, String, Bool, true, false, Option, none, some}
use uncluster.Prelude.Exec.{Result, ok, err, World}
use uncluster.Server.Heartbeat.{PolicyPayload}
use uncluster.Agent.Dir.{Dir, AgentError}
use uncluster.Agent.Policy.{render_principals_dir}

pub record PolicyState : Type 0 where
  pub applied_version : ℕ
  pub applied_hash : String
  pub last_apply_status : String
  pub last_apply_error : Option AgentError
  pub last_apply_at : ℕ

abbrev pub recorded :
    ℕ
    → PolicyPayload
    → PolicyState
    → Result AgentError (Unit {0}) × World Dir
    → PolicyState × World Dir
recorded now snap st (ok _, w) = (
  record {
    applied_version = snap.version;
    applied_hash = snap.hash;
    last_apply_status = "ok";
    last_apply_error = none;
    last_apply_at = now;
  },
  w,
)
recorded now snap st (err e, w) =
    (record st { last_apply_status = "failed"; last_apply_error = some e; last_apply_at = now }, w)

-- `configured` says that the principals directory is; without it nothing happens.
unfoldable pub run_apply_policy :
    Bool → ℕ → PolicyPayload → PolicyState → World Dir → PolicyState × World Dir
unfolding render_principals_dir
run_apply_policy true now snap st w = recorded now snap st (render_principals_dir snap.principals w)
run_apply_policy false now snap st w = (st, w)
