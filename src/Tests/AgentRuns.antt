-- ===== src/Tests/AgentRuns.antt =====
-- The Agent's rendering of the policy at a concrete input.
use uncluster.Prelude.{
  ◌≡◌, ◌≢◌, refl, none, true, false, ◌&&◌, some, List, [], ◌∷◌, str_eq, any, is_space,
}
use uncluster.Prelude.Exec.{ok, World, attempt}
use uncluster.Store.Db.{PolicyPrincipal}
use uncluster.Store.Acl.{is_triple}
use uncluster.Store.Acl.Snapshot.{allows, has_user, Once}
use uncluster.Agent.Dir.{Dir, file}
use uncluster.Agent.Policy.{render_principals_dir}
use uncluster.Agent.Policy.Rendered.{lets_in, has_tmp}
use uncluster.Agent.Policy.Enforced.{render_principals_dir_enforces}
use uncluster.Agent.Apply.{PolicyState, run_apply_policy}
use uncluster.Agent.Apply.Applied.{run_apply_policy-Answers}
use uncluster.Agent.PayloadStore.{Payloads, lists, version_ok}
use uncluster.Agent.PayloadStore.Ready.{IsReady}
use uncluster.Tests.Fixtures.{caller_id, granted_db}
use uncluster.Tests.ServerRuns.{payload, payload-Answers}

-- A file of a user who is no longer in the policy.
abbrev pub old_dir : World Dir
old_dir = record { state = record { name = "bob"; node = file ("x" ∷ []) } ∷ []; faults = [] }

rendered_run : (render_principals_dir payload.principals old_dir).0 ≡ ok tt
unfolding render_principals_dir attempt is_space
rendered_run = refl

pub no_clash : (has_user "bob" payload.principals && has_tmp "bob" payload.principals) ≡ false
unfolding str_eq
no_clash = refl

pub one_user : Once payload.principals
one_user = (refl, tt)

-- The payload, and bob without a caller.
abbrev with_bob : List PolicyPrincipal
with_bob =
    record { username = "bob"; caller_token_ids = [] }
    ∷ record { username = "root"; caller_token_ids = caller_id ∷ [] }
    ∷ []

bob_run : (render_principals_dir with_bob old_dir).0 ≡ ok tt
unfolding render_principals_dir attempt is_space
bob_run = refl

bob_clash : (has_user "bob" with_bob && has_tmp "bob" with_bob) ≡ false
unfolding str_eq
bob_clash = refl

twice_none : Once with_bob
unfolding str_eq
twice_none = (refl, (refl, tt))

render_principals_dir_enforces_example :
    lets_in (render_principals_dir with_bob old_dir).1.state "bob" "x" ≡ allows with_bob "bob" "x"
render_principals_dir_enforces_example =
    render_principals_dir_enforces "bob" "x" with_bob twice_none old_dir bob_clash bob_run

root_clash : (has_user "root" payload.principals && has_tmp "root" payload.principals) ≡ false
unfolding str_eq
root_clash = refl

abbrev pub fresh_state : PolicyState
fresh_state = record {
  applied_version = 0;
  applied_hash = "";
  last_apply_status = "";
  last_apply_error = none;
  last_apply_at = 0;
}

changed_hash :
    (run_apply_policy true 2000000000 payload fresh_state old_dir).0.applied_hash
    ≢ fresh_state.applied_hash
unfolding run_apply_policy attempt is_space
changed_hash = λ e. cc

run_apply_policy-Answers_example :
    lets_in (run_apply_policy true 2000000000 payload fresh_state old_dir).1.state "root" caller_id
    ≡ any (is_triple caller_id "ag_1" "root") granted_db.acl
run_apply_policy-Answers_example =
    run_apply_policy-Answers granted_db "ag_1" "root" caller_id payload-Answers.0 payload true
      2000000000 fresh_state old_dir payload-Answers.1 root_clash changed_hash

abbrev pub payloads : Payloads
payloads = record {
  staged = "1.1" ∷ "1.0" ∷ [];
  current = some "1.1";
  previous = some "1.0";
  quarantined = "1.2" ∷ [];
}

pub payloads-IsReady : IsReady payloads
unfolding any str_eq
payloads-IsReady = (refl, refl)

version_11 : version_ok "1.1" ≡ true
unfolding version_ok
version_11 = refl

good_11 : lists "1.1" payloads.quarantined ≡ false
unfolding any str_eq
good_11 = refl

there_11 : lists "1.1" payloads.staged ≡ true
unfolding any str_eq
there_11 = refl
