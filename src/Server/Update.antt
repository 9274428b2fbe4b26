-- ===== src/Server/Update.antt =====
-- internal/server/handlers_update.go: the version that the Agents are told to run.
use uncluster.Prelude.{
  ℕ, String, Bool, false, not, ◌||◌, Option, none, some, List, [], ◌∷◌, if◌then◌else◌, str_eq,
}
use uncluster.Prelude.Exec.{Result, ok, err, World, pure, ◌>>=◌, ◌>>◌}
use uncluster.Store.Db.{StoreError, UpdatePolicy, Db}
use uncluster.Store.Db
use uncluster.Store.Update.{SetUpdatePolicyParams, get_update_policy, set_update_policy}
use uncluster.Server.Http.{
  Status, bad_request, internal, Http, or_status, or_internal, guard, some_or, try,
}

pub record UpdatePlanResponse : Type 0 where
  pub expected_version : String
  pub asset_url_template : String
  pub sha256_url_template : String
  pub force : Bool

abbrev empty_plan : UpdatePlanResponse
empty_plan = record {
  expected_version = "";
  asset_url_template = "";
  sha256_url_template = "";
  force = false;
}

abbrev plan_of : UpdatePolicy → UpdatePlanResponse
plan_of p = record {
  expected_version = p.expected_version;
  asset_url_template = p.asset_url_template;
  sha256_url_template = p.sha256_url_template;
  force = p.force;
}

abbrev plan_or_empty :
    Result StoreError UpdatePolicy × World Db → Result Status UpdatePlanResponse × World Db
plan_or_empty (ok p, w) = (ok (plan_of p), w)
plan_or_empty (err Db.not_found, w) = (ok empty_plan, w)
plan_or_empty (err e, w) = (err internal, w)

unfoldable pub handle_get_update_plan : Http UpdatePlanResponse
handle_get_update_plan w = plan_or_empty (get_update_policy w)

-- The one command there is: {"type": "check_update", "version": ...}.
pub record CheckUpdateCommand : Type 0 where
  pub version : String

unfoldable pub commands_for : String → Option UpdatePolicy → List CheckUpdateCommand
unfolding str_eq
commands_for version none = []
commands_for version (some p) =
    if str_eq p.expected_version ""
    then []
    else if not (str_eq version p.expected_version) || p.force
    then record { version = p.expected_version } ∷ []
    else []

-- Any error reads as no policy.
unfoldable pub build_update_commands : String → Http (List CheckUpdateCommand)
unfolding commands_for
build_update_commands version = try get_update_policy >>= λ p. pure (commands_for version p)

unfoldable pub handle_set_update_policy : ℕ → Option SetUpdatePolicyParams → Http (Unit {0})
unfolding set_update_policy str_eq
handle_set_update_policy now body = do
  req ← some_or bad_request body
  guard (not (str_eq req.expected_version "")) bad_request
  or_status or_internal (set_update_policy now req)
