-- ===== src/Tests/LauncherRuns.antt =====
-- The launcher, the self-update and the binaries at concrete inputs.
use uncluster.Prelude.{◌≡◌, refl, ◌⊎◌, true, false, none, some, [], str_eq, any, is_space, ◌∷◌}
use uncluster.Prelude.Exec.{ok, err, World, attempt}
use uncluster.Prelude.Exec.Triple.{Outcome}
use uncluster.Server.Update.{UpdatePlanResponse}
use uncluster.Agent.PayloadStore.{is_quarantined_error, lists, version_ok, activate}
use uncluster.Agent.Host.{Host}
use uncluster.Agent.SelfUpdate.{Web, UpdateConfig, handle_check_update}
use uncluster.Agent.SelfUpdate.Verified.{IsTrusted, Answered, hosts_of, handle_check_update-Safe}
use uncluster.Agent.SelfUpdate.InPlace.{Binaries, apply_in_place, rollback_in_place}
use uncluster.Agent.SelfUpdate.InPlace.Swapped.{
  Updated, IsSafe, apply_in_place-Updated, rollback-apply_in_place,
}
use uncluster.Agent.Launcher.{begin, beginning, waiting, settle}
use uncluster.Agent.Launcher.Reach.{Reach, here, next, begins, deprovisions, at}
use uncluster.Agent.Launcher.Places.{IsSupervised}
use uncluster.Agent.Launcher.Supervised.{Reach-IsSupervised}
use uncluster.Agent.Launcher.Stopped.{Reach_stop-starts_none}
use uncluster.Agent.Launcher.Recovery.{
  miss_and_restart, restarted, demoted, misses, missed_restores, restored_version_loops,
}
use uncluster.Tests.AgentRuns.{payloads, payloads-IsReady}

-- Every URL is on the host "github.com", and serves the text "x", whose sum is "x".
abbrev web : Web
web = record {
  hostname = λ _. some "github.com";
  body = λ _. some "x";
  redirects = λ _. "https://elsewhere.example/x" ∷ [];
  sum_hex = λ b. b;
}

abbrev config : UpdateConfig
config = record { update_host_allowlist = none; pinned_version = "" }

abbrev plan : UpdatePlanResponse
plan = record {
  expected_version = "2.0";
  asset_url_template = "a/{version}";
  sha256_url_template = "s/{version}";
  force = false;
}

abbrev idle_host : Host
idle_host = record {
  payloads = payloads;
  pending = none;
  health = none;
  stop = false;
  cancelled = false;
  child = none;
  fetched = [];
}

abbrev running_host : Host
running_host = record idle_host { child = some "1.1" }

-- The update is carried out: the version is staged and current, and the launcher is asked.
update_run :
    (handle_check_update web config "linux" "amd64" "1.1"
      (some plan)
      (at running_host [])).1.state.payloads.current
    ≡ some "2.0"
unfolding handle_check_update attempt is_space
update_run = refl

trusted : IsTrusted web (hosts_of web config "linux" "amd64" "1.1") idle_host
unfolding any
trusted = refl

handle_check_update-Safe_example :
    IsTrusted web
      (hosts_of web config "linux" "amd64" "1.1")
      (handle_check_update web config "linux" "amd64" "1.1" (some plan) (at idle_host [])).1.state
    × (((handle_check_update web config "linux" "amd64" "1.1"
            (some plan)
            (at idle_host [])).1.state.payloads
          ≡ payloads)
        ⊎ Answered web config "linux" "amd64" "1.1" payloads plan)
handle_check_update-Safe_example =
    handle_check_update-Safe web config "linux" "amd64" "1.1" plan (at idle_host []) trusted

idle-IsSupervised : IsSupervised beginning idle_host
idle-IsSupervised = record { ready = payloads-IsReady; runs = refl; staged = tt }

begin_run : settle (begin (at idle_host [])) ≡ (waiting "1.1", running_host)
unfolding begin attempt any str_eq
begin_run = refl

abbrev started :
    Reach web config "linux" "amd64" "1.1" true beginning idle_host
      (settle (begin (at idle_host []))).0
      (settle (begin (at idle_host []))).1
started = next here (begins idle_host [])

Reach-IsSupervised_example :
    IsSupervised (settle (begin (at idle_host []))).0 (settle (begin (at idle_host []))).1
Reach-IsSupervised_example =
    Reach-IsSupervised web config "linux" "amd64" "1.1" true idle-IsSupervised started

abbrev stopping_host : Host
stopping_host = record running_host { stop = true }

Reach_stop-starts_none_example :
    (running_host.child ≡ none) ⊎ (running_host.child ≡ running_host.child)
Reach_stop-starts_none_example =
    Reach_stop-starts_none web config "linux" "amd64" "1.1" true {p = waiting "1.1"}
      {h = stopping_host} refl (next here (deprovisions (waiting "1.1") stopping_host))

version_11 : version_ok "1.1" ≡ true
unfolding version_ok
version_11 = refl

version_10 : version_ok "1.0" ≡ true
unfolding version_ok
version_10 = refl

there_10 : lists "1.0" payloads.staged ≡ true
unfolding any str_eq
there_10 = refl

missed_restores_example :
    (miss_and_restart "1.1" running_host
      ≡ (waiting "1.0", restarted "1.0" (demoted "1.1" "1.0" running_host)))
    × (activate "1.1"
          (record { state = (miss_and_restart "1.1" running_host).1.payloads; faults = [] })
        ≡ (
          err is_quarantined_error,
          record { state = (miss_and_restart "1.1" running_host).1.payloads; faults = [] },
        ))
missed_restores_example =
    missed_restores "1.1" "1.0" running_host version_11 refl refl refl there_10

restored_version_loops_example :
    ((misses 3 "1.0" (miss_and_restart "1.1" running_host).1).0 ≡ waiting "1.0")
    × (lists "1.0" (misses 3 "1.0" (miss_and_restart "1.1" running_host).1).1.payloads.quarantined
        ≡ true)
restored_version_loops_example =
    restored_version_loops "1.1" "1.0" running_host version_11 version_10 refl refl refl there_10 2

abbrev binaries : World Binaries
binaries = record {
  state = record { binary = some "old"; fresh = none; prev = none; failed = none };
  faults = [];
}

apply_in_place-Updated_example :
    Outcome
      (λ _. Updated "old" web "a" "s")
      (λ _. IsSafe "old")
      (apply_in_place web "" "2.0" "a" "s" binaries).0
      (apply_in_place web "" "2.0" "a" "s" binaries).1.state
apply_in_place-Updated_example = apply_in_place-Updated web "" "2.0" "a" "s" "old" binaries refl

applied_run : (apply_in_place web "" "2.0" "a" "s" binaries).0 ≡ ok tt
unfolding apply_in_place attempt is_space
applied_run = refl

rollback-apply_in_place_example :
    (rollback_in_place (record {
      state = (apply_in_place web "" "2.0" "a" "s" binaries).1.state;
      faults = [];
    })).1.state.binary
    ≡ some "old"
rollback-apply_in_place_example =
    rollback-apply_in_place web "" "2.0" "a" "s" "old" binaries refl applied_run
