-- ===== src/Agent/Launcher/Reach.antt =====
-- The launcher among its environment: the service manager, the Control plane's removal, and the
-- payload that it runs. One step is one round of the launcher, or one act of the environment.
use uncluster.Prelude.{String, Bool, true, Option, none, some, List, ◌≡◌, ◌≢◌}
use uncluster.Prelude.Exec.{World}
use uncluster.Server.Update.{UpdatePlanResponse}
use uncluster.Agent.Host.{Host}
use uncluster.Agent.SelfUpdate.{Web, UpdateConfig, handle_check_update}
use uncluster.Agent.Launcher.{
  Early, Late, Phase, beginning, waiting, steady, committed, missed, ticked, begin, early_step,
  late_step, settle,
}

-- What a select may take: the context is done, or the health marker has the version.
abbrev pub EarlyReady : String → Early → Host → Type 0
EarlyReady v Early.interrupted h = h.cancelled ≡ true
EarlyReady v Early.exited h = Unit
EarlyReady v committed h = h.health ≡ some v
EarlyReady v missed h = Unit

abbrev pub LateReady : Late → Host → Type 0
LateReady Late.interrupted h = h.cancelled ≡ true
LateReady Late.exited h = Unit
LateReady ticked h = Unit

-- `faults` says which calls the system refuses in the step.
abbrev pub at : Host → List Bool → World Host
at h faults = record { state = h; faults = faults }

module _ (web : Web) (cfg : UpdateConfig) (goos goarch current : String) (watched : Bool) where
  pub data Step : Phase → Host → Phase → Host → Type 0 where
    begins :
        (h : Host) (faults : List Bool)
        → Step beginning h (settle (begin (at h faults))).0 (settle (begin (at h faults))).1
    early :
        (h : Host) (v : String) (s : Early) (faults : List Bool)
        → EarlyReady v s h
        → Step
            (waiting v)
            h
            (settle (early_step v s (at h faults))).0
            (settle (early_step v s (at h faults))).1
    late :
        (h : Host) (v : String) (s : Late) (faults : List Bool)
        → LateReady s h
        → Step
            (steady v)
            h
            (settle (late_step watched v s (at h faults))).0
            (settle (late_step watched v s (at h faults))).1
    cancels : (p : Phase) (h : Host) → Step p h p (record h { cancelled = true })
    deprovisions : (p : Phase) (h : Host) → Step p h p (record h { stop = true })
    marks : (p : Phase) (h : Host) (m : Option String) → Step p h p (record h { health = m })
    updates :
        (p : Phase) (h : Host) (plan : UpdatePlanResponse) (faults : List Bool)
        → h.child ≢ none
        → Step p h p
            (handle_check_update web cfg goos goarch current (some plan) (at h faults)).1.state

  pub data Reach (p : Phase) (h : Host) : Phase → Host → Type 0 where
    here : Reach p h p h
    next :
        {q : Phase} {k : Host} {r : Phase} {l : Host} → Reach p h q k → Step q k r l → Reach p h r l
