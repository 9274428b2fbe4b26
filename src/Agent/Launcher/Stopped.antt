-- ===== src/Agent/Launcher/Stopped.antt =====
-- A launcher that is asked to stop, since the Control plane has removed the Agent.
use uncluster.Prelude.{
  String, ◌≡◌, refl, ◌⊎◌, inl, inr, Bool, true, false, Option, none, some, List, if◌then◌else◌,
}
use uncluster.Prelude.Exec.{World, pure}
use uncluster.Prelude.Exec.Triple.{Triple, Outcome-either, Triple-fact, Triple-from}
use uncluster.Agent.PayloadStore.{Payload, is_quarantined, stage, activate}
use uncluster.Agent.Host.{Host, update_failed, on_store, Triple-on_store, get, modify}
use uncluster.Agent.SelfUpdate.{Web, UpdateConfig}
use uncluster.Agent.SelfUpdate.Frame.{handle_check_update-keeps}
use uncluster.Agent.Launcher.{
  Early, Late, Phase, returned, stopped, resolve_and_start, begin, settle, shutdown, unhealthy,
  gone, early_step, late_step, halt, supervise_until_healthy, supervise_steady_state, after_early,
  after_steady, context_error, cancelled_by_context,
}
use uncluster.Agent.Launcher.Reach.{
  Step, begins, early, late, cancels, deprovisions, marks, updates, Reach, here, next, at,
}
use uncluster.Agent.Launcher.Frame.{early_step-keeps, late_step-keeps, settle-keeps}

-- The top of the loop returns.
begin_stops :
    (h : Host) (faults : List Bool)
    → h.stop ≡ true
    → settle (begin (at h faults)) ≡ (returned stopped, h)
unfolding begin get
begin_stops h faults e = chosen h.stop e
  where
    chosen :
        (b : Bool)
        → b ≡ true
        → settle ((if b then pure (returned stopped) else resolve_and_start) (at h faults))
          ≡ (returned stopped, h)
    chosen true k = refl
    chosen false k = cc

module _ (c : Option String) where
  -- The launcher is to stop, and a process that runs is `c`.
  abbrev pub Ends : Host → Type 0
  Ends h = (h.stop ≡ true) × ((h.child ≡ none) ⊎ (h.child ≡ c))

  begin-Ends : (h : Host) (fs : List Bool) → Ends h → Ends (settle (begin (at h fs))).1
  begin-Ends h fs e = rw (begin_stops h fs e.0) e

  module _ (web : Web) (cfg : UpdateConfig) (goos goarch current : String) (watched : Bool) where
    Step-Ends :
        {p : Phase} {h : Host} {q : Phase} {k : Host}
        → Step web cfg goos goarch current watched p h q k
        → Ends h
        → Ends k
    Step-Ends (begins h fs) e = begin-Ends h fs e
    Step-Ends (early h v s fs r) e =
        settle-keeps Ends _ _
          ((early_step-keeps (λ h p. (p.0, inl refl)) (λ h p. p) (λ h s p. p) v s).at (at h fs) e)
    Step-Ends (late h v s fs r) e = settle-keeps Ends _ _ (
        (late_step-keeps (λ h p. (p.0, inl refl)) (λ h p. p) (λ h s p. p) watched v s).at (at h fs)
          e)
    Step-Ends (cancels p h) e = e
    Step-Ends (deprovisions p h) e = (refl, e.1)
    Step-Ends (marks p h m) e = e
    Step-Ends (updates p h plan fs r) e = Outcome-either Ends _ _ (
        (handle_check_update-keeps web (λ url h p. p) (λ v. passes (is_quarantined v))
            (λ v. passes (stage v)) (λ v. passes (activate v)) (λ v h p. p) cfg goos goarch current
            plan).at
          (at h fs) e)
      where
        passes :
            {A : Type 0} (m : Payload A)
            → Triple Ends (on_store update_failed m) (λ _. Ends) (λ _. Ends)
        passes m =
            Triple-on_store update_failed m
              (λ h p. Triple-from (λ _. Ends h) (λ _ _. p) (Triple-fact m))

    Reach-Ends :
        {p : Phase} {h : Host} {q : Phase} {k : Host}
        → Ends h
        → Reach web cfg goos goarch current watched p h q k
        → Ends k
    Reach-Ends e here = e
    Reach-Ends e (next r s) = Step-Ends s (Reach-Ends e r)

module _ (web : Web) (cfg : UpdateConfig) (goos goarch current : String) (watched : Bool) where
  -- Once the launcher is to stop, no process is started any more, whatever happens: one that runs
  -- later ran then.
  pub Reach_stop-starts_none :
      {p : Phase} {h : Host} {q : Phase} {k : Host}
      → h.stop ≡ true
      → Reach web cfg goos goarch current watched p h q k
      → (k.child ≡ none) ⊎ (k.child ≡ h.child)
  Reach_stop-starts_none {h} e r =
      (Reach-Ends h.child web cfg goos goarch current watched (e, inr refl) r).1

-- What Run returns where the launcher is to stop.
abbrev pub ended : Host → Phase
ended h = returned (if h.cancelled then cancelled_by_context else stopped)

-- Where the launcher is to stop, the exit of the process ends Run, healthy or not: the version is not
-- taken for a bad one, so the store is left as it is.
pub exit_stops :
    (watched : Bool) (v : String) (h : Host) (faults : List Bool)
    → h.stop ≡ true
    → (settle (early_step v Early.exited (at h faults)) ≡ (ended h, record h { child = none }))
      × (settle (late_step watched v Late.exited (at h faults))
          ≡ (ended h, record h { child = none }))
unfolding early_step late_step supervise_until_healthy supervise_steady_state after_early
    after_steady context_error halt get modify
exit_stops watched v h faults e = (early_shut h.cancelled h.stop e, late_shut h.cancelled h.stop e)
  where
    w : World Host
    w = at (record h { child = none }) faults

    early_shut :
        (c s : Bool)
        → s ≡ true
        → settle (after_early v (if c then shutdown else if s then shutdown else unhealthy) w)
          ≡ (ended h, record h { child = none })
    early_shut true s k = refl
    early_shut false true k = refl
    early_shut false false k = cc

    late_shut :
        (c s : Bool)
        → s ≡ true
        → settle (after_steady v (some (if c then shutdown else if s then shutdown else gone)) w)
          ≡ (ended h, record h { child = none })
    late_shut true s k = refl
    late_shut false true k = refl
    late_shut false false k = cc
