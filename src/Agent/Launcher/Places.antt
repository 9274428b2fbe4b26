-- ===== src/Agent/Launcher/Places.antt =====
-- What each step of the launcher keeps: the process that runs is the one of its place.
use uncluster.Prelude.{String, ◌≡◌, refl, Bool, true, false, Option, none, some, if◌then◌else◌}
use uncluster.Prelude.Exec.{Result, ok, err, World}
use uncluster.Prelude.Exec.Triple.{
  Triple, Outcome, Triple-attempt, Triple-bind, Triple-pure, Triple-if, Triple-recover, Triple-from,
  Triple-weaken,
}
use uncluster.Agent.PayloadStore.{lists, current_version, rollback, quarantine}
use uncluster.Agent.PayloadStore.Ready.{Names, IsReady, rollback-Triple}
use uncluster.Agent.PayloadStore.Frame.{quarantine-keeps, current_version-keeps}
use uncluster.Agent.Host.{
  Host, HostError, io, resolve_failed, rollback_failed, update_failed, on_store, try_call,
  Triple-get, Triple-modify, Triple-on_store,
}
use uncluster.Agent.Launcher.{
  Early, Late, SuperviseOutcome, healthy, unhealthy, shutdown, pending_update, gone, committed,
  missed, ticked, Ending, stopped, failed, Phase, beginning, waiting, steady, returned, launched,
  start_payload, resolve_and_start, begin, halt, exit_outcome, demote_bad_version, context_error,
  after_early, after_steady, stat_pending, consume_pending_update, supervise_until_healthy,
  supervise_steady_state, early_step, late_step, settle,
}

-- The version whose process runs in this place.
abbrev pub child_of : Phase → Option String
child_of beginning = none
child_of (waiting v) = some v
child_of (steady v) = some v
child_of (returned e) = none

-- The process that runs is that of the place, and its binary and the pointers' are staged.
pub record IsSupervised (p : Phase) (h : Host) : Type 0 where
  pub ready : IsReady h.payloads
  pub runs : h.child ≡ child_of p
  pub staged : Names (child_of p) h.payloads.staged

-- No process runs.
abbrev pub Idle : Host → Type 0
Idle h = IsReady h.payloads × (h.child ≡ none)

-- The process of a version runs.
abbrev pub Runs : String → Host → Type 0
Runs v h = IsReady h.payloads × (h.child ≡ some v) × (lists v h.payloads.staged ≡ true)

module _ {P : Host → Type 0} where
  try_call-keeps :
      (f : Host → Host) → ((h : Host) → P h → P (f h)) → Triple P (try_call f) (λ _. P) (λ _ _. ⊥)
  unfolding try_call
  try_call-keeps f k =
      Triple-recover (λ _. P) _ _ (Triple-attempt io _ (λ h p. p) (λ h p. k h p))
        (λ _. Triple-pure tt (λ h p. p))

halt-Idle : (v : String) → Triple (Runs v) halt (λ _. Idle) (λ _. Idle)
unfolding halt
halt-Idle v = Triple-modify _ (λ h p. (p.0, refl))

start_payload-Runs :
    (v : String)
    → Triple
        (λ h. Idle h × (lists v h.payloads.staged ≡ true))
        (start_payload v)
        (λ _. Runs v)
        (λ _. Idle)
unfolding start_payload
start_payload-Runs v =
    Triple-bind (λ _ h. Idle h × (lists v h.payloads.staged ≡ true)) _ _
      (Triple-weaken _ _ (λ _ h p. p) (λ _ h p. absurd p) (try_call-keeps _ (λ h p. p)))
      (λ _. Triple-attempt _ _ (λ h p. p.0) (λ h p. there h p.0 p.1))
  where
    there :
        (h : Host)
        → Idle h
        → (e : lists v h.payloads.staged ≡ true)
        → Outcome
            (λ _. Runs v)
            (λ _. Idle)
            (launched (lists v h.payloads.staged) v h).0
            (launched (lists v h.payloads.staged) v h).1
    there h p e = rw e (p.0, refl, e)

current_version-staged :
    Triple Idle
      (on_store resolve_failed current_version)
      (λ v h. Idle h × (lists v h.payloads.staged ≡ true))
      (λ _. Idle)
current_version-staged = Triple-on_store resolve_failed current_version (λ h p.
    Triple-from (λ s. IsReady s × (h.child ≡ none)) (λ s e. rw e p)
      (Triple-weaken _ _ (λ v s q. (q.1, rw q.0 at q.1.0.0)) (λ _ s q. q)
        (current_version-keeps {P = λ s. IsReady s × (h.child ≡ none)})))

idle : (e : Ending) (h : Host) → Idle h → IsSupervised (returned e) h
idle e h p = record { ready = p.0; runs = p.1; staged = tt }

anew : (h : Host) → Idle h → IsSupervised beginning h
anew h p = record { ready = p.0; runs = p.1; staged = tt }

running : (v : String) (h : Host) → Runs v h → IsSupervised (waiting v) h
running v h p = record { ready = p.0; runs = p.1; staged = p.2 }

goes_on : (v : String) (h : Host) → Runs v h → IsSupervised (steady v) h
goes_on v h p = record { ready = p.0; runs = p.1; staged = p.2 }

-- An error of a step is an error of Run.
abbrev pub Fails : HostError → Host → Type 0
Fails e = IsSupervised (returned (failed e))

pub begin-IsSupervised : Triple Idle begin (λ q. IsSupervised q) Fails
unfolding begin resolve_and_start
begin-IsSupervised =
    Triple-bind (λ _. Idle) _ _ (Triple-get _ (λ h p. p))
      (λ stop.
        Triple-if stop _ _ (λ _. Triple-pure (returned stopped) (λ h p. idle _ h p))
          (λ _.
            Triple-weaken _ (λ _. Idle) (λ _ h q. q) (λ e h q. idle _ h q)
              (Triple-bind _ _ _ current_version-staged (λ v.
                Triple-bind (λ _. Runs v) _ _ (start_payload-Runs v)
                  (λ _. Triple-pure (waiting v) (λ h p. running v h p))))))

demote_bad_version-Idle : (v : String) → Triple Idle (demote_bad_version v) (λ _. Idle) (λ _. Idle)
unfolding demote_bad_version
demote_bad_version-Idle v =
    Triple-bind (λ _. Idle) _ _
      (Triple-recover (λ _. Idle) _ _
        (Triple-on_store update_failed (quarantine v) (λ h p.
          Triple-from (λ s. IsReady s × (h.child ≡ none)) (λ s e. rw e p)
            (quarantine-keeps (λ w s q. q) v)))
        (λ _. Triple-pure tt (λ h p. p)))
      (λ _.
        Triple-bind (λ _. Idle) _ _
          (Triple-on_store rollback_failed rollback (λ h p.
            Triple-from IsReady (λ s e. rw e p.0)
              (Triple-weaken _ _ (λ _ s q. (q, p.1)) (λ _ s q. (q, p.1)) rollback-Triple)))
          (λ _. Triple-pure tt (λ h p. p)))

-- What an outcome of the first select says; it is none of the last two.
abbrev Decided : String → SuperviseOutcome → Host → Type 0
Decided v healthy h = Runs v h
Decided v unhealthy h = Idle h
Decided v shutdown h = Idle h
Decided v pending_update h = ⊥
Decided v gone h = ⊥

-- What an outcome of the second select says; without one the process runs on.
abbrev Watched : String → Option SuperviseOutcome → Host → Type 0
Watched v none h = Runs v h
Watched v (some o) h = Idle h

exited-Decided :
    (v : String) (c s : Bool) (h : Host)
    → Idle h
    → Decided v (if c then shutdown else if s then shutdown else unhealthy) h
exited-Decided v true s h p = p
exited-Decided v false true h p = p
exited-Decided v false false h p = p

supervise_until_healthy-Decided :
    (v : String) (s : Early) → Triple (Runs v) (supervise_until_healthy s) (Decided v) (λ _. Idle)
unfolding supervise_until_healthy
supervise_until_healthy-Decided v Early.interrupted =
    Triple-bind (λ _. Idle) _ _ (halt-Idle v) (λ _. Triple-pure shutdown (λ h p. p))
supervise_until_healthy-Decided v Early.exited =
    Triple-bind (λ _. Idle) _ _ (halt-Idle v)
      (λ _. Triple-get _ (λ h p. exited-Decided v h.cancelled h.stop h p))
supervise_until_healthy-Decided v committed = Triple-pure healthy (λ h p. p)
supervise_until_healthy-Decided v missed =
    Triple-bind (λ _. Runs v) _ _ (Triple-get _ (λ h p. p))
      (λ c.
        Triple-bind (λ _. Idle) _ _ (halt-Idle v)
          (λ _. Triple-pure _ (λ h p. exited-Decided v c false h p)))

context_error-Idle : Triple Idle context_error (λ q. IsSupervised q) Fails
unfolding context_error
context_error-Idle = Triple-get _ (λ h p. idle _ h p)

after_early-IsSupervised :
    (v : String) (o : SuperviseOutcome)
    → Triple (Decided v o) (after_early v o) (λ q. IsSupervised q) Fails
unfolding after_early
after_early-IsSupervised v shutdown = context_error-Idle
after_early-IsSupervised v unhealthy =
    Triple-weaken _ (λ _. Idle) (λ _ h q. q) (λ e h q. idle _ h q)
      (Triple-bind (λ _. Idle) _ _ (demote_bad_version-Idle v)
        (λ _. Triple-pure beginning (λ h p. anew h p)))
after_early-IsSupervised v healthy = Triple-pure (steady v) (λ h p. goes_on v h p)
after_early-IsSupervised v pending_update = Triple-pure (steady v) (λ h p. absurd p)
after_early-IsSupervised v gone = Triple-pure (steady v) (λ h p. absurd p)

consume_pending_update-keeps :
    (watched : Bool) {P : Host → Type 0}
    → ((h : Host) → P h → P (record h { pending = none }))
    → Triple P (consume_pending_update watched) (λ _. P) (λ _ _. ⊥)
unfolding consume_pending_update stat_pending
consume_pending_update-keeps false {P} k = Triple-pure false (λ h p. p)
consume_pending_update-keeps true {P} k =
    Triple-bind (λ _. P) _ _
      (Triple-recover (λ _. P) _ _ (Triple-attempt _ _ (λ h p. p) (λ h p. p))
        (λ _. Triple-pure false (λ h p. p)))
      (λ there.
        Triple-bind (λ _. P) _ _
          (Triple-if there _ _ (λ _. try_call-keeps _ k) (λ _. Triple-pure tt (λ h p. p)))
          (λ _. Triple-pure there (λ h p. p)))

supervise_steady_state-Watched :
    (watched : Bool) (v : String) (s : Late)
    → Triple (Runs v) (supervise_steady_state watched s) (Watched v) (λ _. Idle)
unfolding supervise_steady_state
supervise_steady_state-Watched watched v Late.interrupted =
    Triple-bind (λ _. Idle) _ _ (halt-Idle v) (λ _. Triple-pure (some shutdown) (λ h p. p))
supervise_steady_state-Watched watched v Late.exited =
    Triple-bind (λ _. Idle) _ _ (halt-Idle v)
      (λ _. Triple-get (λ h. some (exit_outcome gone h)) (λ h p. p))
supervise_steady_state-Watched watched v ticked =
    Triple-bind (λ _. Runs v) _ _
      (Triple-weaken _ _ (λ _ h p. p) (λ _ h p. absurd p)
        (consume_pending_update-keeps watched (λ h p. p)))
      (λ there.
        Triple-if there _ _
          (λ _.
            Triple-bind (λ _. Idle) _ _ (halt-Idle v)
              (λ _. Triple-pure (some pending_update) (λ h p. p)))
          (λ _. Triple-pure none (λ h p. p)))

after_steady-IsSupervised :
    (v : String) (o : Option SuperviseOutcome)
    → Triple (Watched v o) (after_steady v o) (λ q. IsSupervised q) Fails
unfolding after_steady
after_steady-IsSupervised v none = Triple-pure (steady v) (λ h p. goes_on v h p)
after_steady-IsSupervised v (some shutdown) = context_error-Idle
after_steady-IsSupervised v (some healthy) = Triple-pure beginning (λ h p. anew h p)
after_steady-IsSupervised v (some unhealthy) = Triple-pure beginning (λ h p. anew h p)
after_steady-IsSupervised v (some pending_update) = Triple-pure beginning (λ h p. anew h p)
after_steady-IsSupervised v (some gone) = Triple-pure beginning (λ h p. anew h p)

pub fails : (e : HostError) (h : Host) → Idle h → Fails e h
fails e h p = idle (failed e) h p

pub early_step-IsSupervised :
    (v : String) (s : Early) → Triple (Runs v) (early_step v s) (λ q. IsSupervised q) Fails
unfolding early_step
early_step-IsSupervised v s =
    Triple-bind (Decided v) _ _
      (Triple-weaken _ _ (λ _ h p. p) fails (supervise_until_healthy-Decided v s))
      (after_early-IsSupervised v)

pub late_step-IsSupervised :
    (watched : Bool) (v : String) (s : Late)
    → Triple (Runs v) (late_step watched v s) (λ q. IsSupervised q) Fails
unfolding late_step
late_step-IsSupervised watched v s =
    Triple-bind (Watched v) _ _
      (Triple-weaken _ _ (λ _ h p. p) fails (supervise_steady_state-Watched watched v s))
      (after_steady-IsSupervised v)

pub settle-IsSupervised :
    (r : Result HostError Phase) (w : World Host)
    → Outcome (λ q. IsSupervised q) Fails r w.state
    → IsSupervised (settle (r, w)).0 (settle (r, w)).1
settle-IsSupervised (ok q) w h = h
settle-IsSupervised (err e) w h = h
