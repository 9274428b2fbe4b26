-- ===== src/Agent/Launcher/Frame.antt =====
-- What a round of the launcher leaves alone.
use uncluster.Prelude.{String, Bool, true, false, Option, none, some, if◌then◌else◌}
use uncluster.Prelude.Exec.{Result, ok, err, World}
use uncluster.Prelude.Exec.Triple.{
  Triple, Outcome, Triple-attempt, Triple-bind, Triple-pure, Triple-if, Triple-recover,
  Outcome-both,
}
use uncluster.Agent.PayloadStore.{Payloads, PayloadError, Payload, quarantine, rollback}
use uncluster.Agent.Host.{
  Host, HostError, io, rollback_failed, update_failed, on_store, try_call, Triple-get,
  Triple-modify, Triple-on_store,
}
use uncluster.Agent.Launcher.{
  Early, Late, SuperviseOutcome, healthy, unhealthy, shutdown, pending_update, gone, committed,
  missed, ticked, Phase, beginning, steady, halt, exit_outcome, supervise_until_healthy,
  demote_bad_version, context_error, after_early, after_steady, stat_pending,
  consume_pending_update, supervise_steady_state, settle, early_step, late_step,
}

-- A condition that the end of a process, the clearing of the pending marker and any change of the
-- payload store keep holds behind every round of the selects.
module _ {P : Host → Type 0} (halts : (h : Host) → P h → P (record h { child = none }))
    (clears : (h : Host) → P h → P (record h { pending = none }))
    (stores : (h : Host) (s : Payloads) → P h → P (record h { payloads = s })) where
  halt-keeps : Triple P halt (λ _. P) (λ _. P)
  unfolding halt
  halt-keeps = Triple-modify _ halts

  on_store-keeps :
      {A : Type 0} (f : PayloadError → HostError) (m : Payload A)
      → Triple P (on_store f m) (λ _. P) (λ _. P)
  on_store-keeps f m = Triple-on_store f m (λ h p. record {
    at = λ w e. Outcome-both (λ s. P (record h { payloads = s })) (λ s. stores h s p) _ _;
  })

  supervise_until_healthy-keeps :
      (s : Early) → Triple P (supervise_until_healthy s) (λ _. P) (λ _. P)
  unfolding supervise_until_healthy
  supervise_until_healthy-keeps Early.interrupted =
      Triple-bind (λ _. P) _ _ halt-keeps (λ _. Triple-pure shutdown (λ h p. p))
  supervise_until_healthy-keeps Early.exited =
      Triple-bind (λ _. P) _ _ halt-keeps (λ _. Triple-get (exit_outcome unhealthy) (λ h p. p))
  supervise_until_healthy-keeps committed = Triple-pure healthy (λ h p. p)
  supervise_until_healthy-keeps missed =
      Triple-bind (λ _. P) _ _ (Triple-get (λ h. h.cancelled) (λ h p. p))
        (λ c.
          Triple-bind (λ _. P) _ _ halt-keeps
            (λ _. Triple-pure (if c then shutdown else unhealthy) (λ h p. p)))

  context_error-keeps : Triple P context_error (λ _. P) (λ _. P)
  unfolding context_error
  context_error-keeps = Triple-get _ (λ h p. p)

  after_early-keeps :
      (v : String) (o : SuperviseOutcome) → Triple P (after_early v o) (λ _. P) (λ _. P)
  unfolding after_early demote_bad_version
  after_early-keeps v shutdown = context_error-keeps
  after_early-keeps v unhealthy =
      Triple-bind (λ _. P) _ _
        (Triple-bind (λ _. P) _ _
          (Triple-recover (λ _. P) _ _ (on_store-keeps update_failed (quarantine v))
            (λ _. Triple-pure tt (λ h p. p)))
          (λ _.
            Triple-bind (λ _. P) _ _ (on_store-keeps rollback_failed rollback)
              (λ _. Triple-pure tt (λ h p. p))))
        (λ _. Triple-pure beginning (λ h p. p))
  after_early-keeps v healthy = Triple-pure (steady v) (λ h p. p)
  after_early-keeps v pending_update = Triple-pure (steady v) (λ h p. p)
  after_early-keeps v gone = Triple-pure (steady v) (λ h p. p)

  pub early_step-keeps : (v : String) (s : Early) → Triple P (early_step v s) (λ _. P) (λ _. P)
  unfolding early_step
  early_step-keeps v s =
      Triple-bind (λ _. P) _ _ (supervise_until_healthy-keeps s) (after_early-keeps v)

  try_clear-keeps : Triple P (try_call (λ h. record h { pending = none })) (λ _. P) (λ _. P)
  unfolding try_call
  try_clear-keeps =
      Triple-recover (λ _. P) _ _ (Triple-attempt io _ (λ h p. p) clears)
        (λ _. Triple-pure tt (λ h p. p))

  consume_pending_update-keeps :
      (watched : Bool) → Triple P (consume_pending_update watched) (λ _. P) (λ _. P)
  unfolding consume_pending_update stat_pending
  consume_pending_update-keeps false = Triple-pure false (λ h p. p)
  consume_pending_update-keeps true =
      Triple-bind (λ _. P) _ _
        (Triple-recover (λ _. P) _ _ (Triple-attempt _ _ (λ h p. p) (λ h p. p))
          (λ _. Triple-pure false (λ h p. p)))
        (λ there.
          Triple-bind (λ _. P) _ _
            (Triple-if there _ _ (λ _. try_clear-keeps) (λ _. Triple-pure tt (λ h p. p)))
            (λ _. Triple-pure there (λ h p. p)))

  supervise_steady_state-keeps :
      (watched : Bool) (s : Late) → Triple P (supervise_steady_state watched s) (λ _. P) (λ _. P)
  unfolding supervise_steady_state
  supervise_steady_state-keeps watched Late.interrupted =
      Triple-bind (λ _. P) _ _ halt-keeps (λ _. Triple-pure (some shutdown) (λ h p. p))
  supervise_steady_state-keeps watched Late.exited =
      Triple-bind (λ _. P) _ _ halt-keeps
        (λ _. Triple-get (λ h. some (exit_outcome gone h)) (λ h p. p))
  supervise_steady_state-keeps watched ticked =
      Triple-bind (λ _. P) _ _ (consume_pending_update-keeps watched)
        (λ there.
          Triple-if there _ _
            (λ _.
              Triple-bind (λ _. P) _ _ halt-keeps
                (λ _. Triple-pure (some pending_update) (λ h p. p)))
            (λ _. Triple-pure none (λ h p. p)))

  after_steady-keeps :
      (v : String) (o : Option SuperviseOutcome) → Triple P (after_steady v o) (λ _. P) (λ _. P)
  unfolding after_steady
  after_steady-keeps v none = Triple-pure (steady v) (λ h p. p)
  after_steady-keeps v (some shutdown) = context_error-keeps
  after_steady-keeps v (some healthy) = Triple-pure beginning (λ h p. p)
  after_steady-keeps v (some unhealthy) = Triple-pure beginning (λ h p. p)
  after_steady-keeps v (some pending_update) = Triple-pure beginning (λ h p. p)
  after_steady-keeps v (some gone) = Triple-pure beginning (λ h p. p)

  pub late_step-keeps :
      (watched : Bool) (v : String) (s : Late) → Triple P (late_step watched v s) (λ _. P) (λ _. P)
  unfolding late_step
  late_step-keeps watched v s =
      Triple-bind (λ _. P) _ _ (supervise_steady_state-keeps watched s) (after_steady-keeps v)

module _ (P : Host → Type 0) where
  pub settle-keeps :
      (r : Result HostError Phase) (w : World Host)
      → Outcome (λ _. P) (λ _. P) r w.state
      → P (settle (r, w)).1
  settle-keeps (ok q) w h = h
  settle-keeps (err e) w h = h
