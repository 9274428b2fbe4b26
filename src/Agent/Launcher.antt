-- ===== src/Agent/Launcher.antt =====
-- internal/agent/launcher.go: the supervisor of the payload, with Start of launcher_exec_unix.go.
-- A `select` is given the signal that it takes.
pub mod Reach
pub mod Places
pub mod Supervised
pub mod Frame
pub mod Recovery
pub mod Stopped
use uncluster.Prelude.{String, Bool, true, false, Option, none, some, if◌then◌else◌}
use uncluster.Prelude.Exec.{Result, ok, err, World, attempt, pure, recover, ◌>>=◌, ◌>>◌}
use uncluster.Agent.PayloadStore.{lists, current_version, rollback, quarantine}
use uncluster.Agent.Host.{
  Host, HostError, resolve_failed, rollback_failed, update_failed, start_failed, io, OnHost, get,
  modify, on_store, try_call,
}

-- The selects of superviseUntilHealthy and of superviseSteadyState.
pub data Early : Type 0 where
  interrupted exited committed missed : Early

pub data Late : Type 0 where
  interrupted exited ticked : Late

pub data SuperviseOutcome : Type 0 where
  healthy unhealthy shutdown pending_update gone : SuperviseOutcome

-- What Run returns: nil, ctx.Err(), or an error.
pub data Ending : Type 0 where
  stopped cancelled_by_context : Ending
  failed : HostError → Ending

-- Where Run stands: at the top of its loop, in one of the two selects, or behind its return.
pub data Phase : Type 0 where
  beginning : Phase
  waiting : String → Phase
  steady : String → Phase
  returned : Ending → Phase

-- cmd.Start; a binary that is not there cannot be started.
abbrev pub launched : Bool → String → Host → Result HostError (Unit {0}) × Host
launched true v h = (ok tt, record h { child = some v })
launched false v h = (err start_failed, h)

-- The stale health marker is cleared, then the process is started.
unfoldable pub start_payload : String → OnHost (Unit {0})
unfolding try_call
start_payload v = do
  try_call (λ h. record h { health = none })
  attempt start_failed (λ h. launched (lists v h.payloads.staged) v h)

unfoldable pub resolve_and_start : OnHost Phase
unfolding start_payload on_store current_version
resolve_and_start = do
  v ← on_store resolve_failed current_version
  start_payload v
  pure (waiting v)

-- The top of the loop of Run.
unfoldable pub begin : OnHost Phase
unfolding get resolve_and_start
begin = do stop ← get (λ h. h.stop); if stop then pure (returned stopped) else resolve_and_start

-- The process has ended: it was stopped and waited for, or it has exited.
unfoldable pub halt : OnHost (Unit {0})
unfolding modify
halt = modify (λ h. record h { child = none })

abbrev exit_outcome : SuperviseOutcome → Host → SuperviseOutcome
exit_outcome o h = if h.cancelled then shutdown else if h.stop then shutdown else o

unfoldable pub supervise_until_healthy : Early → OnHost SuperviseOutcome
unfolding halt get
supervise_until_healthy Early.interrupted = halt >> pure shutdown
supervise_until_healthy Early.exited = halt >> get (exit_outcome unhealthy)
supervise_until_healthy committed = pure healthy
supervise_until_healthy missed = do
  c ← get (λ h. h.cancelled)
  halt
  pure (if c then shutdown else unhealthy)

unfoldable pub demote_bad_version : String → OnHost (Unit {0})
unfolding on_store quarantine rollback
demote_bad_version v = do
  recover (λ _. pure tt) (on_store update_failed (quarantine v))
  on_store rollback_failed rollback
  pure tt

-- `return ctx.Err()`
unfoldable pub context_error : OnHost Phase
unfolding get
context_error = get (λ h. returned (if h.cancelled then cancelled_by_context else stopped))

-- The first switch of Run: what it does not name goes on to the steady state.
unfoldable pub after_early : String → SuperviseOutcome → OnHost Phase
unfolding context_error demote_bad_version
after_early v shutdown = context_error
after_early v unhealthy = demote_bad_version v >> pure beginning
after_early v healthy = pure (steady v)
after_early v pending_update = pure (steady v)
after_early v gone = pure (steady v)

-- The second switch: what it does not name begins anew.
unfoldable pub after_steady : String → Option SuperviseOutcome → OnHost Phase
unfolding context_error
after_steady v none = pure (steady v)
after_steady v (some shutdown) = context_error
after_steady v (some healthy) = pure beginning
after_steady v (some unhealthy) = pure beginning
after_steady v (some pending_update) = pure beginning
after_steady v (some gone) = pure beginning

abbrev is_there : Option String → Bool
is_there none = false
is_there (some v) = true

-- os.Stat of the marker, where an error reads as no marker
unfoldable pub stat_pending : OnHost Bool
stat_pending = recover (λ _. pure false) (attempt io (λ h. (ok (is_there h.pending), h)))

-- `watched` says that a path of the marker is configured.
unfoldable pub consume_pending_update : Bool → OnHost Bool
unfolding stat_pending try_call
consume_pending_update false = pure false
consume_pending_update true = do
  there ← stat_pending
  if there then try_call (λ h. record h { pending = none }) else pure tt
  pure there

-- One round of the loop of superviseSteadyState; none goes on with the loop.
unfoldable pub supervise_steady_state : Bool → Late → OnHost (Option SuperviseOutcome)
unfolding halt get consume_pending_update
supervise_steady_state watched Late.interrupted = halt >> pure (some shutdown)
supervise_steady_state watched Late.exited = halt >> get (λ h. some (exit_outcome gone h))
supervise_steady_state watched ticked = do
  there ← consume_pending_update watched
  if there then halt >> pure (some pending_update) else pure none

abbrev pub settle : Result HostError Phase × World Host → Phase × Host
settle (ok p, w) = (p, w.state)
settle (err e, w) = (returned (failed e), w.state)

-- One step of Run from its place, with the calls that the system refuses in it.
unfoldable pub early_step : String → Early → OnHost Phase
unfolding supervise_until_healthy after_early
early_step v s = supervise_until_healthy s >>= after_early v

unfoldable pub late_step : Bool → String → Late → OnHost Phase
unfolding supervise_steady_state after_steady
late_step watched v s = supervise_steady_state watched s >>= after_steady v
