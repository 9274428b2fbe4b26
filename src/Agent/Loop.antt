-- ===== src/Agent/Loop.antt =====
-- internal/agent/agent.go: the heartbeat loop, the worker that applies policies, the fail-closed
-- check and the deprovision, with the status codes of http.go. The order in which the goroutines act
-- is the list of events; what they share is the state. The commands of an answer are not here: each
-- is an answer of Agent/SelfUpdate, which shares no state with the loop.
pub mod Revoked
pub mod FailClosed
pub mod Committed
use uncluster.Prelude.{
  ℕ, zero, suc, ◌+◌, ◌-◌, ◌/◌, String, Bool, true, false, not, ◌&&◌, ◌==◌, leb, Option, none, some,
  List, [], ◌∷◌, if◌then◌else◌, str_eq,
}
use uncluster.Prelude.Signed.{ℤ, pos, ltb_ℤ}
use uncluster.Prelude.Exec.{Result, ok, err, World}
use uncluster.Store.Db.{unix}
use uncluster.Store.Reports.{AgentEndpoint}
use uncluster.Server.Certs.{duration}
use uncluster.Server.Heartbeat.{
  AgentPolicyReport, V2HeartbeatRequest, PolicyPayload, V2HeartbeatResponse,
}
use uncluster.Agent.Dir.{Dir, AgentError}
use uncluster.Agent.Apply.{PolicyState, run_apply_policy}
use uncluster.Agent.Wipe.{wipe_principals}

-- `last_heartbeat_ok` is none before the first success, `queue` the channel of one request, and
-- `commits` counts the calls of onFirstHealthy. Times are in nanoseconds.
pub record Loop : Type 0 where
  pub policy : PolicyState
  pub dir : Dir
  pub fail_closed_after : Option ℤ
  pub last_heartbeat_ok : Option ℕ
  pub queue : Option PolicyPayload
  pub commits : ℕ
  pub deprovisioned : Bool

-- `configured` says that a principals directory is, `hooked` that onFirstHealthy is set.
pub record LoopConfig : Type 0 where
  pub configured : Bool
  pub hooked : Bool

pub data ClientError : Type 0 where
  unauthorized revoked other : ClientError

-- ServerClient.do: a status with what the body decodes to; none is a request that did not get through.
unfoldable pub client_result : {A : Type 0} → Option (ℕ × Option A) → Result ClientError A
client_result none = err other
client_result (some (status, out)) =
    if status == 401
    then err unauthorized
    else if status == 410
    then err revoked
    else if leb 400 status
    then err other
    else elim out [ none ↦ err other | some a ↦ ok a ]

pub record AgentHealthCheck : Type 0 where
  pub component : String
  pub check : String
  pub state : String
  pub error_code : Option String
  pub message : Option String

-- What the health provider does, if there is one.
pub data HealthRun : Type 0 where
  no_provider : HealthRun
  checks : List AgentHealthCheck → HealthRun
  provider_error : String → HealthRun
  panicked : HealthRun

unfoldable pub health_provider_fail_check : String → AgentHealthCheck
health_provider_fail_check msg = record {
  component = "health_provider";
  check = "collect";
  state = "fail";
  error_code = some "provider_failure";
  message = some msg;
}

-- `text` is the error that callHealthProvider makes of a panic.
unfoldable pub collect_health : String → HealthRun → List AgentHealthCheck
unfolding health_provider_fail_check
collect_health text no_provider = []
collect_health text (checks cs) = cs
collect_health text (provider_error msg) = health_provider_fail_check msg ∷ []
collect_health text panicked = health_provider_fail_check text ∷ []

abbrev error_text : (AgentError → String) → Option AgentError → Option String
error_text text none = none
error_text text (some e) = some (text e)

-- The request of a heartbeat: the state of the last apply, where none was as "ok".
unfoldable pub heartbeat_request :
    (AgentError → String) → String → ℕ → List AgentEndpoint → PolicyState → V2HeartbeatRequest
unfolding str_eq unix
heartbeat_request text version now endpoints ps = record {
  agent_version = version;
  observed_at = unix now;
  endpoints = endpoints;
  policy_state = record {
    desired_version = none;
    applied_version = ps.applied_version;
    applied_hash = ps.applied_hash;
    last_apply_status = if str_eq ps.last_apply_status "" then "ok" else ps.last_apply_status;
    last_apply_error = error_text text ps.last_apply_error;
    last_apply_at = ps.last_apply_at;
  };
}

-- A send that does not wait: the channel, and whether it took the request.
abbrev try_send : PolicyPayload → Option PolicyPayload → Option PolicyPayload × Bool
try_send p none = (some p, true)
try_send p (some q) = (some q, false)

-- The send; where the channel is full, the pending request is drained and the send tried again.
unfoldable pub dispatch_policy : PolicyPayload → Option PolicyPayload → Option PolicyPayload
dispatch_policy p c = let (c', sent) = try_send p c in if sent then c' else (try_send p none).0

abbrev dispatched : Option PolicyPayload → Option PolicyPayload → Option PolicyPayload
dispatched none c = c
dispatched (some p) c = dispatch_policy p c

abbrev first_commit : Bool → Option ℕ → ℕ
first_commit true none = 1
first_commit _ _ = 0

-- heartbeatOnceV2 behind an answer.
unfoldable pub heartbeat_answered : LoopConfig → ℕ → V2HeartbeatResponse → Loop → Loop
unfolding dispatch_policy
heartbeat_answered cfg now resp s = record s {
  last_heartbeat_ok = some now;
  fail_closed_after = resp.fail_closed_after;
  commits = s.commits + first_commit cfg.hooked s.last_heartbeat_ok;
  queue = dispatched resp.policy s.queue;
}

abbrev applied : Loop → PolicyState × World Dir → Loop
applied s (ps, w) = record s { policy = ps; dir = w.state }

-- runApplyPolicy on the state that the goroutines share.
unfoldable pub apply_policy : LoopConfig → ℕ → List Bool → PolicyPayload → Loop → Loop
unfolding run_apply_policy unix
apply_policy cfg now faults snap s = applied s (
    run_apply_policy cfg.configured (unix now) snap s.policy
      (record { state = s.dir; faults = faults }))

-- The worker takes the request that is pending.
abbrev pub worked : LoopConfig → ℕ → List Bool → Option PolicyPayload → Loop → Loop
worked cfg now faults none s = s
worked cfg now faults (some p) s = apply_policy cfg now faults p (record s { queue = none })

unfoldable pub work : LoopConfig → ℕ → List Bool → Loop → Loop
unfolding apply_policy
work cfg now faults s = worked cfg now faults s.queue s

abbrev pub empty_policy : PolicyPayload
empty_policy = record { version = 0; hash = ""; principals = [] }

-- time.Since(lastOK) >= time.Duration(*fca)*time.Second, where *fca is positive.
abbrev pub is_due : ℕ → ℤ → ℕ → Bool
is_due now fca last = ltb_ℤ (pos 0) fca && not (ltb_ℤ (pos (now - last)) (duration fca))

abbrev pub closes : ℕ → Option ℤ → Option ℕ → Bool
closes now none last = false
closes now (some fca) none = false
closes now (some fca) (some last) = is_due now fca last

unfoldable pub check_fail_closed : LoopConfig → ℕ → List Bool → Loop → Loop
unfolding apply_policy duration
check_fail_closed cfg now faults s =
    if closes now s.fail_closed_after s.last_heartbeat_ok
    then apply_policy cfg now faults empty_policy s
    else s

-- MkdirAll, then WriteFile, each of which may be refused without a word.
abbrev marker_written : List Bool → Bool → Bool
marker_written (true ∷ fs) b = b
marker_written (false ∷ true ∷ fs) b = b
marker_written (false ∷ []) b = true
marker_written (false ∷ false ∷ fs) b = true
marker_written [] b = true

abbrev marked : Loop → World Dir → Loop
marked s w = record s { dir = w.state; deprovisioned = marker_written w.faults s.deprovisioned }

-- The cleanup hook changes nothing here.
unfoldable pub on_revoked : LoopConfig → List Bool → Loop → Loop
unfolding wipe_principals
on_revoked cfg faults s =
    if cfg.configured
    then marked s (wipe_principals (record { state = s.dir; faults = faults })).1
    else marked s (record { state = s.dir; faults = faults })

-- What the loop's goroutines do next: a heartbeat with the result of the request, the worker, the
-- check of the second ticker, or the end of the context. `faults` are the refused calls.
pub data Event : Type 0 where
  beat : ℕ → List Bool → Result ClientError V2HeartbeatResponse → Event
  apply : ℕ → List Bool → Event
  check : ℕ → List Bool → Event
  cancel : Event

-- What Run returns.
pub data LoopEnd : Type 0 where
  auth_failed agent_deprovisioned cancelled : LoopEnd

abbrev after_beat :
    LoopConfig
    → ℕ
    → List Bool
    → Result ClientError V2HeartbeatResponse
    → Loop
    → Loop × Option LoopEnd
after_beat cfg now faults (ok resp) s = (heartbeat_answered cfg now resp s, none)
after_beat cfg now faults (err unauthorized) s = (s, some auth_failed)
after_beat cfg now faults (err revoked) s = (on_revoked cfg faults s, some agent_deprovisioned)
after_beat cfg now faults (err other) s = (s, none)

unfoldable pub loop_step : LoopConfig → Event → Loop → Loop × Option LoopEnd
unfolding heartbeat_answered on_revoked work check_fail_closed
loop_step cfg (beat now faults r) s = after_beat cfg now faults r s
loop_step cfg (apply now faults) s = (work cfg now faults s, none)
loop_step cfg (check now faults) s = (check_fail_closed cfg now faults s, none)
loop_step cfg cancel s = (s, some cancelled)

-- The events up to the end of the heartbeat loop; then shutdown lets the worker drain the channel.
unfoldable pub agent_run : LoopConfig → ℕ → List Bool → List Event → Loop → Loop × Option LoopEnd
unfolding loop_step work
agent_run cfg now faults [] s = (s, none)
agent_run cfg now faults (e ∷ es) s = elim (loop_step cfg e s).1 [
  | none ↦ agent_run cfg now faults es (loop_step cfg e s).0
  | some x ↦ (work cfg now faults (loop_step cfg e s).0, some x)
]
