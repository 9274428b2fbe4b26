-- ===== src/Agent/Spool.antt =====
-- internal/agent/principalswriter.go, principalswriter_windows.go and policy_apply_windows.go: the
-- Agent hands a policy to the principals writer in a file of the spool directory, and the writer
-- answers in another. The access lists of the files are left out, and the temporary files, which
-- nobody reads; a file is what its reader decodes.
pub mod Rules
pub mod Applied
pub mod Invariant
pub mod Confirmed
pub mod Unconfirmed
pub mod Mistaken
pub mod Removed
use uncluster.Prelude.{
  ℕ, String, Bool, true, false, not, ◌&&◌, ◌==◌, Option, none, some, List, [], ◌∷◌, if◌then◌else◌,
  str_eq, ◌≡◌,
}
use uncluster.Prelude.Exec.{
  Result, ok, err, World, Exec, attempt, pure, raise, recover, ◌>>=◌, ◌>>◌,
}
use uncluster.Store.Db.{PolicyPrincipal}
use uncluster.Server.Heartbeat.{PolicyPayload}
use uncluster.Agent.Dir.{Dir, AgentError}
use uncluster.Agent.Policy.{policy_payload_ok, render_principals_dir}

pub record DesiredState : Type 0 where
  pub version : ℕ
  pub hash : String
  pub principals : List PolicyPrincipal
  pub deprovision : Bool

-- `status` is "ok" or "failed" where the writer has written it.
pub record AppliedStatus : Type 0 where
  pub applied_version : ℕ
  pub applied_hash : String
  pub status : String
  pub error : String

-- encoding/json on the two files, SHA-256 in hexadecimal, and the text of an error.
pub record Codec : Type 0 where
  pub marshal_desired : DesiredState → Option String
  pub unmarshal_desired : String → Option DesiredState
  pub marshal_applied : AppliedStatus → Option String
  pub unmarshal_applied : String → Option AppliedStatus
  pub sum : String → String
  pub text : AgentError → String
  pub parse_text : String

-- What is written is read back.
pub record IsCodec (c : Codec) : Type 0 where
  pub reads_desired :
      (d : DesiredState) (b : String)
      → c.marshal_desired d ≡ some b
      → c.unmarshal_desired b ≡ some d
  pub reads_applied :
      (s : AppliedStatus) (b : String)
      → c.marshal_applied s ≡ some b
      → c.unmarshal_applied b ≡ some s

-- The two files, the directory that the writer renders, and the writer: the digest that it acted on
-- last, whether it runs, and whether its service is registered.
pub record Spool : Type 0 where
  pub policy : Option String
  pub applied : Option String
  pub dir : Dir
  pub last_digest : String
  pub running : Bool
  pub registered : Bool

pub data SpoolError : Type 0 where
  apply_failed : AgentError → SpoolError
  refused unserialised interrupted timed_out writer_failed : SpoolError

abbrev pub OnSpool : Type 0 → Type 0
OnSpool A = Exec SpoolError Spool A

unfoldable pub current : OnSpool Spool
current w = (ok w.state, w)

unfoldable pub modify : (Spool → Spool) → OnSpool (Unit {0})
modify f w = (ok tt, record { state = f w.state; faults = w.faults })

-- A call of the system that changes nothing of the state.
unfoldable pub touch : OnSpool (Unit {0})
touch = attempt refused (λ s. (ok tt, s))

module _ {A : Type 0} where
  abbrev pub on_dir_from :
      Spool → Result AgentError A × World Dir → Result SpoolError A × World Spool
  on_dir_from s (ok a, w) = (ok a, record { state = record s { dir = w.state }; faults = w.faults })
  on_dir_from s (err e, w) =
      (err (apply_failed e), record { state = record s { dir = w.state }; faults = w.faults })

  unfoldable pub on_dir : Exec AgentError Dir A → OnSpool A
  on_dir m w = on_dir_from w.state (m (record { state = w.state.dir; faults = w.faults }))

-- atomicWriteSpoolFile: open, write, sync and close the temporary file, then rename it.
unfoldable pub atomic_write_spool_file : (Spool → Spool) → OnSpool (Unit {0})
unfolding touch
atomic_write_spool_file renamed = do
  touch
  touch
  touch
  touch
  attempt refused (λ s. (ok tt, renamed s))

-- os.ReadFile, with none for an error of any kind.
unfoldable pub read_file : (Spool → Option String) → OnSpool (Option String)
read_file f = recover (λ _. pure none) (attempt refused (λ s. (ok (f s), s)))

abbrev pub desired_state_from_payload : PolicyPayload → DesiredState
desired_state_from_payload p = record {
  version = p.version;
  hash = p.hash;
  principals = p.principals;
  deprovision = false;
}

abbrev pub deprovision_desired_state : DesiredState
deprovision_desired_state = record { version = 0; hash = ""; principals = []; deprovision = true }

unfoldable pub matches_desired : AppliedStatus → DesiredState → Bool
unfolding str_eq
matches_desired s d = s.applied_version == d.version && str_eq s.applied_hash d.hash

abbrev pub requests : Option DesiredState → Bool
requests none = false
requests (some d) = d.deprovision

-- Connect, open the service, delete it; an error is logged alone.
unfoldable pub self_remove : OnSpool (Unit {0})
unfolding touch
self_remove =
    recover (λ _. pure tt)
      (do
        touch
        attempt refused (λ s. if s.registered then (ok tt, s) else (err refused, s))
        attempt refused (λ s. (ok tt, record s { registered = false })))

abbrev pub ticked : Result SpoolError Bool × World Spool → Spool
ticked (ok true, w) = record w.state { running = false }
ticked (_, w) = w.state

abbrev pub if_matching : DesiredState → Option AppliedStatus → Option AppliedStatus
if_matching d none = none
if_matching d (some st) = if matches_desired st d then some st else none

-- A round of pollApplied: what the writer does before its read, and whether the select behind
-- the read takes the cancelled context.
pub record Poll : Type 0 where
  pub writer : List (List Bool)
  pub cancelled : Bool

abbrev pub polled : OnSpool AppliedStatus → Poll → Option AppliedStatus → OnSpool AppliedStatus
polled rest p (some st) = pure st
polled rest p none = if p.cancelled then raise interrupted else rest

module _ (c : Codec) where
  unfoldable pub desired_state_requests_deprovision : String → Bool
  desired_state_requests_deprovision b = requests (c.unmarshal_desired b)

  unfoldable pub should_self_remove_on_apply : String → AppliedStatus → Bool
  unfolding desired_state_requests_deprovision str_eq
  should_self_remove_on_apply b st = str_eq st.status "ok" && desired_state_requests_deprovision b

  abbrev pub failed_status : DesiredState → AgentError → AppliedStatus
  failed_status d e = record {
    applied_version = d.version;
    applied_hash = d.hash;
    status = "failed";
    error = c.text e;
  }

  abbrev pub ok_status : DesiredState → AppliedStatus
  ok_status d = record {
    applied_version = d.version;
    applied_hash = d.hash;
    status = "ok";
    error = "";
  }

  abbrev pub failure : DesiredState → SpoolError → AppliedStatus
  failure d (apply_failed e) = failed_status d e
  failure d _ = failed_status d AgentError.io

  -- validatePolicyPayload, then renderPrincipalsDir, which has it too.
  abbrev pub apply_desired : Option DesiredState → OnSpool AppliedStatus
  apply_desired none =
      pure
        (record { applied_version = 0; applied_hash = ""; status = "failed"; error = c.parse_text })
  apply_desired (some d) =
      if policy_payload_ok d.principals
      then recover (λ e. pure (failure d e))
          (on_dir (render_principals_dir d.principals) >> pure (ok_status d))
      else pure (failed_status d AgentError.invalid)

  unfoldable pub apply_desired_state_bytes : String → OnSpool AppliedStatus
  unfolding policy_payload_ok on_dir render_principals_dir
  apply_desired_state_bytes b = apply_desired (c.unmarshal_desired b)

  abbrev pub write_status : Option String → OnSpool (Unit {0})
  write_status none = pure tt
  write_status (some b) =
      recover (λ _. pure tt) (atomic_write_spool_file (λ s. record s { applied = some b }))

  -- An error is logged alone.
  unfoldable pub write_applied : AppliedStatus → OnSpool (Unit {0})
  unfolding atomic_write_spool_file
  write_applied st = write_status (c.marshal_applied st)

  abbrev pub acted : String → AppliedStatus → OnSpool Bool
  acted b st =
      if str_eq st.status "ok"
      then modify (λ s. record s { last_digest = c.sum b })
        >> (if should_self_remove_on_apply b st then self_remove >> pure true else pure false)
      else pure false

  abbrev pub act : String → OnSpool Bool
  act b = do st ← apply_desired_state_bytes b; write_applied st; acted b st

  abbrev pub tick_on : Option String → OnSpool Bool
  tick_on none = pure false
  tick_on (some b) = do s ← current; if str_eq (c.sum b) s.last_digest then pure false else act b

  unfoldable pub tick : OnSpool Bool
  unfolding read_file current apply_desired_state_bytes write_applied modify self_remove
      should_self_remove_on_apply
  tick = read_file (λ s. s.policy) >>= tick_on

  -- One round of the writer's Run, with the calls that are refused in it.
  unfoldable pub writer_round : List Bool → Spool → Spool
  unfolding tick
  writer_round faults s =
      if s.running then ticked (tick (record { state = s; faults = faults })) else s

  unfoldable pub writer_rounds : List (List Bool) → Spool → Spool
  unfolding writer_round
  writer_rounds [] s = s
  writer_rounds (f ∷ fs) s = writer_rounds fs (writer_round f s)

  abbrev pub decoded : Option String → Option AppliedStatus
  decoded none = none
  decoded (some b) = c.unmarshal_applied b

  unfoldable pub matching : DesiredState → Option String → Option AppliedStatus
  unfolding matches_desired
  matching d file = if_matching d (decoded file)

  -- The rounds until the deadline.
  unfoldable pub poll_applied : DesiredState → List Poll → OnSpool AppliedStatus
  unfolding writer_rounds read_file matching
  poll_applied d [] = raise timed_out
  poll_applied d (p ∷ ps) =
      let rest = poll_applied d ps in
      modify (writer_rounds p.writer)
      >> (read_file (λ s. s.applied) >>= λ file. polled rest p (matching d file))

  abbrev pub handed_over : DesiredState → List Poll → Option String → OnSpool (Unit {0})
  handed_over d ps none = raise unserialised
  handed_over d ps (some b) = do
    atomic_write_spool_file (λ s. record s { policy = some b })
    st ← poll_applied d ps
    if str_eq st.status "ok" then pure tt else raise writer_failed

  unfoldable pub submit_desired_state : DesiredState → List Poll → OnSpool (Unit {0})
  unfolding touch atomic_write_spool_file poll_applied
  submit_desired_state d ps = touch >> handed_over d ps (c.marshal_desired d)

  unfoldable pub do_apply_policy : PolicyPayload → List Poll → OnSpool (Unit {0})
  unfolding policy_payload_ok submit_desired_state
  do_apply_policy p ps =
      if policy_payload_ok p.principals
      then submit_desired_state (desired_state_from_payload p) ps
      else raise (apply_failed AgentError.invalid)

  unfoldable pub wipe_principals : List Poll → OnSpool (Unit {0})
  unfolding submit_desired_state
  wipe_principals ps = recover (λ _. pure tt) (submit_desired_state deprovision_desired_state ps)
