-- ===== src/Agent/Spool/Mistaken.antt =====
-- The answer to the wipe of the fail-closed check is taken for the answer to the deprovision.
use uncluster.Prelude.{
  String, ◌≡◌, refl, sym, ap, ◌∙◌, Bool, true, Option, none, some, List, [], ◌∷◌, str_eq, ◌⊎◌, inl,
  inr,
}
use uncluster.Prelude.Exec.{ok, World, attempt, raise}
use uncluster.Prelude.Exec.Triple.{
  Triple, Outcome-ok, Triple-bind, Triple-pure, Triple-raise, Triple-from, Triple-if, Triple-any,
}
use uncluster.Agent.Loop.{empty_policy}
use uncluster.Agent.Dir.{invalid}
use uncluster.Agent.Policy.{policy_payload_ok}
use uncluster.Agent.Spool.{
  DesiredState, AppliedStatus, Codec, Spool, OnSpool, touch, atomic_write_spool_file, modify,
  writer_rounds, read_file, if_matching, decoded, matches_desired, matching, Poll, polled,
  poll_applied, interrupted, timed_out, writer_failed, unserialised, apply_failed, handed_over,
  submit_desired_state, do_apply_policy, desired_state_from_payload, deprovision_desired_state,
}
use uncluster.Agent.Spool.Rules.{Triple-modify, Triple-read, matching-none}

module _ (c : Codec) (d : DesiredState) where
  -- A success that fits stands in the file of the answer.
  abbrev Stands : Spool → Type 0
  Stands s =
      (st : AppliedStatus) × (matching c d s.applied ≡ some st) × (str_eq st.status "ok" ≡ true)

  abbrev Read : AppliedStatus → Spool → Type 0
  Read st s = matching c d s.applied ≡ some st

  polls : (ps : List Poll) → Triple (λ _. Unit) (poll_applied c d ps) Read (λ _ _. Unit)
  unfolding poll_applied
  polls [] = Triple-raise timed_out (λ _ _. tt)
  polls (p ∷ ps) =
      Triple-bind (λ _ _. Unit) _ _ (Triple-modify _ (λ _ _. tt))
        (λ _.
          Triple-bind (λ file s. ((file ≡ none) ⊎ (file ≡ s.applied)) × Unit) _ _
            (Triple-read (λ s. s.applied))
            (λ file. decides (poll_applied c d ps) (polls ps) file (matching c d file) refl))
    where
      fits :
          (file : Option String) (st : AppliedStatus) (s : Spool)
          → matching c d file ≡ some st
          → (file ≡ none) ⊎ (file ≡ s.applied)
          → Read st s
      fits file st s e (inl h) = absurd (matching-none c d st (sym (ap (matching c d) h) ∙ e))
      fits file st s e (inr h) = sym (ap (matching c d) h) ∙ e

      decides :
          (rest : OnSpool AppliedStatus)
          → Triple (λ _. Unit) rest Read (λ _ _. Unit)
          → (file : Option String) (o : Option AppliedStatus) → matching c d file ≡ o
          → Triple
              (λ s. ((file ≡ none) ⊎ (file ≡ s.applied)) × Unit)
              (polled rest p o)
              Read
              (λ _ _. Unit)
      decides rest t file none e =
          Triple-if p.cancelled _ _ (λ _. Triple-raise interrupted (λ _ _. tt))
            (λ _. Triple-from (λ _. Unit) (λ _ _. tt) t)
      decides rest t file (some st) e = Triple-pure st (λ s q. fits file st s e q.0)

  hands_over :
      (ps : List Poll) (o : Option String)
      → Triple (λ _. Unit) (handed_over c d ps o) (λ _. Stands) (λ _ _. Unit)
  hands_over ps none = Triple-raise unserialised (λ _ _. tt)
  hands_over ps (some b) =
      Triple-bind (λ _ _. Unit) _ _ (Triple-any _)
        (λ _. Triple-bind Read _ _ (polls ps) (λ st.
          Triple-if (str_eq st.status "ok") _ _ (λ good. Triple-pure tt (λ s r. (st, r, good)))
            (λ _. Triple-raise writer_failed (λ _ _. tt))))

  submits :
      (ps : List Poll)
      → Triple (λ _. Unit) (submit_desired_state c d ps) (λ _. Stands) (λ _ _. Unit)
  unfolding submit_desired_state
  submits ps =
      Triple-bind (λ _ _. Unit) _ _ (Triple-any _) (λ _. hands_over ps (c.marshal_desired d))

abbrev emptied : DesiredState
emptied = desired_state_from_payload empty_policy

applies :
    (c : Codec) (ps : List Poll)
    → Triple (λ _. Unit) (do_apply_policy c empty_policy ps) (λ _. Stands c emptied) (λ _ _. Unit)
unfolding do_apply_policy
applies c ps =
    Triple-if (policy_payload_ok empty_policy.principals) (submit_desired_state c emptied ps)
      (raise (apply_failed invalid)) (λ _. submits c emptied ps)
      (λ _. Triple-raise (apply_failed invalid) (λ _ _. tt))

-- Only the version and the hash are compared, and both wipes have the same.
same_key :
    (c : Codec) (file : Option String)
    → matching c deprovision_desired_state file ≡ matching c emptied file
unfolding matching matches_desired
same_key c file = keyed (decoded c file)
  where
    keyed :
        (o : Option AppliedStatus) → if_matching deprovision_desired_state o ≡ if_matching emptied o
    keyed none = refl
    keyed (some st) = refl

module _ (c : Codec) (d : DesiredState) (b : String) (coded : c.marshal_desired d ≡ some b) where
  -- An answer of an earlier trip that fits confirms a submission at once: the writer has not run, and
  -- the directory is as it was, where no call is refused.
  submit_desired_state_stale :
      (st : AppliedStatus) (k : Bool) (ps : List Poll) (s : Spool)
      → matching c d s.applied ≡ some st
      → str_eq st.status "ok" ≡ true
      → submit_desired_state c d
          (record { writer = []; cancelled = k } ∷ ps)
          (record { state = s; faults = [] })
        ≡ (ok tt, record { state = record s { policy = some b }; faults = [] })
  unfolding submit_desired_state attempt atomic_write_spool_file touch poll_applied modify
      writer_rounds read_file
  submit_desired_state_stale st k ps s e good = rw (coded) (rw e (rw good refl))

-- Once the wipe of the fail-closed check has been confirmed, whatever calls were refused in it and
-- however its rounds were ordered, a deprovision that follows is confirmed by the answer to that wipe:
-- the writer has not run for it, and the directory, the writer and its service are as they were,
-- where no call of the Agent is refused in the deprovision.
pub submit_desired_state-do_apply_policy :
    (c : Codec) (b : String) (ps qs : List Poll) (k : Bool) (w : World Spool)
    → c.marshal_desired deprovision_desired_state ≡ some b
    → (do_apply_policy c empty_policy ps w).0 ≡ ok tt
    → submit_desired_state c deprovision_desired_state
        (record { writer = []; cancelled = k } ∷ qs)
        (record { state = (do_apply_policy c empty_policy ps w).1.state; faults = [] })
      ≡ (
        ok tt,
        record {
          state = record (do_apply_policy c empty_policy ps w).1.state { policy = some b };
          faults = [];
        },
      )
submit_desired_state-do_apply_policy c b ps qs k w coded done =
    let s = (do_apply_policy c empty_policy ps w).1.state in
    let a = Outcome-ok (λ _. Stands c emptied) (λ _ _. Unit) _ _ tt done ((applies c ps).at w tt) in
    submit_desired_state_stale c deprovision_desired_state b coded a.0 k qs s
      (same_key c s.applied ∙ a.1) a.2
