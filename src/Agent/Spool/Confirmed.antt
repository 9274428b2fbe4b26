-- ===== src/Agent/Spool/Confirmed.antt =====
-- The answer of the principals writer, as the Agent waits for it.
use uncluster.Prelude.{
  String, ◌≡◌, refl, sym, ap, ◌∙◌, true, false, ◌&&◌, Option, none, some, List, [], ◌∷◌, str_eq,
  ◌⊎◌, inl, inr,
}
use uncluster.Prelude.Exec.{ok, World}
use uncluster.Prelude.Exec.Triple.{
  Triple, Outcome-ok, Triple-bind, Triple-pure, Triple-raise, Triple-weaken, Triple-from, Triple-if,
}
use uncluster.Store.Acl.Snapshot.{allows, has_user, Once}
use uncluster.Agent.Policy.Rendered.{lets_in, has_tmp}
use uncluster.Agent.Spool.{
  DesiredState, AppliedStatus, Codec, IsCodec, Spool, OnSpool, matching, Poll, polled, poll_applied,
  handed_over, submit_desired_state, timed_out, writer_failed,
}
use uncluster.Agent.Spool.Rules.{
  Triple-modify, Triple-touch, Triple-write, Triple-read, matching-none,
}
use uncluster.Agent.Spool.Invariant.{Inv, rounds-Inv}

module _ (c : Codec) (law : IsCodec c) (d : DesiredState) (u x : String)
    (grouped : Once d.principals)
    (free : (has_user u d.principals && has_tmp u d.principals) ≡ false) where
  module _ (b : String) (coded : c.marshal_desired d ≡ some b) where
    abbrev Kept : Spool → Type 0
    Kept = Inv c law d b coded u x grouped free

    abbrev Answered : AppliedStatus → Spool → Type 0
    Answered st s = str_eq st.status "ok" ≡ true → lets_in s.dir u x ≡ allows d.principals u x

    answers :
        (rest : OnSpool AppliedStatus) (p : Poll) (file : Option String)
        → Triple Kept rest Answered (λ _ _. Unit)
        → Triple
            (λ s. ((file ≡ none) ⊎ (file ≡ s.applied)) × Kept s)
            (polled rest p (matching c d file))
            Answered
            (λ _ _. Unit)
    answers rest p file t = decided (matching c d file) refl
      where
        said :
            (st : AppliedStatus) (s : Spool)
            → matching c d file ≡ some st
            → (file ≡ none) ⊎ (file ≡ s.applied)
            → Kept s
            → Answered st s
        said st s e (inl h) k good = absurd (matching-none c d st (sym (ap (matching c d) h) ∙ e))
        said st s e (inr h) k good = (k.1 st (sym (ap (matching c d) h) ∙ e) good).0

        decided :
            (o : Option AppliedStatus)
            → matching c d file ≡ o
            → Triple
                (λ s. ((file ≡ none) ⊎ (file ≡ s.applied)) × Kept s)
                (polled rest p o)
                Answered
                (λ _ _. Unit)
        decided none e =
            Triple-if p.cancelled _ _ (λ _. Triple-raise _ (λ _ _. tt))
              (λ _. Triple-from Kept (λ s q. q.1) t)
        decided (some st) e = Triple-pure st (λ s q. said st s e q.0 q.1)

    polls : (ps : List Poll) → Triple Kept (poll_applied c d ps) Answered (λ _ _. Unit)
    unfolding poll_applied
    polls [] = Triple-raise timed_out (λ _ _. tt)
    polls (p ∷ ps) =
        Triple-bind (λ _. Kept) _ _
          (Triple-modify _ (λ s k. rounds-Inv c law d b coded u x grouped free p.writer s k))
          (λ _.
            Triple-bind (λ file s. ((file ≡ none) ⊎ (file ≡ s.applied)) × Kept s) _ _
              (Triple-read (λ s. s.applied))
              (λ file. answers (poll_applied c d ps) p file (polls ps)))

  abbrev Unanswered : Spool → Type 0
  Unanswered s =
      (st : AppliedStatus) → matching c d s.applied ≡ some st → str_eq st.status "ok" ≡ false

  hands_over :
      (ps : List Poll) (o : Option String)
      → c.marshal_desired d ≡ o
      → Triple Unanswered
          (handed_over c d ps o)
          (λ _ s. lets_in s.dir u x ≡ allows d.principals u x)
          (λ _ _. Unit)
  hands_over ps none e = Triple-raise _ (λ _ _. tt)
  hands_over ps (some b) e =
      Triple-bind (λ _. Kept b e) _ _
        (Triple-weaken (λ _. Kept b e) (λ _. Unanswered) (λ _ _ q. q) (λ _ _ _. tt)
          (Triple-write _ (λ s q. (refl, (λ st h k. absurd (differ (sym (q st h) ∙ k)))))))
        (λ _. Triple-bind (Answered b e) _ _ (polls b e ps) (λ st.
          Triple-if (str_eq st.status "ok") _ _ (λ good. Triple-pure tt (λ s q. q good))
            (λ _. Triple-raise writer_failed (λ _ _. tt))))
    where
      differ : false ≡ true → ⊥
      differ h = cc

  submits :
      (ps : List Poll)
      → Triple Unanswered
          (submit_desired_state c d ps)
          (λ _ s. lets_in s.dir u x ≡ allows d.principals u x)
          (λ _ _. Unit)
  unfolding submit_desired_state
  submits ps =
      Triple-bind (λ _. Unanswered) _ _
        (Triple-weaken (λ _. Unanswered) (λ _. Unanswered) (λ _ _ q. q) (λ _ _ _. tt) Triple-touch)
        (λ _. hands_over ps (c.marshal_desired d) refl)

  -- A submitted desired state that the Agent takes for applied has been rendered: the directory lets
  -- in exactly its pairs, whatever calls the system refuses to the two services, and however their
  -- rounds are ordered. When it is submitted, the answer's file must not hold a success that fits; each
  -- user stands once in the policy, and the user in question is not called like the temporary file of
  -- another.
  pub submit_desired_state_confirmed :
      (ps : List Poll) (w : World Spool)
      → ((st : AppliedStatus)
          → matching c d w.state.applied ≡ some st
          → str_eq st.status "ok" ≡ false)
      → (submit_desired_state c d ps w).0 ≡ ok tt
      → lets_in (submit_desired_state c d ps w).1.state.dir u x ≡ allows d.principals u x
  submit_desired_state_confirmed ps w old done =
      Outcome-ok (λ _ s. lets_in s.dir u x ≡ allows d.principals u x) (λ _ _. Unit) _ _ tt done
        ((submits ps).at w old)
