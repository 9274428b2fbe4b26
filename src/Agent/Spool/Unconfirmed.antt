-- ===== src/Agent/Spool/Unconfirmed.antt =====
-- The answer of the principals writer: where it is not the one that the Agent waits for.
use uncluster.Prelude.{
  String, ◌≡◌, refl, sym, ap, ◌∙◌, true, false, Option, none, some, List, [], ◌∷◌, str_eq,
  str_eq_iff, ◌⊎◌, inl, inr,
}
use uncluster.Prelude.Exec.{Result, ok, err, World}
use uncluster.Prelude.Exec.Triple.{
  Triple, Outcome, Triple-bind, Triple-pure, Triple-raise, Triple-from, Triple-if,
}
use uncluster.Agent.Spool.{
  DesiredState, AppliedStatus, Codec, Spool, SpoolError, OnSpool, matching, tick_on, Poll, polled,
  poll_applied, handed_over, submit_desired_state, interrupted, timed_out,
}
use uncluster.Agent.Spool.Rules.{
  Triple-current, Triple-modify, Triple-touch, Triple-write, Triple-read, Triple-tick, rounds_keep,
  matching-none,
}

module _ (c : Codec) (d : DesiredState) (b : String) (coded : c.marshal_desired d ≡ some b) where
  -- The writer has acted on the file of the policy, and its answer does not fit.
  abbrev pub Lost : Spool → Type 0
  Lost s = (s.policy ≡ some b) × (s.last_digest ≡ c.sum b) × (matching c d s.applied ≡ none)

  ticks_on : Triple Lost (tick_on c (some b)) (λ _. Lost) (λ _ _. ⊥)
  ticks_on =
      Triple-bind (λ t s. (t ≡ s) × Lost s) _ _ Triple-current
        (λ t.
          Triple-if (str_eq (c.sum b) t.last_digest) _ _ (λ _. Triple-pure false (λ _ p. p.1))
            (λ other.
              Triple-from (λ _. ⊥) (λ s p. seen t s other p.0 p.1) record { at = λ w h. absurd h }))
    where
      differ : false ≡ true → ⊥
      differ h = cc

      seen : (t s : Spool) → str_eq (c.sum b) t.last_digest ≡ false → t ≡ s → Lost s → ⊥
      seen t s other same p = differ (
          sym other
          ∙ (str_eq_iff (c.sum b) t.last_digest).1 (sym (ap (λ y. y.last_digest) same ∙ p.1)))

  polls : (ps : List Poll) → Triple Lost (poll_applied c d ps) (λ _ _. ⊥) (λ _. Lost)
  unfolding poll_applied
  polls [] = Triple-raise timed_out (λ _ p. p)
  polls (p ∷ ps) =
      Triple-bind (λ _. Lost) _ _
        (Triple-modify _ (λ s k.
          rounds_keep c (Triple-tick c b (λ _ q. q.0) (λ _ q. q) ticks_on) (λ _ q. q) p.writer s k))
        (λ _.
          Triple-bind (λ file s. ((file ≡ none) ⊎ (file ≡ s.applied)) × Lost s) _ _
            (Triple-read (λ s. s.applied))
            (λ file. decided (poll_applied c d ps) (polls ps) file (matching c d file) refl))
    where
      none_some : (o : Option AppliedStatus) (st : AppliedStatus) → o ≡ none → o ≡ some st → ⊥
      none_some o st g h = cc

      silent :
          (file : Option String) (st : AppliedStatus) (s : Spool)
          → matching c d file ≡ some st
          → (file ≡ none) ⊎ (file ≡ s.applied)
          → Lost s
          → ⊥
      silent file st s e (inl h) k = matching-none c d st (sym (ap (matching c d) h) ∙ e)
      silent file st s e (inr h) k =
          none_some (matching c d s.applied) st k.2 (sym (ap (matching c d) h) ∙ e)

      decided :
          (rest : OnSpool AppliedStatus)
          → Triple Lost rest (λ _ _. ⊥) (λ _. Lost)
          → (file : Option String) (o : Option AppliedStatus) → matching c d file ≡ o
          → Triple
              (λ s. ((file ≡ none) ⊎ (file ≡ s.applied)) × Lost s)
              (polled rest p o)
              (λ _ _. ⊥)
              (λ _. Lost)
      decided rest t file none e =
          Triple-if p.cancelled _ _ (λ _. Triple-raise interrupted (λ _ q. q.1))
            (λ _. Triple-from Lost (λ s q. q.1) t)
      decided rest t file (some st) e = Triple-pure st (λ s q. silent file st s e q.0 q.1)

  hands_over :
      (o : Option String) (ps : List Poll)
      → o ≡ some b
      → Triple Lost (handed_over c d ps o) (λ _ _. ⊥) (λ _. Lost)
  hands_over none ps e = Triple-raise _ (λ _ p. p)
  hands_over (some y) ps e =
      Triple-bind (λ _. Lost) _ _ (Triple-write _ (λ s p. (e, p.1, p.2)))
        (λ _. Triple-bind (λ _ _. ⊥) _ _ (polls ps) (λ st. record { at = λ w h. absurd h }))

  submits : (ps : List Poll) → Triple Lost (submit_desired_state c d ps) (λ _ _. ⊥) (λ _. Lost)
  unfolding submit_desired_state
  submits ps =
      Triple-bind (λ _. Lost) _ _ Triple-touch (λ _. hands_over (c.marshal_desired d) ps coded)

  -- Once the writer has acted on a policy and its answer is lost, no submission of that policy
  -- is confirmed, however long the Agent waits, and the spool stays in that state.
  pub submit_desired_state-Lost :
      (ps : List Poll) (w : World Spool)
      → Lost w.state
      → ((e : SpoolError) × ((submit_desired_state c d ps w).0 ≡ err e))
        × Lost (submit_desired_state c d ps w).1.state
  submit_desired_state-Lost ps w p = failed _ _ ((submits ps).at w p)
    where
      failed :
          (r : Result SpoolError (Unit {0})) (s : Spool)
          → Outcome (λ _ _. ⊥) (λ _. Lost) r s
          → ((e : SpoolError) × (r ≡ err e)) × Lost s
      failed (ok a) s h = absurd h
      failed (err e) s h = ((e, refl), h)
