-- ===== src/Validate/Reboot/TwoPhase.antt =====
-- The two phases: what is armed before a reboot, and which invocation reboots.
use uncluster.Prelude.{
  ℕ, ◌+◌, String, ◌≡◌, refl, sym, ap, ◌⊎◌, inl, inr, true, false, Option, none, some,
}
use uncluster.Prelude.Exec.{World}
use uncluster.Prelude.Exec.Triple.{
  Triple, Outcome, Triple-attempt, Triple-bind, Triple-pure, Triple-raise, Triple-recover,
  Triple-if, Triple-given, Triple-from, Outcome-either,
}
use uncluster.Validate.Reboot.{
  RebootState, armed, Stored, absent, corrupt, stored, Machine, RebootSurvival, save_reboot_state,
  loaded, load_reboot_state, clear_reboot_state, arm, resumed, resume, in_phase, resume_or_arm,
}

module _ (r : RebootSurvival) (now : ℕ) (run_id evidence : String) where
  abbrev pub arming : RebootState
  arming = record {
    run_id = run_id;
    phase = armed;
    target = r.target;
    armed_at = now;
    evidence = evidence;
  }

  abbrev pub Armed : ℕ → Machine → Type 0
  Armed n m = (r.allow_reboot ≡ true) × (m.reboots ≡ n + 1) × (m.file ≡ stored arming)

  clears :
      (n : ℕ)
      → Triple (λ m. m.reboots ≡ n) clear_reboot_state (λ _ m. m.reboots ≡ n) (λ _ m. m.reboots ≡ n)
  unfolding clear_reboot_state
  clears n = Triple-attempt _ _ (λ _ p. p) (λ _ p. p)

  saves :
      (n : ℕ)
      → Triple
          (λ m. m.reboots ≡ n)
          (save_reboot_state arming)
          (λ _ m. (m.reboots ≡ n) × (m.file ≡ stored arming))
          (λ _ m. m.reboots ≡ n)
  unfolding save_reboot_state
  saves n =
      Triple-bind (λ _ m. m.reboots ≡ n) _ _ (Triple-attempt _ _ (λ _ p. p) (λ _ p. p))
        (λ _.
          Triple-bind (λ _ m. m.reboots ≡ n) _ _ (Triple-attempt _ _ (λ _ p. p) (λ _ p. p))
            (λ _. Triple-attempt _ _ (λ _ p. p) (λ _ p. (p, refl))))

  arms :
      (n : ℕ)
      → Triple
          (λ m. m.reboots ≡ n)
          (arm r now run_id evidence)
          (λ _. Armed n)
          (λ _ m. m.reboots ≡ n)
  unfolding arm
  arms n =
      Triple-if r.allow_reboot _ _
        (λ allowed.
          Triple-bind (λ _ m. m.reboots ≡ n) _ _ (Triple-attempt _ _ (λ _ p. p) (λ _ p. p))
            (λ _.
              Triple-bind (λ _ m. (m.reboots ≡ n) × (m.file ≡ stored arming)) _ _ (saves n)
                (λ _.
                  Triple-recover (λ _ m. m.reboots ≡ n) _ _
                    (Triple-attempt _ _ (λ _ p. p.0) (λ m p. (allowed, rw (p.0) refl, p.1)))
                    (λ e.
                      Triple-bind (λ _ m. m.reboots ≡ n) _ _
                        (Triple-recover (λ _ m. m.reboots ≡ n) _ _ (clears n)
                          (λ _. Triple-pure tt (λ _ p. p)))
                        (λ _. Triple-raise e (λ _ p. p))))))
        (λ _. Triple-raise _ (λ _ p. p))

  -- Whatever calls are refused: arming triggers one reboot, with the authorization and with the
  -- armed state in the file, or answers an error and triggers none.
  pub arm_reboots :
      (w : World Machine)
      → Outcome
          (λ _. Armed w.state.reboots)
          (λ _ m. m.reboots ≡ w.state.reboots)
          (arm r now run_id evidence w).0
          (arm r now run_id evidence w).1.state
  arm_reboots w = (arms w.state.reboots).at w refl

  abbrev Rebooted : Machine → Machine → Type 0
  Rebooted old m = (m.reboots ≡ old.reboots) ⊎ ((old.file ≡ absent) × Armed old.reboots m)

  module _ (old : Machine) where
    abbrev Unmoved : Machine → Type 0
    Unmoved m = m.reboots ≡ old.reboots

    loads :
        Triple
          (λ m. m ≡ old)
          load_reboot_state
          (λ o m. (o ≡ none → old.file ≡ absent) × Unmoved m)
          (λ _. Unmoved)
    unfolding load_reboot_state
    loads =
        Triple-attempt _ _ (λ m e. ap (λ x. x.reboots) e)
          (λ m e. read m.file m (ap (λ x. x.file) (sym e)) (ap (λ x. x.reboots) e))
      where
        read :
            (f : Stored) (m : Machine)
            → old.file ≡ f
            → Unmoved m
            → Outcome
                (λ o m. (o ≡ none → old.file ≡ absent) × Unmoved m)
                (λ _. Unmoved)
                (loaded f)
                m
        read absent m e u = ((λ _. e), u)
        read corrupt m e u = u
        read (stored st) m e u = ((λ h. cc), u)

    resumes : Triple Unmoved (resume r) (λ _. Unmoved) (λ _. Unmoved)
    unfolding resume load_reboot_state
    resumes =
        Triple-bind (λ _. Unmoved) _ _ (Triple-attempt _ _ (λ _ u. u) (λ m u. read m.file m u))
          behind
      where
        read :
            (f : Stored) (m : Machine)
            → Unmoved m
            → Outcome (λ _. Unmoved) (λ _. Unmoved) (loaded f) m
        read absent m u = u
        read corrupt m u = u
        read (stored st) m u = u

        behind :
            (o : Option RebootState) → Triple Unmoved (resumed r o) (λ _. Unmoved) (λ _. Unmoved)
        behind none = Triple-pure none (λ _ u. u)
        behind (some st) =
            Triple-bind (λ _. Unmoved) _ _ (clears old.reboots) (λ _. Triple-pure _ (λ _ u. u))

    phases :
        (o : Option RebootState)
        → Triple
            (λ m. (o ≡ none → old.file ≡ absent) × Unmoved m)
            (in_phase r now run_id evidence o)
            (λ _. Rebooted old)
            (λ _. Unmoved)
    phases none =
        Triple-given (old.file ≡ absent) Unmoved (λ m p. (p.0 refl, p.1))
          (λ nothing.
            Triple-bind (λ _. Armed old.reboots) _ _ (arms old.reboots)
              (λ _. Triple-pure true (λ m a. inr (nothing, a))))
    phases (some st) =
        Triple-from Unmoved (λ m p. p.1)
          (Triple-bind (λ _. Unmoved) _ _ resumes (λ v. Triple-pure _ (λ m u. inl u)))

    invokes :
        Triple
          (λ m. m ≡ old)
          (resume_or_arm r now run_id evidence)
          (λ _. Rebooted old)
          (λ _. Rebooted old)
    unfolding resume_or_arm
    invokes =
        Triple-recover (λ _. Unmoved) _ _
          (Triple-bind (λ o m. (o ≡ none → old.file ≡ absent) × Unmoved m) _ _ loads phases)
          (λ _. Triple-pure false (λ m u. inl u))

  -- Whatever calls are refused: an invocation triggers no reboot, or it triggers one, with the
  -- authorization, where nothing had been armed before and with the armed state in the file. So an
  -- armed run is never rebooted again, and without the authorization no invocation reboots.
  pub resume_or_arm_reboots :
      (w : World Machine) → Rebooted w.state (resume_or_arm r now run_id evidence w).1.state
  resume_or_arm_reboots w = Outcome-either (Rebooted w.state) _ _ ((invokes w.state).at w refl)
