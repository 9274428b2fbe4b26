-- ===== src/Agent/PayloadStore/Ready.antt =====
-- The pointers always name staged binaries, whatever call is refused on the way.
use uncluster.Prelude.{String, ◌≡◌, refl, Bool, true, false, Option, none, some, List}
use uncluster.Prelude.Exec.{ok, pure, recover}
use uncluster.Prelude.Exec.Triple.{
  Triple, Outcome, Triple-attempt, Triple-bind, Triple-pure, Triple-raise, Triple-if,
  Triple-recover,
}
use uncluster.Agent.PayloadStore.{
  Payloads, bad_version, is_quarantined_error, no_previous, call, version_ok, settled, lists,
  valid_version, swap_current, swap_previous, is_quarantined, stat_result, stat, read_current,
  keep_previous, activate, or_raise, rollback,
}

abbrev pub Names : Option String → List String → Type 0
Names none staged = Unit
Names (some v) staged = lists v staged ≡ true

-- Each pointer that is set names a staged binary.
abbrev pub IsReady : Payloads → Type 0
IsReady s = Names s.current s.staged × Names s.previous s.staged

module _ {P : Payloads → Type 0} where
  pub settled-keeps : Triple P settled (λ _. P) (λ _. P)
  settled-keeps = Triple-attempt _ _ (λ s p. p) (λ s p. p)

  pub valid_version-keeps : (v : String) → Triple P (valid_version v) (λ _. P) (λ _. P)
  unfolding valid_version
  valid_version-keeps v =
      Triple-if _ _ _ (λ _. Triple-pure tt (λ s p. p)) (λ _. Triple-raise bad_version (λ s p. p))

  pub is_quarantined-keeps : (v : String) → Triple P (is_quarantined v) (λ _. P) (λ _. P)
  unfolding is_quarantined
  is_quarantined-keeps v =
      Triple-if (version_ok v)
        (recover (λ _. pure false) (call (λ s. (ok (lists v s.quarantined), s)))) (pure false)
        (λ _.
          Triple-recover (λ _. P) _ (call (λ s. (ok (lists v s.quarantined), s)))
            (Triple-attempt _ _ (λ s p. p) (λ s p. p)) (λ _. Triple-pure false (λ s p. p)))
        (λ _. Triple-pure false (λ s p. p))

  pub stat-shows :
      (v : String) → Triple P (stat v) (λ _ s. (lists v s.staged ≡ true) × P s) (λ _. P)
  unfolding stat
  stat-shows v = Triple-attempt _ _ (λ s p. p) (λ s p. shown (lists v s.staged) s refl p)
    where
      shown :
          (b : Bool) (s : Payloads)
          → lists v s.staged ≡ b
          → P s
          → Outcome
              (λ _ s. (lists v s.staged ≡ true) × P s)
              (λ _. P)
              (stat_result b s).0
              (stat_result b s).1
      shown true s e p = (e, p)
      shown false s e p = p

swap_current-Ready :
    (v : String)
    → Triple
        (λ s. (lists v s.staged ≡ true) × IsReady s)
        (swap_current v)
        (λ _. IsReady)
        (λ _. IsReady)
unfolding swap_current
swap_current-Ready v =
    Triple-bind (λ _ s. (lists v s.staged ≡ true) × IsReady s) _ _
      (Triple-attempt _ _ (λ s p. p.1) (λ s p. p))
      (λ _. Triple-attempt _ _ (λ s p. p.1) (λ s p. (p.0, p.1.1)))

keep_previous-Ready :
    (v : String) (o : Option String)
    → Triple
        (λ s. Names o s.staged × ((lists v s.staged ≡ true) × IsReady s))
        (keep_previous o)
        (λ _ s. (lists v s.staged ≡ true) × IsReady s)
        (λ _. IsReady)
unfolding swap_previous
keep_previous-Ready v none = Triple-pure tt (λ s p. p.1)
keep_previous-Ready v (some w) =
    Triple-bind (λ _ s. Names (some w) s.staged × ((lists v s.staged ≡ true) × IsReady s)) _ _
      (Triple-attempt _ _ (λ s p. p.1.1) (λ s p. p))
      (λ _. Triple-attempt _ _ (λ s p. p.1.1) (λ s p. (p.1.0, (p.1.1.0, p.0))))

read_current-Names :
    (v : String)
    → Triple
        (λ s. (lists v s.staged ≡ true) × IsReady s)
        read_current
        (λ o s. Names o s.staged × ((lists v s.staged ≡ true) × IsReady s))
        (λ _. IsReady)
unfolding read_current
read_current-Names v =
    Triple-recover (λ _ s. (lists v s.staged ≡ true) × IsReady s) _ _
      (Triple-attempt _ _ (λ s p. p) (λ s p. (p.1.0, p))) (λ _. Triple-pure none (λ s p. (tt, p)))

pub activate-Triple : (v : String) → Triple IsReady (activate v) (λ _. IsReady) (λ _. IsReady)
unfolding activate
activate-Triple v =
    Triple-bind (λ _. IsReady) _ _ (valid_version-keeps v)
      (λ _.
        Triple-bind (λ _. IsReady) _ _ (is_quarantined-keeps v)
          (λ q.
            Triple-bind (λ _. IsReady) _ _
              (Triple-if q _ _ (λ _. Triple-raise is_quarantined_error (λ s p. p))
                (λ _. Triple-pure tt (λ s p. p)))
              (λ _. Triple-bind _ _ _ (stat-shows v) (λ _.
                Triple-bind _ _ _ (read_current-Names v) (λ o.
                  Triple-bind _ _ _ (keep_previous-Ready v o) (λ _.
                    Triple-bind (λ _. IsReady) _ _ (swap_current-Ready v) (λ _. settled-keeps)))))))

pub rollback-Triple : Triple IsReady rollback (λ _. IsReady) (λ _. IsReady)
unfolding rollback
rollback-Triple =
    Triple-bind (λ o s. Names o s.staged × IsReady s) _ _
      (Triple-attempt _ _ (λ s p. p) (λ s p. (p.1, p)))
      (λ o.
        Triple-bind (λ v s. (lists v s.staged ≡ true) × IsReady s) _ _ (found o)
          (λ v.
            Triple-bind (λ _. IsReady) _ _ (swap_current-Ready v)
              (λ _. Triple-bind (λ _. IsReady) _ _ settled-keeps (λ _. Triple-pure v (λ s p. p)))))
  where
    found :
        (o : Option String)
        → Triple
            (λ s. Names o s.staged × IsReady s)
            (or_raise no_previous o)
            (λ v s. (lists v s.staged ≡ true) × IsReady s)
            (λ _. IsReady)
    found none = Triple-raise no_previous (λ s p. p.1)
    found (some v) = Triple-pure v (λ s p. p)
