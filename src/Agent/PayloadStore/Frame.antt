-- ===== src/Agent/PayloadStore/Frame.antt =====
-- What the operations of the payload store leave alone: a condition that each of their writes keeps
-- holds behind them, whatever call is refused.
use uncluster.Prelude.{String, Option, none, some, ◌∷◌, ◌≡◌, refl}
use uncluster.Prelude.Exec.{Exec, ◌>>=◌}
use uncluster.Prelude.Exec.Triple.{
  Triple, Triple-attempt, Triple-bind, Triple-pure, Triple-raise, Triple-if, Triple-recover,
}
use uncluster.Agent.PayloadStore.{
  Payloads, PayloadError, settled, is_quarantined_error, no_current, no_previous, put_staged, stage,
  swap_current, swap_previous, read_current, keep_previous, activate, or_raise, current_version,
  rollback, quarantine,
}
use uncluster.Agent.PayloadStore.Ready.{
  settled-keeps, valid_version-keeps, is_quarantined-keeps, stat-shows,
}

module _ {P : Payloads → Type 0} where
  pub quarantine-keeps :
      ((v : String) (s : Payloads) → P s → P (record s { quarantined = v ∷ s.quarantined }))
      → (v : String) → Triple P (quarantine v) (λ _. P) (λ _. P)
  unfolding quarantine
  quarantine-keeps h v =
      Triple-bind (λ _. P) _ _ (valid_version-keeps v)
        (λ _.
          Triple-bind (λ _. P) _ _ settled-keeps
            (λ _. Triple-attempt _ _ (λ s p. p) (λ s p. h v s p)))

  pub stage-keeps :
      ((v : String) (s : Payloads) → P s → P (put_staged v s))
      → (v : String) → Triple P (stage v) (λ _. P) (λ _. P)
  unfolding stage
  stage-keeps h v =
      Triple-bind (λ _. P) _ _ (valid_version-keeps v)
        (λ _. quiet (λ _. quiet (λ _. quiet (λ _. quiet (λ _. quiet (λ _. quiet (λ _.
          Triple-bind (λ _. P) _ _ (Triple-attempt _ _ (λ s p. p) (λ s p. h v s p))
            (λ _. settled-keeps))))))))
    where
      quiet :
          {m : Unit {0} → Exec PayloadError Payloads (Unit {0})}
          → ((a : Unit {0}) → Triple P (m a) (λ _. P) (λ _. P))
          → Triple P (settled >>= m) (λ _. P) (λ _. P)
      quiet {m} t = Triple-bind (λ _. P) settled m settled-keeps t

  pub current_version-keeps : Triple P current_version (λ v s. (s.current ≡ some v) × P s) (λ _. P)
  unfolding current_version
  current_version-keeps =
      Triple-bind (λ o s. (s.current ≡ o) × P s) _ _
        (Triple-attempt _ _ (λ s p. p) (λ s p. (refl, p))) read
    where
      read :
          (o : Option String)
          → Triple
              (λ s. (s.current ≡ o) × P s)
              (or_raise no_current o)
              (λ v s. (s.current ≡ some v) × P s)
              (λ _. P)
      read none = Triple-raise no_current (λ s p. p.1)
      read (some v) = Triple-pure v (λ s p. p)

  module _ (moves : (v : String) (s : Payloads) → P s → P (record s { current = some v })) where
    swap_current-keeps : (v : String) → Triple P (swap_current v) (λ _. P) (λ _. P)
    unfolding swap_current
    swap_current-keeps v =
        Triple-bind (λ _. P) _ _ settled-keeps
          (λ _. Triple-attempt _ _ (λ s p. p) (λ s p. moves v s p))

    pub rollback-keeps : Triple P rollback (λ _. P) (λ _. P)
    unfolding rollback
    rollback-keeps =
        Triple-bind (λ _. P) _ _ (Triple-attempt _ _ (λ s p. p) (λ s p. p))
          (λ o.
            Triple-bind (λ _. P) _ _ (found o)
              (λ v.
                Triple-bind (λ _. P) _ _ (swap_current-keeps v)
                  (λ _. Triple-bind (λ _. P) _ _ settled-keeps (λ _. Triple-pure v (λ s p. p)))))
      where
        found : (o : Option String) → Triple P (or_raise no_previous o) (λ _. P) (λ _. P)
        found none = Triple-raise no_previous (λ s p. p)
        found (some v) = Triple-pure v (λ s p. p)

    module _ (marks : (v : String) (s : Payloads) → P s → P (record s { previous = some v })) where
      keep_previous-keeps : (o : Option String) → Triple P (keep_previous o) (λ _. P) (λ _. P)
      unfolding swap_previous
      keep_previous-keeps none = Triple-pure tt (λ s p. p)
      keep_previous-keeps (some v) =
          Triple-bind (λ _. P) _ _ settled-keeps
            (λ _. Triple-attempt _ _ (λ s p. p) (λ s p. marks v s p))

      pub activate-keeps : (v : String) → Triple P (activate v) (λ _. P) (λ _. P)
      unfolding activate read_current
      activate-keeps v =
          Triple-bind (λ _. P) _ _ (valid_version-keeps v)
            (λ _.
              Triple-bind (λ _. P) _ _ (is_quarantined-keeps v)
                (λ q.
                  Triple-bind (λ _. P) _ _
                    (Triple-if q _ _ (λ _. Triple-raise is_quarantined_error (λ s p. p))
                      (λ _. Triple-pure tt (λ s p. p)))
                    (λ _. Triple-bind _ _ _ (stat-shows v) (λ _.
                      Triple-bind (λ _. P) _ _
                        (Triple-recover (λ _. P) _ _ (Triple-attempt _ _ (λ s p. p.1) (λ s p. p.1))
                          (λ _. Triple-pure none (λ s p. p)))
                        (λ o.
                          Triple-bind (λ _. P) _ _ (keep_previous-keeps o)
                            (λ _.
                              Triple-bind (λ _. P) _ _ (swap_current-keeps v)
                                (λ _. settled-keeps)))))))
