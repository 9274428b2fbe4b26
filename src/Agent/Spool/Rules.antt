-- ===== src/Agent/Spool/Rules.antt =====
-- Pre- and postconditions of the calls on the spool.
use mathlib.Core.Path.{subst}
use uncluster.Prelude.{
  String, ◌≡◌, refl, sym, ◌∙◌, Bool, true, false, Option, none, some, List, [], ◌∷◌, ◌⊎◌, inl, inr,
  if◌then◌else◌,
}
use uncluster.Prelude.Exec.{Result, ok, err, World, Exec}
use uncluster.Prelude.Exec.Triple.{
  Triple, Outcome, Outcome-if, Triple-attempt, Triple-bind, Triple-recover, Triple-pure,
  Triple-given, Triple-weaken,
}
use uncluster.Agent.Dir.{Dir, AgentError}
use uncluster.Agent.Spool.{
  Spool, SpoolError, current, modify, touch, on_dir, on_dir_from, read_file,
  atomic_write_spool_file, refused, Codec, DesiredState, AppliedStatus, matching, self_remove,
  tick_on, tick, ticked, writer_round, writer_rounds,
}

module _ {P : Spool → Type 0} where
  pub Triple-current : {F : SpoolError → Spool → Type 0} → Triple P current (λ s t. (s ≡ t) × P t) F
  unfolding current
  Triple-current = record { at = λ w p. (refl, p) }

  pub Triple-modify :
      {Q : Unit {0} → Spool → Type 0} {F : SpoolError → Spool → Type 0} (f : Spool → Spool)
      → ((s : Spool) → P s → Q tt (f s))
      → Triple P (modify f) Q F
  unfolding modify
  Triple-modify f k = record { at = λ w p. k w.state p }

  pub Triple-touch : Triple P touch (λ _. P) (λ _. P)
  unfolding touch
  Triple-touch = Triple-attempt _ _ (λ _ p. p) (λ _ p. p)

  -- A file is replaced as a whole, or not at all.
  pub Triple-write :
      {Q : Spool → Type 0} (f : Spool → Spool)
      → ((s : Spool) → P s → Q (f s))
      → Triple P (atomic_write_spool_file f) (λ _. Q) (λ _. P)
  unfolding atomic_write_spool_file
  Triple-write f k =
      Triple-bind (λ _. P) _ _ Triple-touch
        (λ _.
          Triple-bind (λ _. P) _ _ Triple-touch
            (λ _.
              Triple-bind (λ _. P) _ _ Triple-touch
                (λ _.
                  Triple-bind (λ _. P) _ _ Triple-touch (λ _. Triple-attempt _ _ (λ _ p. p) k))))

  pub Triple-read :
      {F : SpoolError → Spool → Type 0} (f : Spool → Option String)
      → Triple P (read_file f) (λ x s. ((x ≡ none) ⊎ (x ≡ f s)) × P s) F
  unfolding read_file
  Triple-read f =
      Triple-recover (λ _. P) _ _ (Triple-attempt _ _ (λ _ p. p) (λ _ p. (inr refl, p)))
        (λ _. Triple-pure _ (λ _ p. (inl refl, p)))

-- The service alone is touched.
pub Triple-self_remove :
    {P : Spool → Type 0}
    → ((s : Spool) → P s → P (record s { registered = false }))
    → Triple P self_remove (λ _. P) (λ _ _. ⊥)
unfolding self_remove
Triple-self_remove {P} keep =
    Triple-recover (λ _. P) _ _
      (Triple-bind (λ _. P) _ _ Triple-touch
        (λ _.
          Triple-bind (λ _. P) _ _
            (Triple-attempt _ _ (λ _ p. p)
              (λ s p.
                Outcome-if (λ _. P) (λ _. P) s.registered (ok tt, s) (err refused, s) (λ _. p)
                  (λ _. p)))
            (λ _. Triple-attempt _ _ (λ _ p. p) keep)))
      (λ _. Triple-pure tt (λ _ p. p))

module _ (c : Codec) (b : String) {P : Spool → Type 0} where
  -- A round on a file that is known, where it can be read.
  pub Triple-tick :
      {Q : Bool → Spool → Type 0}
      → ((s : Spool) → P s → s.policy ≡ some b)
      → ((s : Spool) → P s → Q false s)
      → Triple P (tick_on c (some b)) Q (λ _ _. ⊥)
      → Triple P (tick c) Q (λ _ _. ⊥)
  unfolding tick
  Triple-tick {Q} known idle t =
      Triple-bind (λ o s. ((o ≡ none) ⊎ (o ≡ some b)) × P s) _ _
        (Triple-weaken (λ o s. ((o ≡ none) ⊎ (o ≡ s.policy)) × P s) (λ _ _. ⊥)
          (λ o s p. (reads o s p.0 (known s p.1), p.1)) (λ e s h. h) (Triple-read (λ s. s.policy)))
        on
    where
      reads :
          (o : Option String) (s : Spool)
          → (o ≡ none) ⊎ (o ≡ s.policy)
          → s.policy ≡ some b
          → (o ≡ none) ⊎ (o ≡ some b)
      reads o s (inl h) e = inl h
      reads o s (inr h) e = inr (h ∙ e)

      same : (y : String) → (some y ≡ none) ⊎ (some y ≡ some b) → y ≡ b
      same y (inl h) = cc
      same y (inr h) = cc

      on :
          (o : Option String)
          → Triple (λ s. ((o ≡ none) ⊎ (o ≡ some b)) × P s) (tick_on c o) Q (λ _ _. ⊥)
      on none = Triple-pure false (λ s p. idle s p.1)
      on (some y) =
          Triple-given (y ≡ b) P (λ s p. (same y p.0, p.1))
            (λ e. subst (λ z. Triple P (tick_on c (some z)) Q (λ _ _. ⊥)) (sym e) t)

module _ (c : Codec) {P : Spool → Type 0} (t : Triple P (tick c) (λ _. P) (λ _ _. ⊥))
    (stops : (s : Spool) → P s → P (record s { running = false })) where
  round_keeps : (faults : List Bool) (s : Spool) → P s → P (writer_round c faults s)
  unfolding writer_round
  round_keeps faults s p = chosen s.running
    where
      after :
          (r : Result SpoolError Bool) (w : World Spool)
          → Outcome (λ _. P) (λ _ _. ⊥) r w.state
          → P (ticked (r, w))
      after (ok true) w o = stops w.state o
      after (ok false) w o = o
      after (err e) w o = absurd o

      chosen :
          (y : Bool) → P (if y then ticked (tick c (record { state = s; faults = faults })) else s)
      chosen true = after _ _ (t.at (record { state = s; faults = faults }) p)
      chosen false = p

  -- What a round keeps, any number of them keeps.
  pub rounds_keep : (fs : List (List Bool)) (s : Spool) → P s → P (writer_rounds c fs s)
  unfolding writer_rounds
  rounds_keep [] s p = p
  rounds_keep (f ∷ fs) s p = rounds_keep fs (writer_round c f s) (round_keeps f s p)

module _ {A : Type 0} (Q : A → Dir → Type 0) where
  lifted :
      (R : Spool → Type 0) (s : Spool) (r : Result AgentError A) (w : World Dir)
      → ((x : Dir) → R (record s { dir = x }))
      → Outcome Q (λ _ _. Unit) r w.state
      → Outcome
          (λ a t. R t × Q a t.dir)
          (λ _. R)
          (on_dir_from s (r, w)).0
          (on_dir_from s (r, w)).1.state
  lifted R s (ok a) w keep o = (keep w.state, o)
  lifted R s (err e) w keep o = keep w.state

  -- What does not speak of the directory is kept.
  pub Triple-on_dir :
      (R : Spool → Type 0) (m : Exec AgentError Dir A)
      → ((s : Spool) (x : Dir) → R s → R (record s { dir = x }))
      → Triple (λ _. Unit) m Q (λ _ _. Unit)
      → Triple R (on_dir m) (λ a t. R t × Q a t.dir) (λ _. R)
  unfolding on_dir
  Triple-on_dir R m keep t = record {
    at = λ w p.
        lifted R w.state _ _ (λ x. keep w.state x p)
          (t.at (record { state = w.state.dir; faults = w.faults }) tt);
  }

-- No file, no answer.
pub matching-none :
    (c : Codec) (d : DesiredState) (st : AppliedStatus) → matching c d none ≡ some st → ⊥
unfolding matching
matching-none c d st h = cc
