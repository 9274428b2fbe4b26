-- ===== src/Agent/Launcher/Supervised.antt =====
-- What holds of the launcher at every step that it and its environment can take.
use uncluster.Prelude.{String, ◌≡◌, Option, none, some, List, ◌∷◌, Bool, true, any, arith}
use uncluster.Prelude.Exec.Triple.{Triple, Triple-and, Triple-from, Triple-weaken, Outcome-either}
use uncluster.Server.Update.{UpdatePlanResponse}
use uncluster.Agent.PayloadStore.{Payload, lists, is_quarantined, stage, activate}
use uncluster.Agent.PayloadStore.Ready.{Names, IsReady, is_quarantined-keeps, activate-Triple}
use uncluster.Agent.PayloadStore.Frame.{stage-keeps, activate-keeps}
use uncluster.Agent.Host.{Host, update_failed, on_store, Triple-on_store}
use uncluster.Agent.SelfUpdate.{Web, UpdateConfig, handle_check_update}
use uncluster.Agent.SelfUpdate.Frame.{handle_check_update-keeps}
use uncluster.Agent.Launcher.{Phase}
use uncluster.Agent.Launcher.Reach.{
  Step, begins, early, late, cancels, deprovisions, marks, updates, Reach, here, next, at,
}
use uncluster.Agent.Launcher.Places.{
  IsSupervised, child_of, begin-IsSupervised, early_step-IsSupervised, late_step-IsSupervised,
  settle-IsSupervised,
}

lists-staged : (v w : String) (vs : List String) → lists v vs ≡ true → lists v (w ∷ vs) ≡ true
unfolding any
lists-staged v w vs h = ground arith

Names-staged : (o : Option String) (w : String) (vs : List String) → Names o vs → Names o (w ∷ vs)
Names-staged none w vs h = tt
Names-staged (some v) w vs h = lists-staged v w vs h

module _ (c o : Option String) where
  -- The pointers and `o` name staged binaries, and `c` is the process that runs.
  abbrev Sound : Host → Type 0
  Sound h = (IsReady h.payloads × Names o h.payloads.staged) × (h.child ≡ c)

  on_store-Sound :
      (m : Payload (Unit {0}))
      → Triple
          (λ s. IsReady s × Names o s.staged)
          m
          (λ _ s. IsReady s × Names o s.staged)
          (λ _ s. IsReady s × Names o s.staged)
      → Triple Sound (on_store update_failed m) (λ _. Sound) (λ _. Sound)
  on_store-Sound m t = Triple-on_store update_failed m (λ h p.
      Triple-from (λ s. IsReady s × Names o s.staged) (λ s e. rw e p.0)
        (Triple-weaken _ _ (λ _ s q. (q, p.1)) (λ _ s q. (q, p.1)) t))

  stage-Sound :
      (v : String) → Triple Sound (on_store update_failed (stage v)) (λ _. Sound) (λ _. Sound)
  stage-Sound v = on_store-Sound (stage v) (
      stage-keeps
        (λ w s p. (
          (Names-staged s.current w s.staged p.0.0, Names-staged s.previous w s.staged p.0.1),
          Names-staged o w s.staged p.1,
        ))
        v)

  activate-Sound :
      (v : String) → Triple Sound (on_store update_failed (activate v)) (λ _. Sound) (λ _. Sound)
  activate-Sound v = on_store-Sound (activate v) (
      Triple-and (Triple-from IsReady (λ s p. p.0) (activate-Triple v)) (
        Triple-from (λ s. Names o s.staged) (λ s p. p.1)
          (activate-keeps (λ w s p. p) (λ w s p. p) v)))

  update-Sound :
      (web : Web) (cfg : UpdateConfig) (goos goarch current : String) (plan : UpdatePlanResponse)
      → Triple Sound
          (handle_check_update web cfg goos goarch current (some plan))
          (λ _. Sound)
          (λ _. Sound)
  update-Sound web cfg goos goarch current plan =
      handle_check_update-keeps web (λ url h p. p)
        (λ v. Triple-on_store update_failed (is_quarantined v) (λ h p.
          Triple-from (λ s. (IsReady s × Names o s.staged) × (h.child ≡ c)) (λ s e. rw e p)
            (is_quarantined-keeps v)))
        stage-Sound activate-Sound (λ v h p. p) cfg goos goarch current plan

module _ (web : Web) (cfg : UpdateConfig) (goos goarch current : String) (watched : Bool) where
  Step-IsSupervised :
      {p : Phase} {h : Host} {q : Phase} {k : Host}
      → Step web cfg goos goarch current watched p h q k
      → IsSupervised p h
      → IsSupervised q k
  Step-IsSupervised (begins h fs) i =
      settle-IsSupervised _ _ (begin-IsSupervised.at (at h fs) (i.ready, i.runs))
  Step-IsSupervised (early h v s fs r) i =
      settle-IsSupervised _ _
        ((early_step-IsSupervised v s).at (at h fs) (i.ready, i.runs, i.staged))
  Step-IsSupervised (late h v s fs r) i =
      settle-IsSupervised _ _
        ((late_step-IsSupervised watched v s).at (at h fs) (i.ready, i.runs, i.staged))
  Step-IsSupervised (cancels p h) i = record { ready = i.ready; runs = i.runs; staged = i.staged }
  Step-IsSupervised (deprovisions p h) i = record {
    ready = i.ready;
    runs = i.runs;
    staged = i.staged;
  }
  Step-IsSupervised (marks p h m) i = record { ready = i.ready; runs = i.runs; staged = i.staged }
  Step-IsSupervised (updates p h plan fs r) i =
      let s = Outcome-either (Sound (child_of p) (child_of p)) _ _ (
        (update-Sound (child_of p) (child_of p) web cfg goos goarch current plan).at (at h fs)
          ((i.ready, i.staged), i.runs)) in
      record { ready = s.0.0; runs = s.1; staged = s.0.1 }

  -- Whatever the environment does and whichever calls are refused, from a start with no process and
  -- with both pointers on staged binaries: the process that runs is the one of the launcher's place,
  -- so there is never a second one, and none outlives Run; its binary and those of both pointers
  -- are staged.
  pub Reach-IsSupervised :
      {p : Phase} {h : Host} {q : Phase} {k : Host}
      → IsSupervised p h
      → Reach web cfg goos goarch current watched p h q k
      → IsSupervised q k
  Reach-IsSupervised i here = i
  Reach-IsSupervised i (next r s) = Step-IsSupervised s (Reach-IsSupervised i r)
