-- ===== src/Agent/Loop/Committed.antt =====
-- The health commit, over every run of the loop.
use uncluster.Prelude.{
  ℕ, ◌≡◌, Bool, true, false, Option, none, some, List, [], ◌∷◌, if◌then◌else◌, inl, inr, Bool-cases,
  arith,
}
use uncluster.Prelude.Exec.{ok, err}
use uncluster.Server.Heartbeat.{PolicyPayload, V2HeartbeatResponse}
use uncluster.Agent.Loop.{
  Loop, LoopConfig, unauthorized, revoked, other, Event, beat, apply, check, cancel, LoopEnd,
  heartbeat_answered, apply_policy, work, worked, check_fail_closed, closes, empty_policy,
  on_revoked, loop_step, agent_run,
}

-- The commits that belong to the last success.
abbrev pub commits_of : Option ℕ → ℕ
commits_of none = 0
commits_of (some t) = 1

-- The hook has been called once if a heartbeat has succeeded, and not before.
abbrev pub Committed : Loop → Type 0
Committed s = s.commits ≡ commits_of s.last_heartbeat_ok

module _ (cfg : LoopConfig) (hooked : cfg.hooked ≡ true) where
  work-Committed :
      (now : ℕ) (faults : List Bool) (s : Loop) → Committed s → Committed (work cfg now faults s)
  unfolding work
  work-Committed now faults s c = taken s.queue
    where
      taken : (q : Option PolicyPayload) → Committed (worked cfg now faults q s)
      taken none = c
      taken (some p) = unfold apply_policy in c

  check-Committed :
      (now : ℕ) (faults : List Bool) (s : Loop)
      → Committed s
      → Committed (check_fail_closed cfg now faults s)
  unfolding check_fail_closed
  check-Committed now faults s c = chosen (closes now s.fail_closed_after s.last_heartbeat_ok)
    where
      chosen : (b : Bool) → Committed (if b then apply_policy cfg now faults empty_policy s else s)
      chosen true = unfold apply_policy in c
      chosen false = c

  revoked-Committed :
      (faults : List Bool) (s : Loop) → Committed s → Committed (on_revoked cfg faults s)
  unfolding on_revoked
  revoked-Committed faults s c = elim (Bool-cases cfg.configured) [
    | inl yes_dir ↦ rw (yes_dir, on_revoked) c
    | inr no_dir ↦ rw (no_dir, on_revoked) c
  ]

  answered-Committed :
      (now : ℕ) (resp : V2HeartbeatResponse) (s : Loop)
      → Committed s
      → Committed (heartbeat_answered cfg now resp s)
  unfolding heartbeat_answered
  answered-Committed now resp s c = ground arith

  step-Committed : (e : Event) (s : Loop) → Committed s → Committed (loop_step cfg e s).0
  unfolding loop_step
  step-Committed (beat now faults (ok resp)) s c = answered-Committed now resp s c
  step-Committed (beat now faults (err unauthorized)) s c = c
  step-Committed (beat now faults (err revoked)) s c = revoked-Committed faults s c
  step-Committed (beat now faults (err other)) s c = c
  step-Committed (apply now faults) s c = work-Committed now faults s c
  step-Committed (check now faults) s c = check-Committed now faults s c
  step-Committed cancel s c = c

  ended-Committed :
      (later : ℕ) (faults : List Bool) (es : List Event) (s : Loop)
      → Committed s
      → Committed (agent_run cfg later faults es s).0
      → (x : Option LoopEnd)
      → Committed
          (elim x as (λ _. Loop × Option LoopEnd) [
            | none ↦ agent_run cfg later faults es s
            | some y ↦ (work cfg later faults s, some y)
          ]).0
  ended-Committed later faults es s c rest none = rest
  ended-Committed later faults es s c rest (some y) = work-Committed later faults s c

  -- Over every run, with every result of every heartbeat and whatever call is refused, from a state
  -- where it is so: the health commit has been signalled exactly once if some heartbeat has
  -- succeeded, and not at all otherwise.
  pub agent_run-Committed :
      (later : ℕ) (faults : List Bool) (es : List Event) (s : Loop)
      → Committed s
      → Committed (agent_run cfg later faults es s).0
  unfolding agent_run
  agent_run-Committed later faults [] s c = c
  agent_run-Committed later faults (e ∷ es) s c =
      ended-Committed later faults es (loop_step cfg e s).0 (step-Committed e s c)
        (agent_run-Committed later faults es (loop_step cfg e s).0 (step-Committed e s c))
        (loop_step cfg e s).1
