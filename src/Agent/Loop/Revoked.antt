-- ===== src/Agent/Loop/Revoked.antt =====
-- The deprovision: what is left of the principals directory when Run has returned.
use uncluster.Prelude.{
  ℕ, String, ◌≡◌, refl, Bool, true, false, none, some, List, [], ◌∷◌, ◌&&◌, ap, ◌∙◌,
}
use uncluster.Prelude.Exec.{ok, err}
use uncluster.Store.Db.{unix}
use uncluster.Store.Acl.Snapshot.{allows, has_user, Once}
use uncluster.Server.Heartbeat.{PolicyPayload}
use uncluster.Agent.Policy.{render_principals_dir}
use uncluster.Agent.Policy.Rendered.{lets_in, has_tmp}
use uncluster.Agent.Policy.Enforced.{render_principals_dir_enforces}
use uncluster.Agent.Apply.Applied.{run_apply_policy_dir}
use uncluster.Agent.Wipe.{wiped, wipe_principals-calm, wiped-lets_none}
use uncluster.Agent.Loop.{
  Loop, LoopConfig, Event, revoked, beat, agent_deprovisioned, apply_policy, work, on_revoked,
  loop_step, agent_run,
}

module _ (cfg : LoopConfig) (configured : cfg.configured ≡ true) (s : Loop) where
  -- The state behind onRevoked where no call is refused.
  abbrev pub wiped_loop : Loop
  wiped_loop = record s { dir = wiped s.dir s.dir; deprovisioned = true }

  on_revoked-calm : on_revoked cfg [] s ≡ wiped_loop
  unfolding on_revoked
  on_revoked-calm = rw (configured, on_revoked) (rw (wipe_principals-calm s.dir) refl)

  -- A heartbeat that is answered 410 where no apply is pending: Run returns ErrDeprovisioned, the
  -- marker is written, and nobody is let in. No call is refused.
  pub revoked_wipes :
      (now later : ℕ) (faults : List Bool) (es : List Event) (u c : String)
      → s.queue ≡ none
      → (agent_run cfg later faults (beat now [] (err revoked) ∷ es) s
          ≡ (wiped_loop, some agent_deprovisioned))
        × (lets_in wiped_loop.dir u c ≡ false)
  unfolding agent_run loop_step work
  revoked_wipes now later faults es u c empty =
      (rw on_revoked-calm (rw (empty, work) refl), wiped-lets_none s.dir u c)

  drained :
      (p : PolicyPayload) (later : ℕ) (faults : List Bool)
      → s.queue ≡ some p
      → (work cfg later faults wiped_loop).dir
        ≡ (render_principals_dir p.principals
            (record { state = wiped s.dir s.dir; faults = faults })).1.state
  unfolding work apply_policy
  drained p later faults pending =
      rw (pending, work)
        (rw (configured, apply_policy)
          (ap (λ w. w.state)
            (run_apply_policy_dir (unix later) p s.policy
              (record { state = wiped s.dir s.dir; faults = faults }))))

  -- The same heartbeat where an apply is pending: shutdown drains the channel behind the wipe, and
  -- where that rendering succeeds the pairs of its policy are let in when Run has returned
  -- ErrDeprovisioned. Each user stands once in the policy, and the user in question is not called
  -- like the temporary file of another.
  pub revoked_reapplies :
      (p : PolicyPayload) (now later : ℕ) (faults : List Bool) (es : List Event) (u c : String)
      → s.queue ≡ some p
      → Once p.principals
      → (has_user u p.principals && has_tmp u p.principals) ≡ false
      → (render_principals_dir p.principals
          (record { state = wiped s.dir s.dir; faults = faults })).0
        ≡ ok tt
      → ((agent_run cfg later faults (beat now [] (err revoked) ∷ es) s).1
          ≡ some agent_deprovisioned)
        × (lets_in (agent_run cfg later faults (beat now [] (err revoked) ∷ es) s).0.dir u c
            ≡ allows p.principals u c)
  unfolding agent_run loop_step
  revoked_reapplies p now later faults es u c pending grouped free done = rw on_revoked-calm (
    refl,
    ap (λ d. lets_in d u c) (drained p later faults pending)
        ∙ render_principals_dir_enforces u c p.principals grouped
            (record { state = wiped s.dir s.dir; faults = faults }) free done,
  )
