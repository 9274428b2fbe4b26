-- ===== src/Agent/Loop/FailClosed.antt =====
-- The fail-closed check: when it wipes the principals directory, and how the policy comes back.
use uncluster.Prelude.{
  ℕ, ◌*◌, ◌-◌, ◌<◌, ◌≤◌, String, ◌≡◌, ◌≢◌, refl, ap, ◌∙◌, Bool, true, false, ◌&&◌, leb, Option,
  none, some, List, [], if◌then◌else◌, str_eq_iff, arith,
}
use uncluster.Prelude.Signed.{pos, to_int64, to_uint64, scale}
use uncluster.Prelude.Exec.{Result, ok, err, World}
use uncluster.Store.Db.{unix, PolicySnapshot}
use uncluster.Store.Reports.{AgentEndpoint}
use uncluster.Store.Acl.Snapshot.{allows, has_user, Once}
use uncluster.Server.Certs.{duration}
use uncluster.Server.Heartbeat.{PolicyPayload, V2HeartbeatResponse, policy_for}
use uncluster.Agent.Dir.{Dir, AgentError}
use uncluster.Agent.Policy.{render_principals_dir}
use uncluster.Agent.Policy.Rendered.{lets_in, has_tmp}
use uncluster.Agent.Policy.Enforced.{render_principals_dir_enforces}
use uncluster.Agent.Apply.{recorded, run_apply_policy}
use uncluster.Agent.Apply.Applied.{run_apply_policy_dir}
use uncluster.Agent.Loop.{
  Loop, LoopConfig, apply_policy, work, empty_policy, is_due, closes, check_fail_closed,
  heartbeat_request, heartbeat_answered, dispatch_policy,
}

-- A timeout in the range of time.Duration is due exactly when that many seconds have passed.
due_in_range :
    (now last n : ℕ)
    → 0 < n
    → n < 9223372037
    → is_due now (pos n) last ≡ leb (n * 1000000000) (now - last)
unfolding duration to_int64 to_uint64 scale
due_in_range now last n p q = ground arith

-- Beyond it the product wraps around to a negative duration, and the timeout is always due.
pub due_wraps : (now last n : ℕ) → 9223372037 ≤ n → n ≤ 18446744073 → is_due now (pos n) last ≡ true
unfolding duration to_int64 to_uint64 scale
due_wraps now last n p q = ground arith

-- The channel holds the newest policy.
dispatch_latest : (p : PolicyPayload) (c : Option PolicyPayload) → dispatch_policy p c ≡ some p
unfolding dispatch_policy
dispatch_latest p none = refl
dispatch_latest p (some q) = refl

abbrev payload_of : PolicySnapshot → PolicyPayload
payload_of snap = record { version = snap.version; hash = snap.hash; principals = snap.principals }

reports_empty :
    (text : AgentError → String) (version : String) (now : ℕ) (endpoints : List AgentEndpoint)
    (s : Loop) (snap : PolicySnapshot)
    → s.policy.applied_hash ≡ ""
    → snap.hash ≢ ""
    → policy_for
        (some snap)
        (heartbeat_request text version now endpoints s.policy).policy_state.applied_hash
      ≡ some (payload_of snap)
unfolding heartbeat_request policy_for
reports_empty text version now endpoints s snap e full =
    rw e (ground (arith, (str_eq_iff snap.hash "").0))

module _ (cfg : LoopConfig) (configured : cfg.configured ≡ true) where
  applied_dir :
      (now : ℕ) (faults : List Bool) (p : PolicyPayload) (s : Loop)
      → (apply_policy cfg now faults p s).dir
        ≡ (render_principals_dir p.principals (record { state = s.dir; faults = faults })).1.state
  unfolding apply_policy
  applied_dir now faults p s =
      rw (configured, apply_policy)
        (ap (λ w. w.state)
          (run_apply_policy_dir (unix now) p s.policy (record { state = s.dir; faults = faults })))

  recorded_hash :
      (now : ℕ) (p : PolicyPayload) (s : Loop) (r : Result AgentError (Unit {0}) × World Dir)
      → r.0 ≡ ok tt
      → (recorded now p s.policy r).0.applied_hash ≡ p.hash
  recorded_hash now p s (ok a, w) h = refl
  recorded_hash now p s (err e, w) h = cc

  applied_hash_of :
      (now : ℕ) (faults : List Bool) (p : PolicyPayload) (s : Loop)
      → (render_principals_dir p.principals (record { state = s.dir; faults = faults })).0 ≡ ok tt
      → (apply_policy cfg now faults p s).policy.applied_hash ≡ p.hash
  unfolding apply_policy run_apply_policy
  applied_hash_of now faults p s done =
      rw (configured, apply_policy)
        (recorded_hash (unix now) p s
          (render_principals_dir p.principals (record { state = s.dir; faults = faults })) done)

  checked :
      (now : ℕ) (faults : List Bool) (s : Loop) (b : Bool)
      → closes now s.fail_closed_after s.last_heartbeat_ok ≡ b
      → check_fail_closed cfg now faults s
        ≡ (if b then apply_policy cfg now faults empty_policy s else s)
  unfolding check_fail_closed
  checked now faults s b h = rw h

  -- With a timeout of a positive number of seconds, in the range of time.Duration, and a heartbeat
  -- that has succeeded: before the seconds have passed the check changes nothing; from then on, if
  -- its rendering succeeds, nobody is let in, and the hash that the next heartbeat reports is empty.
  pub check_fail_closed-exact :
      (now last n : ℕ) (faults : List Bool) (s : Loop) (u c : String)
      → 0 < n
      → n < 9223372037
      → s.fail_closed_after ≡ some (pos n)
      → s.last_heartbeat_ok ≡ some last
      → (now - last < n * 1000000000 → check_fail_closed cfg now faults s ≡ s)
        × (n * 1000000000 ≤ now - last
            → (render_principals_dir [] (record { state = s.dir; faults = faults })).0 ≡ ok tt
            → (lets_in (check_fail_closed cfg now faults s).dir u c ≡ false)
              × ((check_fail_closed cfg now faults s).policy.applied_hash ≡ ""))
  check_fail_closed-exact now last n faults s u c low high after ok_at = (
    (λ early. checked now faults s false (due ∙ ground arith)),
    (λ late done.
        let e = checked now faults s true (due ∙ ground arith) in
        rw e (
          ap (λ d. lets_in d u c) (applied_dir now faults empty_policy s)
              ∙ render_principals_dir_enforces u c [] tt (record { state = s.dir; faults = faults })
                  refl done,
          applied_hash_of now faults empty_policy s done,
        )),
  )
    where
      due : closes now s.fail_closed_after s.last_heartbeat_ok ≡ leb (n * 1000000000) (now - last)
      due = rw (after, closes) (rw (ok_at, closes) (due_in_range now last n low high))

  -- A timeout between 9223372037 and 18446744073 seconds wraps around: the check applies the empty
  -- policy however short ago the last heartbeat has succeeded.
  pub check_fail_closed_wraps :
      (now last n : ℕ) (faults : List Bool) (s : Loop)
      → 9223372037 ≤ n
      → n ≤ 18446744073
      → s.fail_closed_after ≡ some (pos n)
      → s.last_heartbeat_ok ≡ some last
      → check_fail_closed cfg now faults s ≡ apply_policy cfg now faults empty_policy s
  check_fail_closed_wraps now last n faults s low high after ok_at =
      checked now faults s true
        (rw (after, closes) (rw (ok_at, closes) (due_wraps now last n low high)))

  work_takes :
      (p : PolicyPayload) (later : ℕ) (faults : List Bool) (s : Loop)
      → s.queue ≡ some p
      → (work cfg later faults s).dir
        ≡ (render_principals_dir p.principals (record { state = s.dir; faults = faults })).1.state
  unfolding work
  work_takes p later faults s e =
      rw (e, work) (applied_dir later faults p (record s { queue = none }))

  queued :
      (p : PolicyPayload) (now : ℕ) (resp : V2HeartbeatResponse) (s : Loop)
      → resp.policy ≡ some p
      → (heartbeat_answered cfg now resp s).queue ≡ some p
  unfolding heartbeat_answered
  queued p now resp s e = rw e (dispatch_latest p s.queue)

  worked_dir :
      (p : PolicyPayload) (now later : ℕ) (faults : List Bool) (resp : V2HeartbeatResponse)
      (s : Loop)
      → resp.policy ≡ some p
      → (work cfg later faults (heartbeat_answered cfg now resp s)).dir
        ≡ (render_principals_dir p.principals (record { state = s.dir; faults = faults })).1.state
  unfolding heartbeat_answered
  worked_dir p now later faults resp s e =
      work_takes p later faults (heartbeat_answered cfg now resp s) (queued p now resp s e)

  -- After the check has emptied the directory the policy comes back: the Agent's next request
  -- reports the empty hash, so the server's snapshot, whose hash is not empty, is in the answer; and
  -- where the worker's rendering of it succeeds, the directory lets in its pairs and no other, also
  -- if an older policy was still pending. Each user stands once in the policy, and the user in
  -- question is not called like the temporary file of another.
  pub fail_closed_recovers :
      (text : AgentError → String) (version : String) (now later : ℕ) (faults : List Bool)
      (endpoints : List AgentEndpoint) (s : Loop) (snap : PolicySnapshot)
      (resp : V2HeartbeatResponse) (u c : String)
      → s.policy.applied_hash ≡ ""
      → snap.hash ≢ ""
      → Once snap.principals
      → (has_user u snap.principals && has_tmp u snap.principals) ≡ false
      → resp.policy
        ≡ policy_for
            (some snap)
            (heartbeat_request text version now endpoints s.policy).policy_state.applied_hash
      → (render_principals_dir snap.principals (record { state = s.dir; faults = faults })).0
        ≡ ok tt
      → lets_in (work cfg later faults (heartbeat_answered cfg now resp s)).dir u c
        ≡ allows snap.principals u c
  fail_closed_recovers text version now later faults endpoints s snap resp u c emptied full grouped
        free answered done =
      ap (λ d. lets_in d u c)
        (worked_dir (payload_of snap) now later faults resp s
          (answered ∙ reports_empty text version now endpoints s snap emptied full))
      ∙ render_principals_dir_enforces u c snap.principals grouped
          (record { state = s.dir; faults = faults }) free done
