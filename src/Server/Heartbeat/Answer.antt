-- ===== src/Server/Heartbeat/Answer.antt =====
-- handleV2Heartbeat: what the policy of an answer says.
use mathlib.Core.Path.{subst}
use uncluster.Prelude.{
  ℕ, String, ◌≡◌, ◌≢◌, refl, sym, Bool, true, false, Option, none, some, List, [], ◌∷◌, str_eq,
  str_eq_iff, any, if◌then◌else◌,
}
use uncluster.Prelude.Exec.{ok}
use uncluster.Prelude.Exec.Triple.{
  Triple, Outcome-ok, Triple-attempt, Triple-bind, Triple-pure, Triple-weaken, Triple-each,
  Triple-frame,
}
use uncluster.Store.Db.{Agent, PolicySnapshot, Db, unix}
use uncluster.Store.Db.Transaction.{Triple-read}
use uncluster.Store.Agents.{get_agent, update_agent_heartbeat}
use uncluster.Store.Reports.{AgentEndpoint, upsert_agent_endpoints}
use uncluster.Store.Reports.Frame.{upsert_agent_endpoints-Triple, upsert_agent_policy_state-Triple}
use uncluster.Store.Acl.{is_triple, get_policy_snapshot, stored_version, stored_hash}
use uncluster.Store.Acl.Snapshot.{Describes, WellGrouped, allows, get_policy_snapshot-Triple}
use uncluster.Server.Http.{Status, or_status, or_internal, try}
use uncluster.Server.Http.Rules.{
  Triple-some_or, Triple-or_status, Triple-ignore, Kept, Triple-try, Triple-try_keep,
}
use uncluster.Store.Update.{get_update_policy}
use uncluster.Server.Update.{CheckUpdateCommand, build_update_commands}
use uncluster.Server.Heartbeat.{
  V2HeartbeatRequest, V2HeartbeatResponse, PolicyPayload, policy_for, persist_endpoints,
  latest_fail_closed, handle_v2_heartbeat,
}

-- A heartbeat writes neither the grants, their versions, the tokens nor the audit rows.
abbrev pub Untouched : Db → Db → Type 0
Untouched old s =
    (s.acl ≡ old.acl)
    × (s.versions ≡ old.versions)
    × (s.tokens ≡ old.tokens)
    × (s.cert_events ≡ old.cert_events)

Describes-Untouched :
    (old s : Db) (a : String) (snap : PolicySnapshot)
    → Untouched old s
    → Describes s a snap
    → Describes old a snap
Describes-Untouched old s a snap u d = record {
  version_is = cc (d.version_is, u.1);
  hash_is = cc (d.hash_is, u.1);
  rows_are = λ user c. cc (d.rows_are user c, u.0);
  grouped = d.grouped;
}

-- The policy of an answer is another one than the Agent has applied, and is the agent's: its
-- version and hash are those of the table, and it allows exactly the granted pairs.
pub record Answers (old : Db) (agent : String) (req : V2HeartbeatRequest) (p : PolicyPayload)
    : Type 0 where
  pub is_new : p.hash ≢ req.policy_state.applied_hash
  pub version_is : p.version ≡ stored_version old agent
  pub hash_is : p.hash ≡ stored_hash old agent
  pub rows_are : (u c : String) → allows p.principals u c ≡ any (is_triple c agent u) old.acl
  pub grouped : WellGrouped p.principals

abbrev SnapshotOf : Db → String → Option PolicySnapshot → Type 0
SnapshotOf old a none = Unit
SnapshotOf old a (some snap) = Describes old a snap

some-injective : (p q : PolicyPayload) → ◌≡◌ {A = Option PolicyPayload} (some p) (some q) → p ≡ q
some-injective p q h = cc

policy_for-Answers :
    (old : Db) (a : String) (req : V2HeartbeatRequest) (snap : Option PolicySnapshot)
    (p : PolicyPayload)
    → SnapshotOf old a snap
    → policy_for snap req.policy_state.applied_hash ≡ some p
    → Answers old a req p
unfolding policy_for
policy_for-Answers old a req none p d h = cc
policy_for-Answers old a req (some snap) p d h =
    chosen (str_eq snap.hash req.policy_state.applied_hash) refl h
  where
    payload : PolicyPayload
    payload = record { version = snap.version; hash = snap.hash; principals = snap.principals }

    chosen :
        (b : Bool)
        → str_eq snap.hash req.policy_state.applied_hash ≡ b
        → ◌≡◌ {A = Option PolicyPayload} (if b then none else some payload) (some p)
        → Answers old a req p
    chosen true e k = cc
    chosen false e k = subst (Answers old a req) (some-injective payload p k) (record {
      is_new = λ same. cc (e, (str_eq_iff snap.hash req.policy_state.applied_hash).1 same);
      version_is = d.version_is;
      hash_is = d.hash_is;
      rows_are = d.rows_are;
      grouped = d.grouped;
    })

module _ (P : Db → Type 0) {F : Status → Db → Type 0} where
  commands_Triple : (version : String) → Triple P (build_update_commands version) (λ _. P) F
  unfolding build_update_commands
  commands_Triple version =
      Triple-bind (λ _. P) _ _ (Triple-try_keep get_update_policy (Triple-read _))
        (λ p. Triple-pure _ (λ s q. q))

  agent_Triple : (id : String) → Triple P (try (get_agent id)) (λ _. P) F
  unfolding get_agent
  agent_Triple id = Triple-try_keep (get_agent id) (Triple-read _)

module _ (now : ℕ) (g : Agent) (old : Db) where
  beat_Triple :
      (id version : String)
      → Triple
          (Untouched old)
          (or_status or_internal (update_agent_heartbeat id version now))
          (λ _. Untouched old)
          (λ _. Untouched old)
  unfolding update_agent_heartbeat
  beat_Triple id version = Triple-or_status _ _ (
      Triple-bind (λ _. Untouched old) _ _ (Triple-attempt _ _ (λ s p. p) (λ s p. p))
        (λ _. Triple-pure tt (λ s p. p)))

  endpoints_Triple :
      (id : String) (es : List AgentEndpoint)
      → Triple (Untouched old) (persist_endpoints id es) (λ _. Untouched old) (λ _. Untouched old)
  endpoints_Triple id [] = Triple-pure tt (λ s p. p)
  endpoints_Triple id (e ∷ es) =
      Triple-ignore (upsert_agent_endpoints id (e ∷ es))
        (upsert_agent_endpoints-Triple (λ s es p. p) id (e ∷ es))

  snapshot_Triple :
      (id : String)
      → Triple
          (Untouched old)
          (try (get_policy_snapshot id))
          (λ snap s. SnapshotOf old id snap × Untouched old s)
          (λ _. Untouched old)
  snapshot_Triple id =
      Triple-weaken (Kept (λ snap s. Describes old id snap × Untouched old s) (Untouched old)) _
        split (λ e s p. p)
        (Triple-try _ _ (get_policy_snapshot id) (
          Triple-each (λ s p.
            Triple-weaken _ _
              (λ snap t q.
                (Describes-Untouched old s id snap p q.1, subst (Untouched old) (sym q.0) p))
              (λ e t q. subst (Untouched old) (sym q) p) (get_policy_snapshot-Triple s id))))
    where
      split :
          (snap : Option PolicySnapshot) (s : Db)
          → Kept (λ snap s. Describes old id snap × Untouched old s) (Untouched old) snap s
          → SnapshotOf old id snap × Untouched old s
      split none s p = (tt, p)
      split (some snap) s p = p

  answer :
      Option PolicySnapshot
      → V2HeartbeatRequest
      → Option Agent
      → List CheckUpdateCommand
      → V2HeartbeatResponse
  unfolding policy_for unix
  answer snap req latest commands = record {
    ack_ts = req.observed_at;
    server_time = unix now;
    policy = policy_for snap req.policy_state.applied_hash;
    commands = commands;
    fail_closed_after = latest_fail_closed g latest;
  }

  abbrev Read : Option V2HeartbeatRequest → V2HeartbeatRequest → Option PolicySnapshot → Db → Type 0
  Read body req snap s = (body ≡ some req) × (SnapshotOf old g.id snap × Untouched old s)

  handle_v2_heartbeat-Triple :
      (body : Option V2HeartbeatRequest)
      → Triple
          (Untouched old)
          (handle_v2_heartbeat now g body)
          (λ resp s.
            ((req : V2HeartbeatRequest) × (snap : Option PolicySnapshot) × (body ≡ some req)
              × SnapshotOf old g.id snap
              × (resp.policy ≡ policy_for snap req.policy_state.applied_hash))
            × Untouched old s)
          (λ _. Untouched old)
  unfolding handle_v2_heartbeat answer
  handle_v2_heartbeat-Triple body = Triple-bind _ _ _ (Triple-some_or (λ s p. p) _ body) (λ req.
      Triple-bind _ _ _ (Triple-frame _ (beat_Triple g.id req.agent_version)) (λ _.
        Triple-bind _ _ _ (Triple-frame _ (endpoints_Triple g.id req.endpoints)) (λ _.
          Triple-bind _ _ _ (Triple-frame _ (snapshot_Triple g.id)) (λ snap.
            Triple-bind (λ _. Read body req snap) _ _
              (Triple-ignore _ (upsert_agent_policy_state-Triple (λ s ss p. p) now _))
              (λ _.
                Triple-bind (λ _. Read body req snap) _ _ (agent_Triple (Read body req snap) g.id)
                  (λ latest.
                    Triple-bind (λ _. Read body req snap) _ _
                      (commands_Triple (Read body req snap) req.agent_version)
                      (λ commands.
                        Triple-pure (answer snap req latest commands)
                          (λ s p. ((req, snap, p.0, p.1.0, refl), p.1.1)))))))))

  -- The policy that an answer carries is new to the Agent and is the agent's, by the grants as they
  -- were before the heartbeat, whatever statements the database refuses; grants, versions, tokens
  -- and audit rows are then as they were.
  pub handle_v2_heartbeat-Answers :
      (req : V2HeartbeatRequest) (faults : List Bool) (resp : V2HeartbeatResponse)
      (p : PolicyPayload)
      → (handle_v2_heartbeat now g (some req) (record { state = old; faults = faults })).0 ≡ ok resp
      → resp.policy ≡ some p
      → Answers old g.id req p
        × Untouched old
            (handle_v2_heartbeat now g (some req) (record { state = old; faults = faults })).1.state
  handle_v2_heartbeat-Answers req faults resp p h k =
      answered
        (handle_v2_heartbeat now g (some req) (record { state = old; faults = faults })).1.state
        (Outcome-ok
          (λ r s.
            ((rq : V2HeartbeatRequest) × (snap : Option PolicySnapshot) × (◌≡◌
                {A = Option V2HeartbeatRequest} (some req) (some rq))
              × SnapshotOf old g.id snap
              × (r.policy ≡ policy_for snap rq.policy_state.applied_hash))
            × Untouched old s)
          (λ _. Untouched old) _ _ resp h
          ((handle_v2_heartbeat-Triple (some req)).at (record { state = old; faults = faults })
            (refl, refl, refl, refl)))
    where
      answered :
          (s : Db)
          → ((rq : V2HeartbeatRequest) × (snap : Option PolicySnapshot) × (◌≡◌
                {A = Option V2HeartbeatRequest}
                (some req)
                (some rq))
              × SnapshotOf old g.id snap
              × (resp.policy ≡ policy_for snap rq.policy_state.applied_hash))
            × Untouched old s
          → Answers old g.id req p × Untouched old s
      answered s ((rq, snap, e, d, q), u) =
          (policy_for-Answers old g.id req snap p d (cc (e, q, k)), u)
