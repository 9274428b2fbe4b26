-- ===== src/Store/Agents/Revocation.antt =====
-- RevokeAgent, and UpdateAgentHeartbeat behind it.
use uncluster.Prelude.{
  ℕ, String, ◌≡◌, refl, Bool, true, false, not, ◌&&◌, Option, none, some, List, [], ◌∷◌,
  if◌then◌else◌, str_eq, any, find, count_where, update_where, arith,
}
use uncluster.Prelude.Exec.{Result, ok, err, World}
use uncluster.Prelude.Exec.Triple.{
  Triple, Outcome, Outcome-ok, Outcome-err, Triple-attempt, Triple-bind, Triple-pure, Triple-raise,
}
use uncluster.Store.Db.{
  StoreError, not_found, unique_violation, Agent, online, revoked, Token, Db, query, statement,
  one_row, unix,
}
use uncluster.Store.Db.Transaction.{Triple-transaction}
use uncluster.Store.Tokens.{update_tokens}
use uncluster.Store.Agents.{
  update_agents, rename_revoked, is_live_token_of, is_revoked, revoked_name, revoke_agent_body,
  revoke_agent, update_agent_heartbeat,
}

-- All rows with this id are revoked.
abbrev pub AllRevoked : String → Db → Type 0
AllRevoked id s = any (λ g. str_eq g.id id && not (is_revoked g.status)) s.agents ≡ false

marks :
    (id name : String) (gs : List Agent)
    → any
        (λ g. str_eq g.id id && not (is_revoked g.status))
        (update_where (λ g. str_eq g.id id) (λ g. record g { status = revoked; name = name }) gs)
      ≡ false
unfolding any update_where
marks id name [] = refl
marks id name (g ∷ gs) = ground (arith, marks id name gs)

no_live :
    (id : String) (at : ℕ) (ts : List Token)
    → count_where
        (is_live_token_of id)
        (update_where (is_live_token_of id) (λ t. record t { revoked_at = some at }) ts)
      ≡ 0
unfolding count_where update_where
no_live id at [] = refl
no_live id at (t ∷ ts) = ground (arith, no_live id at ts)

pub revoke_agent-Triple :
    (old : Db) (id : String) (at : ℕ)
    → Triple
        (λ s. s ≡ old)
        (revoke_agent id at)
        (λ _ s. AllRevoked id s × (count_where (is_live_token_of id) s.tokens ≡ 0))
        (λ _ s. s ≡ old)
unfolding revoke_agent revoke_agent_body update_tokens rename_revoked update_agents
revoke_agent-Triple old id at =
    Triple-transaction _ (λ e s p. p)
      (Triple-bind (λ _ _. Unit) (query (λ db. find (λ g. str_eq g.id id) db.agents)) _
        (Triple-attempt _ _ (λ _ _. tt) (λ _ _. tt))
        (λ found.
          Triple-bind (λ _ _. Unit) (one_row found) _ (row found)
            (λ current.
              Triple-bind (λ _. AllRevoked id)
                (statement (rename_revoked id (revoked_name current.name at))) _
                (Triple-attempt _ _ (λ _ _. tt)
                  (λ s _. renamed (any _ s.agents) s (revoked_name current.name at)))
                (λ _.
                  Triple-bind
                    (λ _ s. AllRevoked id s × (count_where (is_live_token_of id) s.tokens ≡ 0)) _ _
                    (Triple-attempt _ _ (λ _ _. tt) (λ s p. (p, no_live id (unix at) s.tokens)))
                    (λ _. Triple-pure tt (λ s p. p))))))
  where
    row : (o : Option Agent) → Triple (λ _. Unit) (one_row o) (λ _ _. Unit) (λ _ _. Unit)
    row none = Triple-raise not_found (λ _ _. tt)
    row (some g) = Triple-pure g (λ _ _. tt)

    renamed :
        (b : Bool) (s : Db) (name : String)
        → (λ (r : Result StoreError ℕ × Db). Outcome (λ _. AllRevoked id) (λ _ _. Unit) r.0 r.1)
            (if b
              then (err unique_violation, s)
              else update_agents
                  (λ g. str_eq g.id id)
                  (λ g. record g { status = revoked; name = name })
                  s)
    renamed true s name = tt
    renamed false s name = marks id name s.agents

-- Behind a revocation that succeeds, the agent's record is revoked and none of its tokens is live,
-- whatever statements the database refuses.
pub revoke_agent-AllRevoked :
    (id : String) (at : ℕ) (w : World Db)
    → (revoke_agent id at w).0 ≡ ok tt
    → AllRevoked id (revoke_agent id at w).1.state
      × (count_where (is_live_token_of id) (revoke_agent id at w).1.state.tokens ≡ 0)
revoke_agent-AllRevoked id at w h =
    Outcome-ok (λ _ s. AllRevoked id s × (count_where (is_live_token_of id) s.tokens ≡ 0))
      (λ _ s. s ≡ w.state) _ _ tt h ((revoke_agent-Triple w.state id at).at w refl)

-- A revocation that fails changes nothing.
revoke_agent_atomic :
    (id : String) (at : ℕ) (w : World Db) (e : StoreError)
    → (revoke_agent id at w).0 ≡ err e
    → (revoke_agent id at w).1.state ≡ w.state
revoke_agent_atomic id at w e h =
    Outcome-err (λ _ s. AllRevoked id s × (count_where (is_live_token_of id) s.tokens ≡ 0))
      (λ _ s. s ≡ w.state) _ _ e h ((revoke_agent-Triple w.state id at).at w refl)

revives :
    (id version : String) (at : ℕ) (gs : List Agent)
    → any
        (λ g. str_eq g.id id && is_revoked g.status)
        (update_where
          (λ g. str_eq g.id id)
          (λ g. record g { last_seen_at = some at; agent_version = version; status = online })
          gs)
      ≡ false
unfolding any update_where
revives id version at [] = refl
revives id version at (g ∷ gs) = ground (arith, revives id version at gs)

-- A heartbeat that is recorded leaves no record with this id revoked, even where the agent was
-- revoked between the authentication and the write.
pub update_agent_heartbeat-revives :
    (id version : String) (at : ℕ) (w : World Db)
    → (update_agent_heartbeat id version at w).0 ≡ ok tt
    → any
        (λ g. str_eq g.id id && is_revoked g.status)
        (update_agent_heartbeat id version at w).1.state.agents
      ≡ false
unfolding update_agent_heartbeat update_agents
update_agent_heartbeat-revives id version at w h =
    Outcome-ok (λ _ s. any (λ g. str_eq g.id id && is_revoked g.status) s.agents ≡ false)
      (λ _ _. Unit) _ _ tt h
      ((Triple-bind {P = λ _. Unit}
          (λ _ s. any (λ g. str_eq g.id id && is_revoked g.status) s.agents ≡ false) _ _
          (Triple-attempt _ _ (λ _ _. tt) (λ s _. revives id version (unix at) s.agents))
          (λ _. Triple-pure tt (λ s p. p))).at
        w tt)
