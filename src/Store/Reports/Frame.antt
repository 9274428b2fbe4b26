-- ===== src/Store/Reports/Frame.antt =====
-- What the reports of an Agent leave alone.
use uncluster.Prelude.{ℕ, String, Bool, true, false, List, [], ◌∷◌, if◌then◌else◌, any}
use uncluster.Prelude.Exec.{Result, ok, err}
use uncluster.Prelude.Exec.Triple.{Triple, Outcome, Triple-attempt, Triple-bind, Triple-pure}
use uncluster.Store.Db.{
  StoreError, unique_violation, constraint, AgentPolicyState, EndpointRow, Db, statement,
}
use uncluster.Store.Db.Transaction.{Triple-transaction}
use uncluster.Store.Reports.{
  UpsertAgentPolicyStateParams, AgentEndpoint, upsert_state, upsert_agent_policy_state,
  insert_endpoint, insert_endpoints, delete_endpoints, upsert_agent_endpoints,
}

module _ {P : Db → Type 0}
    (keep : (s : Db) (es : List EndpointRow) → P s → P (record s { endpoints = es })) where
  insert_endpoints-Triple :
      (id : String) (es : List AgentEndpoint)
      → Triple P (insert_endpoints id es) (λ _. P) (λ _ _. Unit)
  unfolding insert_endpoints insert_endpoint
  insert_endpoints-Triple id [] = Triple-pure tt (λ s p. p)
  insert_endpoints-Triple id (e ∷ es) =
      Triple-bind (λ _. P) (statement (insert_endpoint id e)) _
        (Triple-attempt _ _ (λ _ _. tt)
          (λ s p. written (any _ s.endpoints) (any _ s.agents) s (keep s _ p)))
        (λ _. insert_endpoints-Triple id es)
    where
      written :
          (a b : Bool) (s : Db) {t : Db}
          → P t
          → (λ (r : Result StoreError (Unit {0}) × Db). Outcome (λ _. P) (λ _ _. Unit) r.0 r.1)
              (if a
                then (err unique_violation, s)
                else if b
                then (ok tt, t)
                else (err constraint, s))
      written true b s p = tt
      written false true s p = p
      written false false s p = tt

  -- The transaction writes the endpoints only, and nothing where it fails.
  pub upsert_agent_endpoints-Triple :
      (id : String) (es : List AgentEndpoint)
      → Triple P (upsert_agent_endpoints id es) (λ _. P) (λ _. P)
  unfolding upsert_agent_endpoints
  upsert_agent_endpoints-Triple id es =
      Triple-transaction _ (λ e s p. p)
        (Triple-bind (λ _. P) (statement (delete_endpoints id)) _
          (Triple-attempt _ _ (λ _ _. tt) (λ s p. keep s _ p)) (λ _. insert_endpoints-Triple id es))

module _ {P : Db → Type 0}
    (keep : (s : Db) (ss : List AgentPolicyState) → P s → P (record s { policy_states = ss })) where
  pub upsert_agent_policy_state-Triple :
      (now : ℕ) (p : UpsertAgentPolicyStateParams)
      → Triple P (upsert_agent_policy_state now p) (λ _. P) (λ _. P)
  unfolding upsert_agent_policy_state upsert_state
  upsert_agent_policy_state-Triple now p =
      Triple-attempt _ _ (λ s q. q)
        (λ s q. written (any _ s.policy_states) (any _ s.agents) s (keep s _ q) (keep s _ q) q)
    where
      written :
          (a b : Bool) (s : Db) {t u : Db}
          → P t
          → P u
          → P s
          → (λ (r : Result StoreError (Unit {0}) × Db). Outcome (λ _. P) (λ _. P) r.0 r.1)
              (if a then (ok tt, t) else if b then (ok tt, u) else (err constraint, s))
      written true b s p q r = p
      written false true s p q r = q
      written false false s p q r = r
