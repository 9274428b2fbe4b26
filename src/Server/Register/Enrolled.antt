-- ===== src/Server/Register/Enrolled.antt =====
-- handleAgentRegister: what an answered registration has shown and written.
use mathlib.Core.Path.{subst}
use Prim.Native.String.{◌++◌ as concat}
use uncluster.Prelude.{ℕ, String, ◌≡◌, refl, ap, ◌∙◌, Option, none, some}
use uncluster.Prelude.Exec.{ok, World, pure, ◌>>◌}
use uncluster.Prelude.Exec.Triple.{
  Triple, Outcome-ok, Triple-bind, Triple-pure, Triple-weaken, Triple-frame, Triple-given,
}
use uncluster.Token
use uncluster.Token.{Kind, to_text, Crypto, parse, verify_secret}
use uncluster.Store.Db.{
  StoreError, TokenKind, Agent, Db, Sql, query, statement, one_row, unix, online, instant,
  unique_violation, constraint,
}
use uncluster.Store.Db
use uncluster.Store.Db.Transaction.{Triple-read}
use uncluster.Store.Tokens.Lifecycle.{
  with_token, used, create_token-Triple, mark_join_token_used-Triple,
}
use uncluster.Store.Agents.Created.{with_agent, create_agent-Triple}
use uncluster.Store.Tokens.{new_token, NewTokenParams, create_token, mark_join_token_used}
use uncluster.Store.Agents.{new_agent, get_agent_by_name}
use uncluster.Server.Http.{or_status, or_internal}
use uncluster.Server.Http.Rules.{Triple-guard, Triple-some_or, Triple-or_status, Triple-try_keep}
use uncluster.Server.Register.Joined.{Joins, check_join-Triple}
use uncluster.Server.Register.{
  AgentRegisterRequest, AgentRegisterResponse, enroll, handle_agent_register,
}

module _ (c : Crypto) (now : ℕ) where
  -- The rows that an enrollment adds.
  abbrev pub agent_token : String → Token.Token → String → AgentRegisterRequest → NewTokenParams
  agent_token fresh t hash req = record {
    id = t.id;
    kind = TokenKind.agent;
    agent_id = some fresh;
    secret_hash = hash;
    label = concat "agent:" req.name;
    expires_at = none;
  }

  -- The database behind an enrollment: the new agent, its token with the hash of the new secret,
  -- and the join token marked.
  pub record Enrolled (old : Db) (fresh : String) (minted : Option Token.Token)
      (hashed : String → Option String) (req : AgentRegisterRequest) (row : Db.Token)
      (resp : AgentRegisterResponse) (s : Db) : Type 0 where
    pub token : Token.Token
    pub hash : String
    pub is_minted : minted ≡ some token
    pub is_hashed : hashed token.secret ≡ some hash
    pub says : (resp.agent_id ≡ fresh) × (resp.agent_token ≡ to_text token)
    pub state :
        s
        ≡ used row.id now (
            with_token
              (with_agent old (new_agent fresh now req.name))
              (new_token "" now (agent_token fresh token hash req)))

  abbrev token_of : Agent → Token.Token → String → NewTokenParams
  token_of g t hash = record {
    id = t.id;
    kind = TokenKind.agent;
    agent_id = some g.id;
    secret_hash = hash;
    label = concat "agent:" g.name;
    expires_at = none;
  }

  write_tokens-Triple :
      (mid : Db) (g : Agent) (t : Token.Token) (hash : String) (row : Db.Token)
      (resp : AgentRegisterResponse)
      → Triple
          (λ s. s ≡ mid)
          (or_status or_internal (create_token "" now (token_of g t hash))
            >> (or_status or_internal (mark_join_token_used row.id now) >> pure resp))
          (λ r s.
            (r ≡ resp)
            × (s ≡ used row.id now (with_token mid (new_token "" now (token_of g t hash)))))
          (λ _ _. Unit)
  write_tokens-Triple mid g t hash row resp =
      Triple-bind _ _ _ (Triple-or_status _ _ (create_token-Triple mid "" now (token_of g t hash)))
        (λ _.
          Triple-bind _ _ _ (Triple-or_status _ _ (mark_join_token_used-Triple _ row.id now))
            (λ _. Triple-pure resp (λ s p. (refl, p.1))))

  enroll-Triple :
      (old : Db) (fresh ca : String) (minted : Option Token.Token) (hashed : String → Option String)
      (req : AgentRegisterRequest) (row : Db.Token)
      → Triple
          (λ s. s ≡ old)
          (enroll c now fresh ca minted hashed req row)
          (λ resp s. Enrolled old fresh minted hashed req row resp s)
          (λ _ _. Unit)
  unfolding enroll get_agent_by_name new_agent
  enroll-Triple old fresh ca minted hashed req row =
      Triple-bind (λ _ s. s ≡ old) _ _ (Triple-try_keep (get_agent_by_name req.name) by_name)
        (λ existing. Triple-bind _ _ _ (Triple-guard (λ _ _. tt) _ _) (λ _.
          Triple-bind _ _ _
            (Triple-or_status _ _ (Triple-frame _ (create_agent-Triple old fresh now req.name)))
            (λ g. Triple-bind _ _ _ (Triple-some_or (λ _ _. tt) _ minted) (λ t.
              Triple-bind _ _ _ (Triple-some_or (λ _ _. tt) _ (hashed t.secret)) (λ hash.
                Triple-given
                  ((hashed t.secret ≡ some hash)
                    × (minted ≡ some t)
                    × (g ≡ new_agent fresh now req.name))
                  (λ s. s ≡ with_agent old (new_agent fresh now req.name))
                  (λ s p. ((p.0, p.1.0, p.1.1.1.0), p.1.1.1.1))
                  (λ k.
                    Triple-weaken _ _
                      (λ r s q. record {
                        token = t;
                        hash = hash;
                        is_minted = k.1;
                        is_hashed = k.0;
                        says = (
                          ap (λ (x : AgentRegisterResponse). x.agent_id) q.0
                              ∙ ap (λ (a : Agent). a.id) k.2,
                          ap (λ (x : AgentRegisterResponse). x.agent_token) q.0,
                        );
                        state =
                            subst
                              (λ a.
                                s
                                ≡ used row.id now (
                                    with_token (with_agent old (new_agent fresh now req.name))
                                      (new_token "" now (token_of a t hash))))
                              k.2 q.1;
                      })
                      (λ _ _ _. tt) (write_tokens-Triple _ g t hash row _)))))))
    where
      by_name : Triple (λ s. s ≡ old) (get_agent_by_name req.name) (λ _ s. s ≡ old) (λ _ s. s ≡ old)
      by_name = Triple-read _

  abbrev pub Registered :
      String
      → Option Token.Token
      → (String → Option String)
      → Option AgentRegisterRequest
      → Db
      → AgentRegisterResponse
      → Db
      → Type 0
  Registered fresh minted hashed body old resp s =
      (req : AgentRegisterRequest) × (row : Db.Token) × (body ≡ some req)
      × Joins c now old req.join_token row
      × Enrolled old fresh minted hashed req row resp s

  register-Triple :
      (old : Db) (fresh ca : String) (minted : Option Token.Token) (hashed : String → Option String)
      (body : Option AgentRegisterRequest)
      → Triple
          (λ s. s ≡ old)
          (handle_agent_register c now fresh ca minted hashed body)
          (λ resp s. Registered fresh minted hashed body old resp s)
          (λ _ _. Unit)
  unfolding handle_agent_register
  register-Triple old fresh ca minted hashed body =
      Triple-bind _ _ _ (Triple-some_or (λ _ _. tt) _ body) (λ req.
        Triple-bind _ _ _ (Triple-guard (λ _ _. tt) _ _) (λ _.
          Triple-bind _ _ _
            (Triple-weaken _ _ (λ r s q. q) (λ _ _ _. tt)
              (Triple-frame _ (Triple-frame _ (check_join-Triple c now old req.join_token))))
            (λ row.
              Triple-given ((body ≡ some req) × Joins c now old req.join_token row) (λ s. s ≡ old)
                (λ s p. ((p.1.0, p.1.1.0), p.1.1.1))
                (λ k.
                  Triple-weaken _ _ (λ r s e. (req, row, k.0, k.1, e)) (λ _ _ _. tt)
                    (enroll-Triple old fresh ca minted hashed req row)))))

  -- A registration that is answered has shown a join token that was in order, and has added the
  -- agent and its token and marked the join token, whatever statements the database refuses.
  pub handle_agent_register-Enrolled :
      (fresh ca : String) (minted : Option Token.Token) (hashed : String → Option String)
      (body : Option AgentRegisterRequest) (w : World Db) (resp : AgentRegisterResponse)
      → (handle_agent_register c now fresh ca minted hashed body w).0 ≡ ok resp
      → Registered fresh minted hashed body w.state resp
          (handle_agent_register c now fresh ca minted hashed body w).1.state
  handle_agent_register-Enrolled fresh ca minted hashed body w resp h =
      Outcome-ok (λ r s. Registered fresh minted hashed body w.state r s) (λ _ _. Unit) _ _ resp h
        ((register-Triple w.state fresh ca minted hashed body).at w refl)
