-- ===== src/Server/Agents/Removed.antt =====
-- handleDeleteAgent: what an answered removal has done.
use uncluster.Prelude.{ℕ, String, ◌≡◌, refl, count_where}
use uncluster.Prelude.Exec.{ok, World}
use uncluster.Prelude.Exec.Triple.{Triple, Outcome-ok, Triple-bind, Triple-weaken, Triple-given}
use uncluster.Store.Db.{Agent, Db}
use uncluster.Store.Agents.{is_live_token_of}
use uncluster.Store.Agents.Revocation.{AllRevoked, revoke_agent-Triple}
use uncluster.Server.Http.{or_not_found, missing_or_internal}
use uncluster.Server.Http.Rules.{Triple-or_status}
use uncluster.Server.Resolve.Found.{Resolved, resolve_agent-Triple}
use uncluster.Server.Agents.{handle_delete_agent}

-- The agent that the text names, with its record revoked and none of its tokens live.
abbrev pub Gone : Db → String → Db → Type 0
Gone old name s =
    (g : Agent) × Resolved old name g
    × AllRevoked g.id s
    × (count_where (is_live_token_of g.id) s.tokens ≡ 0)

delete-Triple :
    (old : Db) (name : String) (now : ℕ)
    → Triple (λ s. s ≡ old) (handle_delete_agent name now) (λ _ s. Gone old name s) (λ _ s. s ≡ old)
unfolding handle_delete_agent
delete-Triple old name now =
    Triple-bind (λ g s. Resolved old name g × (s ≡ old)) _ _
      (Triple-or_status or_not_found _ (resolve_agent-Triple old (λ s. s ≡ old) name (λ s e. e)))
      (λ g.
        Triple-given (Resolved old name g) (λ s. s ≡ old) (λ s p. p)
          (λ r. Triple-or_status missing_or_internal _ (
            Triple-weaken _ _ (λ _ s p. (g, r, p.0, p.1)) (λ _ _ e. e)
              (revoke_agent-Triple old g.id now))))

-- A removal that is answered has revoked the agent that its text names, by id or by name, and all
-- of its tokens, whatever statements the database refuses.
pub handle_delete_agent-Gone :
    (name : String) (now : ℕ) (w : World Db)
    → (handle_delete_agent name now w).0 ≡ ok tt
    → Gone w.state name (handle_delete_agent name now w).1.state
handle_delete_agent-Gone name now w h =
    Outcome-ok (λ _ s. Gone w.state name s) (λ _ s. s ≡ w.state) _ _ tt h
      ((delete-Triple w.state name now).at w refl)
