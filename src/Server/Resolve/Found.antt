-- ===== src/Server/Resolve/Found.antt =====
-- What resolveAgent finds.
use uncluster.Prelude.{String, ◌≡◌, some, ◌⊎◌, inl, inr, str_eq, find, has_prefix}
use uncluster.Prelude.Exec.Triple.{Triple, Triple-if, Triple-recover, Triple-weaken}
use uncluster.Store.Db.{Agent, Db}
use uncluster.Store.Agents.{get_agent, get_agent_by_name}
use uncluster.Server.Http.Rules.{Triple-row}
use uncluster.Server.Resolve.{resolve_agent}

-- The record has the text as its id or as its name.
abbrev pub Resolved : Db → String → Agent → Type 0
Resolved db s g =
    (find (λ x. str_eq x.id s) db.agents ≡ some g)
    ⊎ (find (λ x. str_eq x.name s) db.agents ≡ some g)

pub resolve_agent-Triple :
    (old : Db) (P : Db → Type 0) (s : String)
    → ((t : Db) → P t → t ≡ old)
    → Triple P (resolve_agent s) (λ g t. Resolved old s g × P t) (λ _. P)
unfolding resolve_agent get_agent get_agent_by_name
resolve_agent-Triple old P s known =
    Triple-if (has_prefix "ag_" s) _ _
      (λ _.
        Triple-recover (λ _. P) (λ _. get_agent_by_name s) (get_agent s)
          (Triple-weaken _ _ (λ g t p. (inl p.0, p.1)) (λ e t p. p)
            (Triple-row (λ t p. p) old _ known))
          (λ _. by_name))
      (λ _. by_name)
  where
    by_name : Triple P (get_agent_by_name s) (λ g t. Resolved old s g × P t) (λ _. P)
    by_name =
        Triple-weaken _ _ (λ g t p. (inr p.0, p.1)) (λ e t p. p) (Triple-row (λ t p. p) old _ known)
