-- ===== src/Server/Resolve.antt =====
-- internal/server/handlers_acl.go, resolveAgent: an agent by its id or its name.
pub mod Found
use uncluster.Prelude.{ℕ, String, Bool, true, false, Option, none, some, if◌then◌else◌, has_prefix}
use uncluster.Prelude.Exec.{Result, World, recover}
use uncluster.Store.Db.{Agent, Sql}
use uncluster.Store.Agents.{get_agent, get_agent_by_name}

-- An id that is not found, or whose read fails, is tried as a name.
unfoldable pub resolve_agent : String → Sql Agent
unfolding has_prefix get_agent get_agent_by_name
resolve_agent id_or_name =
    if has_prefix "ag_" id_or_name
    then recover (λ _. get_agent_by_name id_or_name) (get_agent id_or_name)
    else get_agent_by_name id_or_name
