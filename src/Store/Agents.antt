-- ===== src/Store/Agents.antt =====
-- internal/store/sqlite.go: the agents.
pub mod Created
pub mod Revocation
use Prim.Native.String.{◌++◌ as concat}
use uncluster.Prelude.{
  ℕ, String, Bool, true, false, not, ◌&&◌, ◌||◌, Option, none, some, List, [], ◌∷◌, ◌++◌, ◌==◌, leb,
  if◌then◌else◌, str_eq, find, filter, any, count_where, update_where, sort, map, decimal,
}
use uncluster.Prelude.Signed.{ℤ}
use uncluster.Prelude.Exec.{Result, ok, err, World, pure, raise, ◌>>=◌, ◌>>◌}
use uncluster.Store.Db.{
  StoreError, not_found, agent_name_taken, unique_violation, constraint, AgentStatus, online,
  revoked, TokenKind, Agent, Token, Db, Sql, query, statement, one_row, transaction, unix,
}
use uncluster.Store.Tokens.{is_null, update_tokens}

-- INSERT INTO agents, with its PRIMARY KEY and its UNIQUE name.
unfoldable pub insert_agent : Agent → Db → Result StoreError (Unit {0}) × Db
unfolding any str_eq
insert_agent row db =
    if any (λ g. str_eq g.id row.id || str_eq g.name row.name) db.agents
    then (err unique_violation, db)
    else (ok tt, record db { agents = db.agents ++ row ∷ [] })

unfoldable pub get_agent : String → Sql Agent
unfolding find str_eq
get_agent id = query (λ db. find (λ g. str_eq g.id id) db.agents) >>= one_row

unfoldable pub get_agent_by_name : String → Sql Agent
unfolding find str_eq
get_agent_by_name name = query (λ db. find (λ g. str_eq g.name name) db.agents) >>= one_row

-- A unique violation of the insert is reported as a taken name.
abbrev pub named_violation :
    Result StoreError (Unit {0}) × World Db → Result StoreError (Unit {0}) × World Db
named_violation (err unique_violation, w) = (err agent_name_taken, w)
named_violation (r, w) = (r, w)

unfoldable pub new_agent : String → ℕ → String → Agent
unfolding unix
new_agent fresh now name = record {
  id = fresh;
  name = name;
  created_at = unix now;
  last_seen_at = none;
  status = online;
  agent_version = "";
  fail_closed_after = none;
}

-- `fresh` is "ag_" and the random part of the id.
unfoldable pub create_agent : String → ℕ → String → Sql Agent
unfolding insert_agent get_agent new_agent
create_agent fresh now name =
    (λ w. named_violation (statement (insert_agent (new_agent fresh now name)) w))
    >> get_agent fresh

abbrev pub is_revoked : AgentStatus → Bool
is_revoked revoked = true
is_revoked _ = false

-- WHERE status != 'revoked' ORDER BY created_at DESC
unfoldable pub list_agents : Sql (List Agent)
unfolding sort filter
list_agents = query (λ db.
    sort (λ g h. leb h.created_at g.created_at) (filter (λ g. not (is_revoked g.status)) db.agents))

update_agents : (Agent → Bool) → (Agent → Agent) → Db → Result StoreError ℕ × Db
unfolding count_where update_where
update_agents p f db =
    (ok (count_where p db.agents), record db { agents = update_where p f db.agents })

-- fmt.Sprintf("%s-revoked-%d", currentName, at.Unix())
unfoldable pub revoked_name : String → ℕ → String
unfolding decimal unix
revoked_name name at = concat name (concat "-revoked-" (decimal (unix at)))

-- UPDATE agents SET status = 'revoked', name = ? WHERE id = ?; the name stays UNIQUE.
rename_revoked : String → String → Db → Result StoreError ℕ × Db
unfolding any str_eq update_agents
rename_revoked id name db =
    if any (λ g. str_eq g.name name && not (str_eq g.id id)) db.agents
    then (err unique_violation, db)
    else update_agents (λ g. str_eq g.id id) (λ g. record g { status = revoked; name = name }) db

abbrev is_agent_kind : TokenKind → Bool
is_agent_kind TokenKind.agent = true
is_agent_kind _ = false

abbrev owned_by : String → Option String → Bool
owned_by id none = false
owned_by id (some a) = str_eq a id

-- WHERE agent_id = ? AND kind = 'agent' AND revoked_at IS NULL
abbrev pub is_live_token_of : String → Token → Bool
is_live_token_of id t = owned_by id t.agent_id && (is_agent_kind t.kind && is_null t.revoked_at)

revoke_agent_body : String → ℕ → Sql (Unit {0})
unfolding find str_eq rename_revoked update_tokens revoked_name unix
revoke_agent_body id at = do
  found ← query (λ db. find (λ g. str_eq g.id id) db.agents)
  current ← one_row found
  statement (rename_revoked id (revoked_name current.name at))
  statement (update_tokens (is_live_token_of id) (λ t. record t { revoked_at = some (unix at) }))
  pure tt

unfoldable pub revoke_agent : String → ℕ → Sql (Unit {0})
unfolding transaction revoke_agent_body
revoke_agent id at = transaction (revoke_agent_body id at)

unfoldable pub set_agent_fail_closed_after : String → Option ℤ → Sql (Unit {0})
unfolding update_agents str_eq
set_agent_fail_closed_after id seconds = do
  n ← statement (
      update_agents (λ g. str_eq g.id id && not (is_revoked g.status))
        (λ g. record g { fail_closed_after = seconds }))
  if n == 0 then raise not_found else pure tt

unfoldable pub update_agent_heartbeat : String → String → ℕ → Sql (Unit {0})
unfolding update_agents str_eq unix
update_agent_heartbeat id version at = do
  statement (
      update_agents (λ g. str_eq g.id id)
        (λ g. record g { last_seen_at = some (unix at); agent_version = version; status = online }))
  pure tt
