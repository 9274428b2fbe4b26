-- ===== src/Server/Acl.antt =====
-- internal/server/handlers_acl.go: the grants.
use uncluster.Prelude.{ℕ, String, Bool, true, false, not, ◌||◌, Option, none, List, map, str_eq}
use uncluster.Prelude.Exec.{pure, ◌>>=◌, ◌>>◌}
use uncluster.Store.Db.{TokenKind, AclEntry}
use uncluster.Store.Tokens.{get_token_by_id}
use uncluster.Store.Acl.{create_acl, delete_acl, list_acl}
use uncluster.Server.Http.{
  bad_request, Http, or_status, or_internal, or_not_found, missing_or_internal, guard, some_or,
}
use uncluster.Server.Resolve.{resolve_agent}

pub record CreateAclRequest : Type 0 where
  pub caller : String
  pub agent : String
  pub username : String

pub record AclEntrySummary : Type 0 where
  pub id : String
  pub caller_token_id : String
  pub agent_id : String
  pub username : String
  pub created_at : ℕ
  pub created_by : Option String

abbrev pub acl_summary : AclEntry → AclEntrySummary
acl_summary e = record {
  id = e.id;
  caller_token_id = e.caller_token_id;
  agent_id = e.agent_id;
  username = e.username;
  created_at = e.created_at;
  created_by = e.created_by;
}

abbrev is_caller : TokenKind → Bool
is_caller TokenKind.caller = true
is_caller _ = false

unfoldable pub handle_create_acl :
    (List ℕ → String) → String → ℕ → Option CreateAclRequest → Http AclEntrySummary
unfolding get_token_by_id resolve_agent create_acl str_eq
handle_create_acl sum_hex fresh now body = do
  req ← some_or bad_request body
  guard (not (str_eq req.caller "" || (str_eq req.agent "" || str_eq req.username ""))) bad_request
  token ← or_status or_not_found (get_token_by_id req.caller)
  guard (is_caller token.kind) bad_request
  g ← or_status or_not_found (resolve_agent req.agent)
  entry ← or_status or_internal (
      create_acl sum_hex fresh now (record {
        caller_token_id = token.id;
        agent_id = g.id;
        username = req.username;
        created_by = none;
      }))
  pure (acl_summary entry)

unfoldable pub handle_delete_acl : (List ℕ → String) → String → Http (Unit {0})
unfolding delete_acl
handle_delete_acl sum_hex id = or_status missing_or_internal (delete_acl sum_hex id)

unfoldable pub handle_list_acl : String → String → Http (List AclEntrySummary)
unfolding list_acl
handle_list_acl caller agent = do
  entries ← or_status or_internal (list_acl (record { caller_token_id = caller; agent_id = agent }))
  pure (map acl_summary entries)
