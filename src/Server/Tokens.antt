-- ===== src/Server/Tokens.antt =====
-- internal/server/handlers_tokens.go: the operator's view of the tokens. The new token and the
-- outcome of the hash are arguments; none stands for a failure of the random source.
use uncluster.Prelude.{ℕ, ◌+◌, String, Option, none, some, List, map, if◌then◌else◌, str_eq}
use uncluster.Prelude.Exec.{pure, ◌>>=◌}
use uncluster.Token
use uncluster.Token.{to_text}
use uncluster.Store.Db.{TokenKind, unix}
use uncluster.Store.Db
use uncluster.Store.Tokens.{create_token, list_tokens, revoke_token}
use uncluster.Server.Http.{
  bad_request, internal, Http, or_status, or_internal, or_not_found, some_or,
}

pub record CreateTokenRequest : Type 0 where
  pub kind : String
  pub label : String
  pub expires_at : Option ℕ

pub record CreateTokenResponse : Type 0 where
  pub id : String
  pub token : String

pub record TokenSummary : Type 0 where
  pub id : String
  pub kind : TokenKind
  pub label : String
  pub created_at : ℕ
  pub expires_at : Option ℕ
  pub used_at : Option ℕ
  pub revoked_at : Option ℕ

-- Agent tokens are made by the registration only.
unfoldable pub requested_kind : String → Option TokenKind
unfolding str_eq
requested_kind s =
    if str_eq s "join"
    then some TokenKind.join
    else if str_eq s "caller"
    then some TokenKind.caller
    else none

-- A join token without a wish expires 15 minutes from now.
unfoldable pub expiry : ℕ → TokenKind → Option ℕ → Option ℕ
unfolding unix
expiry now kind (some e) = some e
expiry now TokenKind.join none = some (unix now + 900)
expiry now kind none = none

unfoldable pub handle_create_token :
    ℕ
    → (TokenKind → Option Token.Token)
    → (String → Option String)
    → Option CreateTokenRequest
    → Http CreateTokenResponse
unfolding requested_kind expiry create_token to_text
handle_create_token now generate hashed body = do
  req ← some_or bad_request body
  kind ← some_or bad_request (requested_kind req.kind)
  t ← some_or internal (generate kind)
  hash ← some_or internal (hashed t.secret)
  row ← or_status or_internal (
      create_token "" now (record {
        id = t.id;
        kind = kind;
        agent_id = none;
        secret_hash = hash;
        label = req.label;
        expires_at = expiry now kind req.expires_at;
      }))
  pure (record { id = row.id; token = to_text (record t { id = row.id }) })

abbrev token_summary : Db.Token → TokenSummary
token_summary t = record {
  id = t.id;
  kind = t.kind;
  label = t.label;
  created_at = t.created_at;
  expires_at = t.expires_at;
  used_at = t.used_at;
  revoked_at = t.revoked_at;
}

unfoldable pub handle_list_tokens : Http (List TokenSummary)
unfolding list_tokens
handle_list_tokens = do rows ← or_status or_internal list_tokens; pure (map token_summary rows)

-- Every error is a 404.
unfoldable pub handle_revoke_token : String → ℕ → Http (Unit {0})
unfolding revoke_token
handle_revoke_token id now = or_status or_not_found (revoke_token id now)
