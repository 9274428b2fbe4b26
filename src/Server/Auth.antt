-- ===== src/Server/Auth.antt =====
-- internal/server/middleware_auth.go: who may go on to a handler.
pub mod Sound
pub mod Gone
use uncluster.Prelude.{
  ℕ, String, Bool, true, false, not, ◌&&◌, Option, none, some, if◌then◌else◌, ltb, str_eq,
  trim_space,
}
use uncluster.Prelude.Exec.{Result, World, pure, raise, ◌>>=◌, ◌>>◌}
use uncluster.Token
use uncluster.Token.{Kind, Crypto, parse, strip_prefix, verify_secret}
use uncluster.Store.Db.{TokenKind, Token, Agent, Db, instant}
use uncluster.Store.Tokens.{get_token_by_id, is_null}
use uncluster.Store.Agents.{get_agent, is_revoked}
use uncluster.Server.Http.{Status, unauthorized, gone, Http, or_status, guard, some_or}

abbrev bearer_rest : Option String → String
bearer_rest none = ""
bearer_rest (some rest) = trim_space rest

unfoldable pub bearer_from : String → String
unfolding strip_prefix trim_space
bearer_from h = bearer_rest (strip_prefix "Bearer " h)

-- store.TokenKind(parsed.Kind) == row.Kind
abbrev pub kind_matches : Kind → TokenKind → Bool
kind_matches Kind.join TokenKind.join = true
kind_matches Kind.agent TokenKind.agent = true
kind_matches Kind.caller TokenKind.caller = true
kind_matches _ _ = false

abbrev pub same_kind : TokenKind → TokenKind → Bool
same_kind TokenKind.join TokenKind.join = true
same_kind TokenKind.agent TokenKind.agent = true
same_kind TokenKind.caller TokenKind.caller = true
same_kind _ _ = false

-- ExpiresAt != nil && ExpiresAt.Before(now)
unfoldable pub expired : Option ℕ → ℕ → Bool
unfolding instant
expired none now = false
expired (some e) now = ltb (instant e) now

abbrev pub used_join : TokenKind → Option ℕ → Bool
used_join TokenKind.join used = not (is_null used)
used_join _ used = false

abbrev pub is_true : Option Bool → Bool
is_true (some true) = true
is_true _ = false

abbrev check_agent : Agent → Http (Option Agent)
check_agent g = if is_revoked g.status then raise gone else pure (some g)

-- The record that an agent token is linked to; a revoked one answers 410.
linked : TokenKind → Option String → Http (Option Agent)
unfolding get_agent
linked TokenKind.agent none = raise unauthorized
linked TokenKind.agent (some id) = or_status (λ _. unauthorized) (get_agent id) >>= check_agent
linked _ _ = pure none

module _ (c : Crypto) (now : ℕ) where
  -- The checks for all kinds, the expensive one last.
  unfoldable pub row_ok : Token → String → Bool
  unfolding expired
  row_ok row secret =
      is_null row.revoked_at
      && (not (expired row.expires_at now)
          && (not (used_join row.kind row.used_at)
              && is_true (verify_secret c secret row.secret_hash)))

  unfoldable pub require_auth : TokenKind → String → Http (Token × Option Agent)
  unfolding bearer_from get_token_by_id linked row_ok
  require_auth required header = do
    let raw = bearer_from header
    guard (not (str_eq raw "")) unauthorized
    parsed ← some_or unauthorized (parse c raw)
    row ← or_status (λ _. unauthorized) (get_token_by_id parsed.id)
    guard (kind_matches parsed.kind row.kind) unauthorized
    guard (same_kind row.kind required) unauthorized
    agent ← linked row.kind row.agent_id
    guard (row_ok row parsed.secret) unauthorized
    pure (row, agent)
