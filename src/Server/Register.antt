-- ===== src/Server/Register.antt =====
-- internal/server/handlers_agent.go, handleAgentRegister: a join token is turned into an Agent and
-- its own token. The new ids and the new token are arguments, as is the outcome of the hash.
pub mod Joined
pub mod Enrolled
use Prim.Native.String.{◌++◌ as concat}
use uncluster.Prelude.{
  ℕ, String, Bool, true, false, not, ◌&&◌, ◌||◌, Option, none, some, if◌then◌else◌, str_eq,
}
use uncluster.Prelude.Exec.{Result, ok, err, World, pure, raise, ◌>>=◌, ◌>>◌}
use uncluster.Token
use uncluster.Token.{Kind, Crypto, parse, verify_secret, to_text}
use uncluster.Store.Db.{StoreError, TokenKind, Agent, Db}
use uncluster.Store.Db
use uncluster.Store.Tokens.{get_token_by_id, create_token, mark_join_token_used, is_null}
use uncluster.Store.Agents.{get_agent_by_name, create_agent}
use uncluster.Server.Http.{
  Status, bad_request, unauthorized, conflict, internal, Http, or_status, or_internal, guard,
  some_or, try,
}
use uncluster.Server.Auth.{expired, is_true}

pub record AgentRegisterRequest : Type 0 where
  pub name : String
  pub join_token : String
  pub os : String

pub record ExpectedPaths : Type 0 where
  pub ca_pubkey : String
  pub ssh_drop_in : String
  pub principals_dir : String

pub record AgentRegisterResponse : Type 0 where
  pub agent_id : String
  pub agent_token : String
  pub ca_pubkey : String
  pub expected_paths : ExpectedPaths

-- api.ExpectedPathsFor
unfoldable pub expected_paths_for : String → ExpectedPaths
unfolding str_eq
expected_paths_for goos =
    if str_eq goos "windows"
    then record {
      ca_pubkey = "C:\\ProgramData\\ssh\\uncluster_ca.pub";
      ssh_drop_in = "C:\\ProgramData\\ssh\\sshd_config.d\\uncluster.conf";
      principals_dir = "C:\\ProgramData\\ssh\\auth_principals";
    }
    else record {
      ca_pubkey = "/etc/ssh/uncluster_ca.pub";
      ssh_drop_in = "/etc/ssh/sshd_config.d/uncluster.conf";
      principals_dir = "/etc/ssh/auth_principals";
    }

abbrev is_join_text : Kind → Bool
is_join_text Kind.join = true
is_join_text _ = false

abbrev is_join_row : TokenKind → Bool
is_join_row TokenKind.join = true
is_join_row _ = false

abbrev is_some : {A : Type 0} → Option A → Bool
is_some none = false
is_some (some _) = true

-- The error of CreateAgent.
abbrev taken_or_internal : StoreError → Status
taken_or_internal Db.agent_name_taken = conflict
taken_or_internal e = internal

module _ (c : Crypto) (now : ℕ) where
  -- The checks of the join token.
  unfoldable pub join_ok : Db.Token → String → Bool
  unfolding expired
  join_ok row secret =
      is_null row.used_at
      && (is_null row.revoked_at
          && (not (expired row.expires_at now) && is_true (verify_secret c secret row.secret_hash)))

  -- The join token's row, by the text of the token.
  unfoldable pub check_join : String → Http Db.Token
  unfolding get_token_by_id join_ok
  check_join text = do
    parsed ← some_or unauthorized (parse c text)
    guard (is_join_text parsed.kind) unauthorized
    row ← or_status (λ _. unauthorized) (get_token_by_id parsed.id)
    guard (is_join_row row.kind) unauthorized
    guard (join_ok row parsed.secret) unauthorized
    pure row

  -- `fresh` is the new agent's id, `minted` the new token (none where no random bytes could be
  -- read), and `hashed` the hash of its secret.
  unfoldable pub enroll :
      String
      → String
      → Option Token.Token
      → (String → Option String)
      → AgentRegisterRequest
      → Db.Token
      → Http AgentRegisterResponse
  unfolding get_agent_by_name create_agent create_token mark_join_token_used to_text
      expected_paths_for
  enroll fresh ca minted hashed req row = do
    existing ← try (get_agent_by_name req.name)
    guard (not (is_some existing)) conflict
    g ← or_status taken_or_internal (create_agent fresh now req.name)
    t ← some_or internal minted
    hash ← some_or internal (hashed t.secret)
    or_status or_internal (
        create_token "" now (record {
          id = t.id;
          kind = TokenKind.agent;
          agent_id = some g.id;
          secret_hash = hash;
          label = concat "agent:" g.name;
          expires_at = none;
        }))
    or_status or_internal (mark_join_token_used row.id now)
    pure (record {
      agent_id = g.id;
      agent_token = to_text t;
      ca_pubkey = ca;
      expected_paths = expected_paths_for req.os;
    })

  unfoldable pub handle_agent_register :
      String
      → String
      → Option Token.Token
      → (String → Option String)
      → Option AgentRegisterRequest
      → Http AgentRegisterResponse
  unfolding check_join enroll str_eq
  handle_agent_register fresh ca minted hashed body = do
    req ← some_or bad_request body
    guard (not (str_eq req.name "" || str_eq req.join_token "")) bad_request
    row ← check_join req.join_token
    enroll fresh ca minted hashed req row
