-- ===== src/Tests/ServerRuns.antt =====
-- The handlers at concrete inputs.
use uncluster.Prelude.{String, ◌≡◌, refl, none, some, [], ◌∷◌, str_eq, find}
use uncluster.Prelude.Exec.{ok, err, attempt}
use uncluster.Token
use uncluster.Token.{Kind, parse, verify_secret, to_text}
use uncluster.Store.Db.{TokenKind, AgentStatus, Agent, Db}
use uncluster.Server.Http.{gone}
use uncluster.Server.Auth.{bearer_from, require_auth}
use uncluster.Server.Auth.Sound.{Authentic, require_auth-Authentic, require_auth_complete}
use uncluster.Server.Auth.Gone.{Expelled, require_auth-Expelled}
use uncluster.Server.Register.{AgentRegisterRequest, AgentRegisterResponse, handle_agent_register}
use uncluster.Server.Register.Enrolled.{Registered, handle_agent_register-Enrolled}
use uncluster.Server.Heartbeat.{
  V2HeartbeatRequest, V2HeartbeatResponse, PolicyPayload, handle_v2_heartbeat,
}
use uncluster.Server.Heartbeat.Answer.{Answers, Untouched, handle_v2_heartbeat-Answers}
use uncluster.Tests.Fixtures.{
  crypto, clock, secret, caller_id, agent_token_id, row_of, web, plain_db, granted_db, quiet,
}

abbrev pub caller_header : String
caller_header =
    "Bearer uct_caller_AAAAAAAAAAAAAAAB_AAAAAAAAAAAAAAAAAAAAAAAAAAAAAAAAAAAAAAAAAAAAAAAAAAAB"

abbrev pub agent_header : String
agent_header =
    "Bearer uct_agent_AAAAAAAAAAAAAABB_AAAAAAAAAAAAAAAAAAAAAAAAAAAAAAAAAAAAAAAAAAAAAAAAAAAB"

authentic_run :
    (require_auth crypto clock TokenKind.caller caller_header (quiet plain_db)).0
    ≡ ok (row_of caller_id TokenKind.caller none, none)
unfolding require_auth plain_db quiet crypto row_of attempt parse verify_secret
authentic_run = refl

require_auth-Authentic_example :
    Authentic crypto clock plain_db TokenKind.caller caller_header
      (row_of caller_id TokenKind.caller none)
      none
    × ((require_auth crypto clock TokenKind.caller caller_header (quiet plain_db)).1.state
        ≡ plain_db)
unfolding quiet
require_auth-Authentic_example =
    require_auth-Authentic crypto clock TokenKind.caller caller_header (quiet plain_db)
      (row_of caller_id TokenKind.caller none) none authentic_run

authentic :
    Authentic crypto clock plain_db TokenKind.caller caller_header
      (row_of caller_id TokenKind.caller none)
      none
unfolding quiet
authentic =
    (require_auth-Authentic crypto clock TokenKind.caller caller_header (quiet plain_db)
      (row_of caller_id TokenKind.caller none) none authentic_run).0

require_auth_complete_example :
    require_auth crypto clock TokenKind.caller caller_header
      (record { state = plain_db; faults = [] })
    ≡ (ok (row_of caller_id TokenKind.caller none, none), record { state = plain_db; faults = [] })
require_auth_complete_example =
    require_auth_complete crypto clock plain_db TokenKind.caller caller_header
      (row_of caller_id TokenKind.caller none) none authentic

abbrev dead : Agent
dead = record web { status = AgentStatus.revoked }

unfoldable dead_db : Db
unfolding plain_db
dead_db = record plain_db { agents = dead ∷ [] }

abbrev agent_parsed : Token.Token
agent_parsed = record { kind = Kind.agent; id = agent_token_id; secret = secret }

gone_reads : parse crypto (bearer_from agent_header) ≡ some agent_parsed
unfolding parse bearer_from crypto
gone_reads = refl

gone_row :
    find (λ t. str_eq t.id agent_token_id) dead_db.tokens
    ≡ some (row_of agent_token_id TokenKind.agent (some "ag_1"))
unfolding dead_db row_of find str_eq
gone_row = refl

gone_agent : find (λ g. str_eq g.id "ag_1") dead_db.agents ≡ some dead
unfolding dead_db find str_eq
gone_agent = refl

expelled : Expelled crypto dead_db agent_header
unfolding row_of
expelled = record {
  parsed = agent_parsed;
  row = row_of agent_token_id TokenKind.agent (some "ag_1");
  id = "ag_1";
  agent = dead;
  reads = gone_reads;
  found = gone_row;
  claims = refl;
  kind = refl;
  link = refl;
  linked_to = gone_agent;
  dead = refl;
}

require_auth-Expelled_example :
    ((required : TokenKind)
      → (require_auth crypto clock required agent_header (quiet dead_db)).0 ≡ err gone
      → Expelled crypto (quiet dead_db).state agent_header)
    × ((quiet dead_db).faults ≡ []
        → Expelled crypto (quiet dead_db).state agent_header
        → (require_auth crypto clock TokenKind.agent agent_header (quiet dead_db)).0 ≡ err gone)
require_auth-Expelled_example = require_auth-Expelled crypto clock agent_header (quiet dead_db)

-- The conditions of both directions are met.
gone_run : (require_auth crypto clock TokenKind.agent agent_header (quiet dead_db)).0 ≡ err gone
unfolding quiet
gone_run = require_auth-Expelled_example.1 refl expelled

abbrev new_agent_token : Token.Token
new_agent_token = record { kind = Kind.agent; id = "AAAAAAAAAAAABBBB"; secret = secret }

abbrev registration : AgentRegisterRequest
registration = record {
  name = "db";
  join_token = "uct_join_AAAAAAAAAAAAABBB_AAAAAAAAAAAAAAAAAAAAAAAAAAAAAAAAAAAAAAAAAAAAAAAAAAAB";
  os = "linux";
}

abbrev registered : AgentRegisterResponse
registered = record {
  agent_id = "ag_2";
  agent_token = "uct_agent_AAAAAAAAAAAABBBB_AAAAAAAAAAAAAAAAAAAAAAAAAAAAAAAAAAAAAAAAAAAAAAAAAAAB";
  ca_pubkey = "ca";
  expected_paths = record {
    ca_pubkey = "/etc/ssh/uncluster_ca.pub";
    ssh_drop_in = "/etc/ssh/sshd_config.d/uncluster.conf";
    principals_dir = "/etc/ssh/auth_principals";
  };
}

registered_run :
    (handle_agent_register crypto clock "ag_2" "ca"
      (some new_agent_token)
      (λ s. some "hash")
      (some registration)
      (quiet plain_db)).0
    ≡ ok registered
unfolding handle_agent_register plain_db quiet crypto row_of attempt parse verify_secret
registered_run = refl

handle_agent_register-Enrolled_example :
    Registered crypto clock "ag_2"
      (some new_agent_token)
      (λ s. some "hash")
      (some registration)
      plain_db
      registered
      (handle_agent_register crypto clock "ag_2" "ca"
        (some new_agent_token)
        (λ s. some "hash")
        (some registration)
        (quiet plain_db)).1.state
unfolding quiet
handle_agent_register-Enrolled_example =
    handle_agent_register-Enrolled crypto clock "ag_2" "ca" (some new_agent_token)
      (λ s. some "hash") (some registration) (quiet plain_db) registered registered_run

abbrev pub beat : V2HeartbeatRequest
beat = record {
  agent_version = "v1";
  observed_at = 1999999999;
  endpoints = [];
  policy_state = record {
    desired_version = none;
    applied_version = 0;
    applied_hash = "";
    last_apply_status = "";
    last_apply_error = none;
    last_apply_at = 0;
  };
}

abbrev pub payload : PolicyPayload
payload = record {
  version = 1;
  hash = "blake3:22";
  principals = record { username = "root"; caller_token_ids = caller_id ∷ [] } ∷ [];
}

abbrev pub beat_response : V2HeartbeatResponse
beat_response = record {
  ack_ts = 1999999999;
  server_time = 2000000000;
  policy = some payload;
  commands = [];
  fail_closed_after = none;
}

beat_run :
    (handle_v2_heartbeat clock web (some beat) (record { state = granted_db; faults = [] })).0
    ≡ ok beat_response
unfolding handle_v2_heartbeat granted_db attempt
beat_run = refl

handle_v2_heartbeat-Answers_example :
    Answers granted_db "ag_1" beat payload
    × Untouched granted_db
        (handle_v2_heartbeat clock web
          (some beat)
          (record { state = granted_db; faults = [] })).1.state
handle_v2_heartbeat-Answers_example =
    handle_v2_heartbeat-Answers clock web granted_db beat [] beat_response payload beat_run refl

pub payload-Answers : (b : V2HeartbeatRequest) × Answers granted_db "ag_1" b payload
payload-Answers = (
  beat,
  (handle_v2_heartbeat-Answers clock web granted_db beat [] beat_response payload beat_run refl).0,
)
