-- ===== src/Store/Db.antt =====
-- internal/store/store.go: the rows, and internal/store/sqlite.go: how a statement and a
-- transaction run. A table is the list of its rows. Times in rows are whole seconds since the
-- epoch, as the columns hold them and `time.Unix(x, 0)` gives them back; the clock's `now` counts
-- nanoseconds.
pub mod Transaction
use uncluster.Prelude.{ℕ, ◌/◌, ◌*◌, String, Bool, true, false, Option, none, some, List, []}
use uncluster.Prelude.Signed.{ℤ}
use uncluster.Prelude.Exec.{Result, ok, err, World, Exec, attempt, pure, raise, ◌>>=◌, ◌>>◌}

abbrev nanos_per_second : ℕ
nanos_per_second = 1000000000

-- time.Time.Unix
unfoldable pub unix : ℕ → ℕ
unix now = now / nanos_per_second

-- The instant of a column's second, in nanoseconds.
unfoldable pub instant : ℕ → ℕ
instant seconds = seconds * nanos_per_second

-- `constraint` is a foreign-key failure and `io` any refusal by the database itself.
pub data StoreError : Type 0 where
  not_found agent_name_taken token_used token_revoked : StoreError
  unique_violation constraint io : StoreError

pub data AgentStatus : Type 0 where
  online offline revoked : AgentStatus

pub data TokenKind : Type 0 where
  join agent caller : TokenKind

pub record Agent : Type 0 where
  pub id : String
  pub name : String
  pub created_at : ℕ
  pub last_seen_at : Option ℕ
  pub status : AgentStatus
  pub agent_version : String
  pub fail_closed_after : Option ℤ

pub record Token : Type 0 where
  pub id : String
  pub kind : TokenKind
  pub agent_id : Option String
  pub secret_hash : String
  pub label : String
  pub created_at : ℕ
  pub expires_at : Option ℕ
  pub used_at : Option ℕ
  pub revoked_at : Option ℕ

pub record AclEntry : Type 0 where
  pub id : String
  pub caller_token_id : String
  pub agent_id : String
  pub username : String
  pub created_at : ℕ
  pub created_by : Option String

-- A row of agent_policy_versions.
pub record PolicyVersion : Type 0 where
  pub agent_id : String
  pub version : ℕ
  pub hash : String

pub record PolicyPrincipal : Type 0 where
  pub username : String
  pub caller_token_ids : List String

pub record PolicySnapshot : Type 0 where
  pub agent_id : String
  pub version : ℕ
  pub hash : String
  pub principals : List PolicyPrincipal

pub record AgentPolicyState : Type 0 where
  pub agent_id : String
  pub desired_version : Option ℕ
  pub applied_version : ℕ
  pub applied_hash : String
  pub last_apply_status : String
  pub last_apply_error : Option String
  pub last_apply_at : ℕ
  pub updated_at : ℕ

pub data CertOutcome : Type 0 where
  signed denied : CertOutcome

-- The empty text stands for SQL's NULL in the nullable columns, as `nullString` writes it.
pub record CertEvent : Type 0 where
  pub request_id : String
  pub ts : ℕ
  pub caller_token_id : String
  pub target_agent_id : String
  pub username : String
  pub cert_principal : String
  pub pubkey_fp : String
  pub ttl_seconds : ℤ
  pub serial : ℕ
  pub key_id : String
  pub outcome : CertOutcome
  pub denial_reason : String

pub record UpdatePolicy : Type 0 where
  pub expected_version : String
  pub asset_url_template : String
  pub sha256_url_template : String
  pub force : Bool
  pub updated_at : ℕ

-- A row of agent_endpoints.
pub record EndpointRow : Type 0 where
  pub agent_id : String
  pub subnet : String
  pub address : String

pub record Db : Type 0 where
  pub tokens : List Token
  pub agents : List Agent
  pub acl : List AclEntry
  pub versions : List PolicyVersion
  pub policy_states : List AgentPolicyState
  pub endpoints : List EndpointRow
  pub cert_events : List CertEvent
  pub update_policy : Option UpdatePolicy

abbrev pub empty_db : Db
empty_db = record {
  tokens = [];
  agents = [];
  acl = [];
  versions = [];
  policy_states = [];
  endpoints = [];
  cert_events = [];
  update_policy = none;
}

abbrev pub Sql : Type 0 → Type 0
Sql A = Exec StoreError Db A

-- QueryContext, QueryRowContext: a statement that reads.
abbrev pub query : {A : Type 0} → (Db → A) → Sql A
query f = attempt io (λ db. (ok (f db), db))

-- ExecContext: a statement that writes, or is refused by a constraint.
abbrev pub statement : {A : Type 0} → (Db → Result StoreError A × Db) → Sql A
statement f = attempt io f

abbrev pub rolled_back :
    {A : Type 0} → Db → Result StoreError A × World Db → Result StoreError A × World Db
rolled_back old (ok a, w) = (ok a, w)
rolled_back old (err e, w) = (err e, record w { state = old })

-- BeginTx, the body, Commit, and the deferred Rollback, which undoes the writes of every path
-- that does not reach a successful Commit.
unfoldable pub transaction : {A : Type 0} → Sql A → Sql A
transaction body w = rolled_back w.state ((query (λ _. tt) >> (body >>= λ a. query (λ _. a))) w)

-- The single row of QueryRow, or sql.ErrNoRows, which the scanners turn into ErrNotFound.
abbrev pub one_row : {A : Type 0} → Option A → Sql A
one_row none = raise not_found
one_row (some a) = pure a
