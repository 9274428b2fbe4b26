-- ===== src/Server/AuditLog.antt =====
-- internal/server/handlers_audit.go: the listing of the audit rows. `strconv` is a parameter: the
-- number that a text is, or none.
use uncluster.Prelude.{String, Option, none, some, List, if◌then◌else◌, str_eq}
use uncluster.Prelude.Signed.{ℤ, pos, ltb_ℤ}
use uncluster.Store.Db.{CertEvent}
use uncluster.Store.Audit.{CertEventFilter, list_cert_events}
use uncluster.Server.Http.{Http, or_status, or_internal}

-- The query parameters, the empty text where one is missing.
pub record AuditQuery : Type 0 where
  pub caller : String
  pub agent : String
  pub user : String
  pub outcome : String
  pub since : String
  pub limit : String

-- A limit that is not a positive number reads as none given.
abbrev positive_or_zero : Option ℤ → ℤ
positive_or_zero none = pos 0
positive_or_zero (some n) = if ltb_ℤ (pos 0) n then n else pos 0

unfoldable pub filter_of : (String → Option ℤ) → AuditQuery → CertEventFilter
unfolding str_eq
filter_of parse_int q = record {
  caller_token_id = q.caller;
  agent_id = q.agent;
  username = q.user;
  outcome = q.outcome;
  since = if str_eq q.since "" then none else parse_int q.since;
  limit = if str_eq q.limit "" then pos 0 else positive_or_zero (parse_int q.limit);
}

-- The summary of a row has the row's fields.
unfoldable pub handle_list_cert_events : (String → Option ℤ) → AuditQuery → Http (List CertEvent)
unfolding filter_of list_cert_events
handle_list_cert_events parse_int q =
    or_status or_internal (list_cert_events (filter_of parse_int q))
