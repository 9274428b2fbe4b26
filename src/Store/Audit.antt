-- ===== src/Store/Audit.antt =====
-- internal/store/sqlite.go: the audit rows of certificate issuance.
use uncluster.Prelude.{
  ℕ, String, Bool, true, not, ◌&&◌, ◌||◌, Option, none, some, List, [], ◌∷◌, ◌++◌, leb,
  if◌then◌else◌, str_eq, filter, any, sort, take,
}
use uncluster.Prelude.Signed.{ℤ, pos, negsuc, ltb_ℤ}
use uncluster.Prelude.Exec.{ok}
use uncluster.Store.Db.{CertOutcome, signed, denied, CertEvent, Db, Sql, query, statement}

pub record CertEventFilter : Type 0 where
  pub caller_token_id : String
  pub agent_id : String
  pub username : String
  pub outcome : String
  pub since : Option ℤ
  pub limit : ℤ

-- The row is skipped in silence where its request id is taken, or its caller NULL.
abbrev pub is_skipped : CertEvent → Db → Bool
is_skipped row db =
    any (λ e. str_eq e.request_id row.request_id) db.cert_events || str_eq row.caller_token_id ""

-- INSERT OR IGNORE INTO cert_issuance_events
unfoldable pub with_event : CertEvent → Db → Db
unfolding any str_eq
with_event row db =
    if is_skipped row db then db else record db { cert_events = db.cert_events ++ row ∷ [] }

unfoldable pub write_cert_event : CertEvent → Sql (Unit {0})
unfolding with_event
write_cert_event row = statement (λ db. (ok tt, with_event row db))

abbrev outcome_text : CertOutcome → String
outcome_text signed = "signed"
outcome_text denied = "denied"

-- The empty text where there is no filter.
abbrev passes : String → String → Bool
passes wanted actual = str_eq wanted "" || str_eq actual wanted

abbrev is_since : Option ℤ → ℕ → Bool
is_since none ts = true
is_since (some s) ts = not (ltb_ℤ (pos ts) s)

unfoldable pub is_selected : CertEventFilter → CertEvent → Bool
unfolding str_eq
is_selected f e =
    passes f.caller_token_id e.caller_token_id
    && (passes f.agent_id e.target_agent_id
        && (passes f.username e.username
            && (passes f.outcome (outcome_text e.outcome) && is_since f.since e.ts)))

-- limit <= 0 || limit > 1000 falls back to 100.
unfoldable pub effective_limit : ℤ → ℕ
effective_limit (negsuc n) = 100
effective_limit (pos n) = if leb n 0 || not (leb n 1000) then 100 else n

-- ORDER BY ts DESC LIMIT ?
unfoldable pub list_cert_events : CertEventFilter → Sql (List CertEvent)
unfolding take sort filter is_selected effective_limit
list_cert_events f = query (λ db.
    take (effective_limit f.limit)
      (sort (λ d e. leb e.ts d.ts) (filter (is_selected f) db.cert_events)))
