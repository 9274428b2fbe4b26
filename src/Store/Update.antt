-- ===== src/Store/Update.antt =====
-- internal/store/sqlite.go: the update policy, a table of at most one row.
use uncluster.Prelude.{ℕ, String, Bool, some}
use uncluster.Prelude.Exec.{Result, ok, ◌>>=◌}
use uncluster.Store.Db.{StoreError, UpdatePolicy, Db, Sql, query, statement, one_row, unix}

pub record SetUpdatePolicyParams : Type 0 where
  pub expected_version : String
  pub asset_url_template : String
  pub sha256_url_template : String
  pub force : Bool

abbrev pub get_update_policy : Sql UpdatePolicy
get_update_policy = query (λ db. db.update_policy) >>= one_row

-- INSERT ... ON CONFLICT(id) DO UPDATE SET, for the row with id 1
abbrev put_policy : UpdatePolicy → Db → Result StoreError (Unit {0}) × Db
put_policy p db = (ok tt, record db { update_policy = some p })

unfoldable pub set_update_policy : ℕ → SetUpdatePolicyParams → Sql (Unit {0})
unfolding unix
set_update_policy now p = statement (
    put_policy (record {
      expected_version = p.expected_version;
      asset_url_template = p.asset_url_template;
      sha256_url_template = p.sha256_url_template;
      force = p.force;
      updated_at = unix now;
    }))
