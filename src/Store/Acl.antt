-- ===== src/Store/Acl.antt =====
-- internal/store/sqlite.go: the ACL rows, the policy version of each agent, and the snapshot.
-- `sum_hex` is the hexadecimal BLAKE3 sum that the policy hash is made of.
pub mod Versions
pub mod Synced
pub mod Invariant
pub mod Snapshot
pub mod Listing
use uncluster.Prelude.{
  ℕ, ◌+◌, String, Bool, ◌&&◌, ◌||◌, not, Option, none, some, List, [], ◌∷◌, ◌++◌, ◌==◌, map, leb,
  if◌then◌else◌, str_eq, find, filter, any, count_where, update_where, sort,
}
use uncluster.Prelude.Exec.{Result, ok, err, World, pure, raise, ◌>>=◌, ◌>>◌}
use uncluster.PolicyHash.{Grant, sort_grants, hash}
use uncluster.Store.Db.{
  StoreError, not_found, unique_violation, constraint, AclEntry, PolicyVersion, PolicyPrincipal,
  PolicySnapshot, Db, Sql, query, statement, one_row, transaction, unix,
}

pub record CreateAclParams : Type 0 where
  pub caller_token_id : String
  pub agent_id : String
  pub username : String
  pub created_by : Option String

pub record ListAclFilter : Type 0 where
  pub caller_token_id : String
  pub agent_id : String

-- WHERE caller_token_id = ? AND agent_id = ? AND username = ?
abbrev pub is_triple : String → String → String → AclEntry → Bool
is_triple caller agent user e =
    str_eq e.caller_token_id caller && (str_eq e.agent_id agent && str_eq e.username user)

-- The PRIMARY KEY and the UNIQUE constraint of the table.
abbrev pub conflicts : AclEntry → AclEntry → Bool
conflicts row e = str_eq e.id row.id || is_triple row.caller_token_id row.agent_id row.username e

-- INSERT INTO acl: PRIMARY KEY, UNIQUE (caller_token_id, agent_id, username), REFERENCES agents.
unfoldable pub insert_acl : AclEntry → Db → Result StoreError (Unit {0}) × Db
unfolding any
insert_acl row db =
    if any (conflicts row) db.acl
    then (err unique_violation, db)
    else if any (λ g. str_eq g.id row.agent_id) db.agents
    then (ok tt, record db { acl = db.acl ++ row ∷ [] })
    else (err constraint, db)

unfoldable pub get_acl : String → Sql AclEntry
unfolding find
get_acl id = query (λ db. find (λ e. str_eq e.id id) db.acl) >>= one_row

unfoldable pub get_acl_by_triple : String → String → String → Sql AclEntry
unfolding find
get_acl_by_triple caller agent user =
    query (λ db. find (is_triple caller agent user) db.acl) >>= one_row

-- SELECT username, caller_token_id FROM acl WHERE agent_id = ? ORDER BY both.
abbrev to_grant : AclEntry → Grant
to_grant e = record { username = e.username; caller_token_id = e.caller_token_id }

unfoldable pub grants_of : String → List AclEntry → List Grant
unfolding filter sort_grants
grants_of agent rows = sort_grants (map to_grant (filter (λ e. str_eq e.agent_id agent) rows))

-- The empty text where there is no filter; ORDER BY created_at ASC.
abbrev pub passes : String → String → Bool
passes wanted actual = str_eq wanted "" || str_eq actual wanted

unfoldable pub selected_acl : ListAclFilter → Db → List AclEntry
unfolding sort filter
selected_acl f db =
    sort (λ d e. leb d.created_at e.created_at)
      (filter (λ e. passes f.caller_token_id e.caller_token_id && passes f.agent_id e.agent_id)
        db.acl)

unfoldable pub list_acl : ListAclFilter → Sql (List AclEntry)
unfolding selected_acl
list_acl f = query (selected_acl f)

-- INSERT INTO agent_policy_versions ... ON CONFLICT(agent_id) DO UPDATE SET version = version + 1
unfoldable pub upsert_version : String → Db → Result StoreError (Unit {0}) × Db
unfolding any update_where
upsert_version agent db =
    if any (λ v. str_eq v.agent_id agent) db.versions
    then (
      ok tt,
      record db {
        versions =
            update_where (λ v. str_eq v.agent_id agent) (λ v. record v { version = v.version + 1 })
              db.versions;
      },
    )
    else if any (λ g. str_eq g.id agent) db.agents
    then (
      ok tt,
      record db {
        versions = db.versions ++ (record { agent_id = agent; version = 1; hash = "" } ∷ []);
      },
    )
    else (err constraint, db)

-- UPDATE agent_policy_versions SET hash = ? WHERE agent_id = ?
unfoldable pub set_hash : String → String → Db → Result StoreError (Unit {0}) × Db
unfolding update_where
set_hash agent h db = (
  ok tt,
  record db {
    versions = update_where (λ v. str_eq v.agent_id agent) (λ v. record v { hash = h }) db.versions;
  },
)

-- DELETE FROM acl WHERE id = ?
unfoldable pub delete_row : String → Db → Result StoreError ℕ × Db
unfolding filter count_where
delete_row id db = (
  ok (count_where (λ e. str_eq e.id id) db.acl),
  record db { acl = filter (λ e. not (str_eq e.id id)) db.acl },
)

-- The loop of GetPolicySnapshot: a user stands where it was first seen, with its callers in order.
unfoldable pub add_caller : String → String → List PolicyPrincipal → List PolicyPrincipal
add_caller user caller [] = record { username = user; caller_token_ids = caller ∷ [] } ∷ []
add_caller user caller (p ∷ ps) =
    if str_eq p.username user
    then record p { caller_token_ids = p.caller_token_ids ++ caller ∷ [] } ∷ ps
    else p ∷ add_caller user caller ps

unfoldable pub group_onto : List PolicyPrincipal → List Grant → List PolicyPrincipal
unfolding add_caller
group_onto done [] = done
group_onto done (g ∷ gs) = group_onto (add_caller g.username g.caller_token_id done) gs

abbrev version_or_zero : Option PolicyVersion → ℕ
version_or_zero none = 0
version_or_zero (some v) = v.version

abbrev hash_or_empty : Option PolicyVersion → String
hash_or_empty none = ""
hash_or_empty (some v) = v.hash

-- The version row of an agent; no row is not an error.
abbrev pub stored_version : Db → String → ℕ
stored_version db agent = version_or_zero (find (λ v. str_eq v.agent_id agent) db.versions)

abbrev pub stored_hash : Db → String → String
stored_hash db agent = hash_or_empty (find (λ v. str_eq v.agent_id agent) db.versions)

-- Both reads stand in one transaction, so that they see one state.
unfoldable pub get_policy_snapshot : String → Sql PolicySnapshot
unfolding transaction group_onto grants_of find
get_policy_snapshot agent = transaction (do
  row ← query (λ db. find (λ v. str_eq v.agent_id agent) db.versions)
  grants ← query (λ db. grants_of agent db.acl)
  pure (record {
    agent_id = agent;
    version = version_or_zero row;
    hash = hash_or_empty row;
    principals = group_onto [] grants;
  }))

module _ (sum_hex : List ℕ → String) where
  abbrev pub policy_hash : String → Db → String
  policy_hash agent db = hash sum_hex (grants_of agent db.acl)

  -- computePolicyHash
  abbrev pub compute_policy_hash : String → Sql String
  compute_policy_hash agent = query (policy_hash agent)

  unfoldable pub bump_policy_version_tx : String → Sql (Unit {0})
  unfolding upsert_version set_hash
  bump_policy_version_tx agent = do
    statement (upsert_version agent)
    h ← compute_policy_hash agent
    statement (set_hash agent h)

  unfoldable pub bump_policy_version : String → Sql (Unit {0})
  unfolding bump_policy_version_tx transaction
  bump_policy_version agent = transaction (bump_policy_version_tx agent)

  -- Behind the transaction: a re-grant returns the row that is there.
  abbrev pub after_insert :
      AclEntry → Result StoreError (Unit {0}) × World Db → Result StoreError AclEntry × World Db
  after_insert row (ok _, w) = get_acl row.id w
  after_insert row (err unique_violation, w) =
      get_acl_by_triple row.caller_token_id row.agent_id row.username w
  after_insert row (err e, w) = (err e, w)

  abbrev pub acl_row : String → ℕ → CreateAclParams → AclEntry
  acl_row fresh now p = record {
    id = fresh;
    caller_token_id = p.caller_token_id;
    agent_id = p.agent_id;
    username = p.username;
    created_at = unix now;
    created_by = p.created_by;
  }

  -- `fresh` is "acl_" and the random part of the id.
  unfoldable pub create_acl : String → ℕ → CreateAclParams → Sql AclEntry
  unfolding transaction insert_acl bump_policy_version_tx get_acl get_acl_by_triple unix
  create_acl fresh now p w =
      let row = acl_row fresh now p in
      after_insert row
        (transaction (statement (insert_acl row) >> bump_policy_version_tx p.agent_id) w)

  unfoldable pub delete_acl : String → Sql (Unit {0})
  unfolding transaction delete_row bump_policy_version_tx find
  delete_acl id = transaction (do
    found ← query (λ db. find (λ e. str_eq e.id id) db.acl)
    row ← one_row found
    n ← statement (delete_row id)
    if n == 0 then raise not_found else bump_policy_version_tx row.agent_id)
