-- ===== src/Store/Tokens.antt =====
-- internal/store/sqlite.go: the token table.
pub mod Lifecycle
use uncluster.Prelude.{
  ℕ, ◌+◌, String, Bool, true, false, ◌&&◌, Option, none, some, List, [], ◌∷◌, ◌++◌, ◌==◌, leb,
  if◌then◌else◌, str_eq, find, any, count_where, update_where, sort,
}
use uncluster.Prelude.Exec.{Result, ok, err, World, pure, raise, recover, ◌>>=◌, ◌>>◌}
use uncluster.Store.Db.{
  StoreError, not_found, token_used, token_revoked, unique_violation, constraint, TokenKind, join,
  agent, caller, Token, Db, Sql, query, statement, one_row, unix,
}

pub record NewTokenParams : Type 0 where
  pub id : String
  pub kind : TokenKind
  pub agent_id : Option String
  pub secret_hash : String
  pub label : String
  pub expires_at : Option ℕ

-- REFERENCES agents(id): a null reference is always fine.
abbrev pub reference_ok : Db → Option String → Bool
reference_ok db none = true
reference_ok db (some a) = any (λ g. str_eq g.id a) db.agents

-- INSERT INTO tokens: the primary key is checked before the foreign key.
unfoldable pub insert_token : Token → Db → Result StoreError (Unit {0}) × Db
unfolding any str_eq
insert_token row db =
    if any (λ t. str_eq t.id row.id) db.tokens
    then (err unique_violation, db)
    else if reference_ok db row.agent_id
    then (ok tt, record db { tokens = db.tokens ++ row ∷ [] })
    else (err constraint, db)

unfoldable pub get_token_by_id : String → Sql Token
unfolding find str_eq
get_token_by_id id = query (λ db. find (λ t. str_eq t.id id) db.tokens) >>= one_row

-- `fresh` is the id that `shortID(16)` makes where the caller gives none.
abbrev pub id_or : String → String → String
id_or fresh id = if str_eq id "" then fresh else id

unfoldable pub new_token : String → ℕ → NewTokenParams → Token
unfolding unix str_eq
new_token fresh now p = record {
  id = id_or fresh p.id;
  kind = p.kind;
  agent_id = p.agent_id;
  secret_hash = p.secret_hash;
  label = p.label;
  created_at = unix now;
  expires_at = p.expires_at;
  used_at = none;
  revoked_at = none;
}

unfoldable pub create_token : String → ℕ → NewTokenParams → Sql Token
unfolding insert_token get_token_by_id new_token
create_token fresh now p =
    statement (insert_token (new_token fresh now p)) >> get_token_by_id (id_or fresh p.id)

-- ORDER BY created_at DESC
unfoldable pub list_tokens : Sql (List Token)
unfolding sort
list_tokens = query (λ db. sort (λ s t. leb t.created_at s.created_at) db.tokens)

abbrev pub is_null : {A : Type 0} → Option A → Bool
is_null none = true
is_null (some _) = false

-- What RowsAffected says behind an UPDATE of the tokens with this condition.
unfoldable pub update_tokens : (Token → Bool) → (Token → Token) → Db → Result StoreError ℕ × Db
unfolding count_where update_where
update_tokens p f db =
    (ok (count_where p db.tokens), record db { tokens = update_where p f db.tokens })

-- WHERE id = ? AND revoked_at IS NULL
abbrev pub is_revocable : String → Token → Bool
is_revocable id t = str_eq t.id id && is_null t.revoked_at

unfoldable pub revoke_token : String → ℕ → Sql (Unit {0})
unfolding update_tokens str_eq unix
revoke_token id at = do
  n ← statement (update_tokens (is_revocable id) (λ t. record t { revoked_at = some (unix at) }))
  if n == 0 then raise not_found else pure tt

abbrev is_join : TokenKind → Bool
is_join join = true
is_join _ = false

-- WHERE id = ? AND kind = 'join' AND used_at IS NULL AND revoked_at IS NULL
abbrev pub is_usable_join : String → Token → Bool
is_usable_join id t =
    str_eq t.id id && (is_join t.kind && (is_null t.used_at && is_null t.revoked_at))

-- Why the update affected no row.
abbrev pub why_unused : Token → Sql (Unit {0})
why_unused t =
    if is_null t.used_at
    then if is_null t.revoked_at then raise not_found else raise token_revoked
    else raise token_used

abbrev pub unused_reason :
    Result StoreError Token × World Db → Result StoreError (Unit {0}) × World Db
unused_reason (ok t, w) = why_unused t w
unused_reason (err e, w) = (err not_found, w)

unfoldable pub mark_join_token_used : String → ℕ → Sql (Unit {0})
unfolding update_tokens get_token_by_id str_eq unix
mark_join_token_used id at = do
  n ← statement (update_tokens (is_usable_join id) (λ t. record t { used_at = some (unix at) }))
  if n == 0 then (λ w. unused_reason (get_token_by_id id w)) else pure tt
