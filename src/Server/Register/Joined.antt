-- ===== src/Server/Register/Joined.antt =====
-- handleAgentRegister: what a join token that passes has shown.
use uncluster.Prelude.{ℕ, ◌≤◌, String, ◌≡◌, refl, true, none, some, str_eq, find, arith}
use uncluster.Prelude.Exec.Triple.{Triple, Triple-bind, Triple-pure}
use uncluster.Token
use uncluster.Token.{Kind, to_text, Crypto, parse, verify_secret}
use uncluster.Store.Db.{
  StoreError, TokenKind, Agent, Db, Sql, query, statement, one_row, unix, online, instant,
  unique_violation, constraint,
}
use uncluster.Store.Db
use uncluster.Store.Tokens.{get_token_by_id}
use uncluster.Server.Http.{unauthorized}
use uncluster.Server.Http.Rules.{Triple-guard, Triple-some_or, Triple-or_status, Triple-row}
use uncluster.Server.Auth.{expired}
use uncluster.Server.Register.{is_join_text, is_join_row, join_ok, check_join}

module _ (c : Crypto) (now : ℕ) where
  -- The text is a join token whose row is in the table, was neither used nor revoked nor has
  -- expired, and accepts the secret.
  pub record Joins (db : Db) (text : String) (row : Db.Token) : Type 0 where
    pub parsed : Token.Token
    pub reads : parse c text ≡ some parsed
    pub says_join : parsed.kind ≡ Kind.join
    pub found : find (λ t. str_eq t.id parsed.id) db.tokens ≡ some row
    pub is_join : row.kind ≡ TokenKind.join
    pub unused : row.used_at ≡ none
    pub not_revoked : row.revoked_at ≡ none
    pub in_time : (e : ℕ) → row.expires_at ≡ some e → now ≤ instant e
    pub secret : verify_secret c parsed.secret row.secret_hash ≡ some true

  join_ok-unused : (row : Db.Token) (s : String) → join_ok c now row s ≡ true → row.used_at ≡ none
  unfolding join_ok
  join_ok-unused row s h = ground arith

  join_ok-not_revoked :
      (row : Db.Token) (s : String) → join_ok c now row s ≡ true → row.revoked_at ≡ none
  unfolding join_ok
  join_ok-not_revoked row s h = ground arith

  join_ok-in_time :
      (row : Db.Token) (s : String) (e : ℕ)
      → join_ok c now row s ≡ true
      → row.expires_at ≡ some e
      → now ≤ instant e
  unfolding join_ok expired
  join_ok-in_time row s e h k = ground arith

  join_ok-secret :
      (row : Db.Token) (s : String)
      → join_ok c now row s ≡ true
      → verify_secret c s row.secret_hash ≡ some true
  unfolding join_ok
  join_ok-secret row s h = ground arith

  join_text : (k : Kind) → is_join_text k ≡ true → k ≡ Kind.join
  join_text Kind.join h = refl
  join_text Kind.agent h = cc
  join_text Kind.cli h = cc
  join_text Kind.caller h = cc

  join_kind : (k : TokenKind) → is_join_row k ≡ true → k ≡ TokenKind.join
  join_kind TokenKind.join h = refl
  join_kind TokenKind.agent h = cc
  join_kind TokenKind.caller h = cc

  pub check_join-Triple :
      (old : Db) (text : String)
      → Triple
          (λ s. s ≡ old)
          (check_join c now text)
          (λ row s. Joins old text row × (s ≡ old))
          (λ _ s. s ≡ old)
  unfolding check_join get_token_by_id
  check_join-Triple old text =
      Triple-bind _ _ _ (Triple-some_or (λ s p. p) unauthorized (parse c text)) (λ parsed.
        Triple-bind _ _ _ (Triple-guard (λ s p. p.1) _ unauthorized) (λ _.
          Triple-bind _ _ _ (Triple-or_status _ _ (Triple-row (λ s p. p.1.1) old _ (λ s p. p.1.1)))
            (λ row. Triple-bind _ _ _ (Triple-guard (λ s p. p.1.1.1) _ unauthorized) (λ _.
              Triple-bind _ _ _ (Triple-guard (λ s p. p.1.1.1.1) _ unauthorized) (λ _.
                Triple-pure row (λ s p. (
                  record {
                    parsed = parsed;
                    reads = p.1.1.1.1.0;
                    says_join = join_text parsed.kind p.1.1.1.0;
                    found = p.1.1.0;
                    is_join = join_kind row.kind p.1.0;
                    unused = join_ok-unused row parsed.secret p.0;
                    not_revoked = join_ok-not_revoked row parsed.secret p.0;
                    in_time = λ e. join_ok-in_time row parsed.secret e p.0;
                    secret = join_ok-secret row parsed.secret p.0;
                  },
                  p.1.1.1.1.1,
                )))))))
