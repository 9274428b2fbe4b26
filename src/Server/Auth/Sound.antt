-- ===== src/Server/Auth/Sound.antt =====
-- What a request that passes the middleware has shown.
use uncluster.Prelude.{
  ℕ, ◌≤◌, arith, String, ◌≡◌, refl, true, false, Option, none, some, str_eq, find, [], ap, inl, inr,
  Bool-cases, str_eq_iff,
}
use uncluster.Prelude.Exec.{ok, World, attempt}
use uncluster.Prelude.Exec.Triple.{
  Triple, Outcome-ok, Triple-bind, Triple-pure, Triple-raise, Triple-weaken, Triple-if,
}
use uncluster.Token
use uncluster.Token.{Crypto, parse, verify_secret}
use uncluster.Store.Db.{TokenKind, Token, Agent, Db, instant, one_row}
use uncluster.Store.Agents.{is_revoked}
use uncluster.Server.Http.{unauthorized, gone}
use uncluster.Server.Http.Rules.{Triple-guard, Triple-some_or, Triple-row, Triple-or_status}
use uncluster.Server.Auth.{
  bearer_from, kind_matches, same_kind, check_agent, expired, linked, row_ok, require_auth,
}

-- The record that the request speaks for: of an agent token the linked one, and it is not revoked.
abbrev pub SpeaksFor : Db → TokenKind → Option String → Option Agent → Type 0
SpeaksFor db TokenKind.agent none g = ⊥
SpeaksFor db TokenKind.agent (some id) g =
    (a : Agent) × (find (λ x. str_eq x.id id) db.agents ≡ some a)
    × (is_revoked a.status ≡ false)
    × (g ≡ some a)
SpeaksFor db _ id g = g ≡ none

module _ (c : Crypto) (now : ℕ) where
  -- The bearer token of the request is well-formed and stands in the table under its id, with the
  -- kind that it claims and that the route wants; the row is not revoked, expired or used up, and its
  -- hash accepts the secret.
  pub record Authentic (db : Db) (required : TokenKind) (header : String) (row : Token)
      (agent : Option Agent) : Type 0 where
    pub parsed : Token.Token
    pub reads : parse c (bearer_from header) ≡ some parsed
    pub found : find (λ t. str_eq t.id parsed.id) db.tokens ≡ some row
    pub claims : kind_matches parsed.kind row.kind ≡ true
    pub wanted : row.kind ≡ required
    pub speaks_for : SpeaksFor db row.kind row.agent_id agent
    pub not_revoked : row.revoked_at ≡ none
    pub in_time : (e : ℕ) → row.expires_at ≡ some e → now ≤ instant e
    pub fresh : row.kind ≡ TokenKind.join → row.used_at ≡ none
    pub secret : verify_secret c parsed.secret row.secret_hash ≡ some true

  same_kind-eq : (k l : TokenKind) → same_kind k l ≡ true → k ≡ l
  same_kind-eq TokenKind.join l h = ground arith
  same_kind-eq TokenKind.agent l h = ground arith
  same_kind-eq TokenKind.caller l h = ground arith

  row_ok-not_revoked :
      (row : Token) (s : String) → row_ok c now row s ≡ true → row.revoked_at ≡ none
  unfolding row_ok
  row_ok-not_revoked row s h = ground arith

  row_ok-in_time :
      (row : Token) (s : String) (e : ℕ)
      → row_ok c now row s ≡ true
      → row.expires_at ≡ some e
      → now ≤ instant e
  unfolding row_ok
  row_ok-in_time row s e h k = ground arith

  row_ok-fresh :
      (row : Token) (s : String)
      → row_ok c now row s ≡ true
      → row.kind ≡ TokenKind.join
      → row.used_at ≡ none
  unfolding row_ok
  row_ok-fresh row s h k = ground arith

  row_ok-secret :
      (row : Token) (s : String)
      → row_ok c now row s ≡ true
      → verify_secret c s row.secret_hash ≡ some true
  unfolding row_ok
  row_ok-secret row s h = ground arith

  -- The converse: a row with these facts passes.
  row_ok_of :
      (row : Token) (s : String)
      → row.revoked_at ≡ none
      → expired row.expires_at now ≡ false
      → (row.kind ≡ TokenKind.join → row.used_at ≡ none)
      → verify_secret c s row.secret_hash ≡ some true
      → row_ok c now row s ≡ true
  unfolding row_ok
  row_ok_of row s a b d e = ground arith

  not_expired : (o : Option ℕ) → ((e : ℕ) → o ≡ some e → now ≤ instant e) → expired o now ≡ false
  unfolding expired
  not_expired none h = refl
  not_expired (some e) h = ground (arith, h e refl)

  check_agent-Triple :
      (old : Db) (a : Agent) (P : Db → Type 0)
      → ((s : Db) → P s → s ≡ old)
      → Triple P
          (check_agent a)
          (λ g s. ((is_revoked a.status ≡ false) × (g ≡ some a)) × P s)
          (λ _ s. s ≡ old)
  check_agent-Triple old a P known =
      Triple-if (is_revoked a.status) _ _ (λ _. Triple-raise gone known)
        (λ live. Triple-pure (some a) (λ s p. ((live, refl), p)))

  linked-Triple :
      (old : Db) (P : Db → Type 0) (k : TokenKind) (id : Option String)
      → ((s : Db) → P s → s ≡ old)
      → Triple P (linked k id) (λ g s. SpeaksFor old k id g × P s) (λ _ s. s ≡ old)
  unfolding linked
  linked-Triple old P TokenKind.agent none known = Triple-raise unauthorized known
  linked-Triple old P TokenKind.agent (some id) known =
      Triple-bind (λ a s. (find (λ x. str_eq x.id id) old.agents ≡ some a) × P s) _ _
        (Triple-or_status _ _ (Triple-row known old _ known))
        (λ a.
          Triple-weaken
            (λ g s.
              ((is_revoked a.status ≡ false) × (g ≡ some a))
              × ((find (λ x. str_eq x.id id) old.agents ≡ some a) × P s))
            (λ _ s. s ≡ old) (λ g s p. ((a, p.1.0, p.0.0, p.0.1), p.1.1)) (λ _ s p. p)
            (check_agent-Triple old a _ (λ s p. known s p.1)))
  linked-Triple old P TokenKind.join id known = Triple-pure none (λ s p. (refl, p))
  linked-Triple old P TokenKind.caller id known = Triple-pure none (λ s p. (refl, p))

  pub require_auth-Triple :
      (old : Db) (required : TokenKind) (header : String)
      → Triple
          (λ s. s ≡ old)
          (require_auth c now required header)
          (λ r s. Authentic old required header r.0 r.1 × (s ≡ old))
          (λ _ s. s ≡ old)
  unfolding require_auth
  require_auth-Triple old required header =
      Triple-bind _ _ _ (Triple-guard (λ s p. p) _ unauthorized) (λ _.
        Triple-bind _ _ _ (Triple-some_or (λ s p. p.1) unauthorized (parse c (bearer_from header)))
          (λ parsed.
            Triple-bind _ _ _
              (Triple-or_status _ _ (Triple-row (λ s p. p.1.1) old _ (λ s p. p.1.1)))
              (λ row. Triple-bind _ _ _ (Triple-guard (λ s p. p.1.1.1) _ unauthorized) (λ _.
                Triple-bind _ _ _ (Triple-guard (λ s p. p.1.1.1.1) _ unauthorized) (λ _.
                  Triple-bind _ _ _ (linked-Triple old _ row.kind row.agent_id (λ s p. p.1.1.1.1.1))
                    (λ g.
                      Triple-bind _ _ _ (Triple-guard (λ s p. p.1.1.1.1.1.1) _ unauthorized) (λ _.
                        Triple-pure (row, g)
                          (λ s p. (
                            record {
                              parsed = parsed;
                              reads = p.1.1.1.1.1.0;
                              found = p.1.1.1.1.0;
                              claims = p.1.1.1.0;
                              wanted = same_kind-eq row.kind required p.1.1.0;
                              speaks_for = p.1.0;
                              not_revoked = row_ok-not_revoked row parsed.secret p.0;
                              in_time = λ e. row_ok-in_time row parsed.secret e p.0;
                              fresh = row_ok-fresh row parsed.secret p.0;
                              secret = row_ok-secret row parsed.secret p.0;
                            },
                            p.1.1.1.1.1.1.1,
                          )))))))))

  -- A request that goes on to a handler is authentic, whatever statements the database refuses, and
  -- the check leaves the database as it is.
  pub require_auth-Authentic :
      (required : TokenKind) (header : String) (w : World Db) (row : Token) (g : Option Agent)
      → (require_auth c now required header w).0 ≡ ok (row, g)
      → Authentic w.state required header row g
        × ((require_auth c now required header w).1.state ≡ w.state)
  require_auth-Authentic required header w row g h =
      Outcome-ok (λ r s. Authentic w.state required header r.0 r.1 × (s ≡ w.state))
        (λ _ s. s ≡ w.state) _ _ (row, g) h
        ((require_auth-Triple w.state required header).at w refl)

  linked_runs :
      (db : Db) (k : TokenKind) (id : Option String) (g : Option Agent)
      → SpeaksFor db k id g
      → linked k id (record { state = db; faults = [] })
        ≡ (ok g, record { state = db; faults = [] })
  unfolding linked attempt
  linked_runs db TokenKind.agent none g h = absurd h
  linked_runs db TokenKind.agent (some id) g (a, found, live, e) =
      rw (found, one_row) (rw (live, e))
  linked_runs db TokenKind.join id g h = rw h
  linked_runs db TokenKind.caller id g h = rw h

  pub raw_ne_empty : (raw : String) (t : Token.Token) → parse c raw ≡ some t → str_eq raw "" ≡ false
  unfolding parse
  raw_ne_empty raw t h = elim (Bool-cases (str_eq raw "")) [
    | inl e ↦ cc (h, ap (parse c) ((str_eq_iff raw "").0 e))
    | inr e ↦ e
  ]

  same_kind_of : (k l : TokenKind) → k ≡ l → same_kind k l ≡ true
  same_kind_of TokenKind.join l h = ground arith
  same_kind_of TokenKind.agent l h = ground arith
  same_kind_of TokenKind.caller l h = ground arith

  -- An authentic request goes on, where the database refuses no statement.
  pub require_auth_complete :
      (db : Db) (required : TokenKind) (header : String) (row : Token) (g : Option Agent)
      → Authentic db required header row g
      → require_auth c now required header (record { state = db; faults = [] })
        ≡ (ok (row, g), record { state = db; faults = [] })
  unfolding require_auth attempt
  require_auth_complete db required header row g a =
      rw (raw_ne_empty (bearer_from header) a.parsed a.reads, require_auth)
        (rw (a.reads, require_auth)
          (rw (a.found, require_auth)
            (rw (a.claims, same_kind_of row.kind required a.wanted, require_auth)
              (rw (linked_runs db row.kind row.agent_id g a.speaks_for, require_auth)
                (rw (
                  row_ok_of row a.parsed.secret a.not_revoked (not_expired row.expires_at a.in_time)
                      a.fresh a.secret,
                  require_auth,
                ))))))
