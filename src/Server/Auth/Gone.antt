-- ===== src/Server/Auth/Gone.antt =====
-- How a revoked agent learns of it: the 410 of the middleware, and who gets it.
use mathlib.Core.Path.{subst}
use uncluster.Prelude.{
  ℕ, String, ◌≡◌, ◌≢◌, refl, sym, ap, Bool, true, false, not, Option, none, some, [], str_eq, find,
}
use uncluster.Prelude.Exec.{Result, ok, err, World, attempt, ◌>>=◌}
use uncluster.Prelude.Exec.Triple.{
  Triple, Outcome, Outcome-err, Triple-bind, Triple-pure, Triple-raise, Triple-if, Triple-given,
}
use uncluster.Token
use uncluster.Token.{Crypto, parse}
use uncluster.Store.Db.{StoreError, TokenKind, Token, Agent, Db, Sql, one_row}
use uncluster.Store.Agents.{is_revoked}
use uncluster.Server.Http.{Status, Http, unauthorized, gone, guard, some_or, or_status, status_of}
use uncluster.Server.Http.Rules.{Triple-row}
use uncluster.Server.Auth.{
  bearer_from, kind_matches, same_kind, check_agent, linked, row_ok, require_auth,
}
use uncluster.Server.Auth.Sound.{raw_ne_empty}

-- The bearer token of the request stands in the table under its id, with the kind that it claims,
-- and speaks for an agent that is revoked. Neither its secret nor the revocation of its row counts.
pub record Expelled (c : Crypto) (db : Db) (header : String) : Type 0 where
  pub parsed : Token.Token
  pub row : Token
  pub id : String
  pub agent : Agent
  pub reads : parse c (bearer_from header) ≡ some parsed
  pub found : find (λ t. str_eq t.id parsed.id) db.tokens ≡ some row
  pub claims : kind_matches parsed.kind row.kind ≡ true
  pub kind : row.kind ≡ TokenKind.agent
  pub link : row.agent_id ≡ some id
  pub linked_to : find (λ g. str_eq g.id id) db.agents ≡ some agent
  pub dead : is_revoked agent.status ≡ true

not_gone : unauthorized ≢ gone
not_gone h = cc

-- Every error is another one than 410, or `G` holds.
abbrev Told : Type 0 → Status → Db → Type 0
Told G e s = e ≡ gone → G

module _ (G : Type 0) {P : Db → Type 0} where
  guards : (b : Bool) → Triple P (guard b unauthorized) (λ _ s. (b ≡ true) × P s) (Told G)
  guards true = record { at = λ w p. (refl, p) }
  guards false = record { at = λ w p h. absurd (not_gone h) }

  takes :
      {A : Type 0} (o : Option A)
      → Triple P (some_or unauthorized o) (λ a s. (o ≡ some a) × P s) (Told G)
  takes none = record { at = λ w p h. absurd (not_gone h) }
  takes (some a) = record { at = λ w p. (refl, p) }

  looks_up :
      {A : Type 0} {Q : A → Db → Type 0} (m : Sql A)
      → Triple P m Q (λ _ _. Unit)
      → Triple P (or_status (λ _. unauthorized) m) Q (Told G)
  looks_up {A} {Q} m t = record { at = λ w p. answered (m w) (t.at w p) }
    where
      answered :
          (r : Result StoreError A × World Db)
          → Outcome Q (λ _ _. Unit) r.0 r.1.state
          → Outcome Q
              (Told G)
              (status_of (λ _. unauthorized) r).0
              (status_of (λ _. unauthorized) r).1.state
      answered (ok a, w) o = o
      answered (err e, w) o = λ h. absurd (not_gone h)

module _ (c : Crypto) (now : ℕ) (old : Db) (header : String) where
  abbrev Same : Db → Type 0
  Same s = s ≡ old

  module _ (parsed : Token.Token) (row : Token) (reads : parse c (bearer_from header) ≡ some parsed)
      (found : find (λ t. str_eq t.id parsed.id) old.tokens ≡ some row)
      (claims : kind_matches parsed.kind row.kind ≡ true) where
    links :
        (k : TokenKind) (id : Option String)
        → row.kind ≡ k
        → row.agent_id ≡ id
        → Triple Same (linked k id) (λ _. Same) (Told (Expelled c old header))
    unfolding linked
    links TokenKind.agent none e f = Triple-raise unauthorized (λ s p h. absurd (not_gone h))
    links TokenKind.agent (some id) e f =
        Triple-bind (λ a s. (find (λ x. str_eq x.id id) old.agents ≡ some a) × Same s) _ _
          (looks_up (Expelled c old header) _ (Triple-row (λ _ _. tt) old _ (λ s p. p)))
          (λ a.
            Triple-given (find (λ x. str_eq x.id id) old.agents ≡ some a) Same (λ s p. p)
              (λ there. checks a there))
      where
        checks :
            (a : Agent)
            → find (λ x. str_eq x.id id) old.agents ≡ some a
            → Triple Same (check_agent a) (λ _. Same) (Told (Expelled c old header))
        checks a there =
            Triple-if (is_revoked a.status) _ _
              (λ dead. Triple-raise gone (λ s p h. record {
                parsed = parsed;
                row = row;
                id = id;
                agent = a;
                reads = reads;
                found = found;
                claims = claims;
                kind = e;
                link = f;
                linked_to = there;
                dead = dead;
              }))
              (λ live. Triple-pure (some a) (λ s p. p))
    links TokenKind.join id e f = Triple-pure none (λ s p. p)
    links TokenKind.caller id e f = Triple-pure none (λ s p. p)

  abbrev Tells : {A : Type 0} → Http A → Type 0
  Tells m = Triple Same m (λ _ _. Unit) (Told (Expelled c old header))

  -- A step that shows `G` of its result, and the steps behind it.
  known :
      {A B : Type 0} (G : A → Type 0) (m : Http A) (f : A → Http B)
      → Triple Same m (λ a s. G a × Same s) (Told (Expelled c old header))
      → ((a : A) → G a → Tells (f a))
      → Tells (m >>= f)
  known G m f t rest =
      Triple-bind (λ a s. G a × Same s) m f t
        (λ a. Triple-given (G a) Same (λ s p. p) (λ g. rest a g))

  told : (required : TokenKind) → Tells (require_auth c now required header)
  unfolding require_auth
  told required =
      known (λ _. not (str_eq (bearer_from header) "") ≡ true) _ _ (guards _ _)
        (λ _ _.
          known (λ p. parse c (bearer_from header) ≡ some p) _ _ (takes _ _)
            (λ parsed reads.
              known (λ row. find (λ t. str_eq t.id parsed.id) old.tokens ≡ some row) _ _
                (looks_up _ _ (
                  Triple-row (λ _ _. tt) old (λ db. find (λ t. str_eq t.id parsed.id) db.tokens)
                    (λ s p. p)))
                (λ row found.
                  known (λ _. kind_matches parsed.kind row.kind ≡ true) _ _ (guards _ _)
                    (λ _ claims.
                      known (λ _. same_kind row.kind required ≡ true) _ _ (guards _ _)
                        (λ _ _.
                          Triple-bind (λ _. Same) _ _
                            (links parsed row reads found claims row.kind row.agent_id refl refl)
                            (λ g.
                              known (λ _. row_ok c now row parsed.secret ≡ true) _ _ (guards _ _)
                                (λ _ _. Triple-pure (row, g) (λ _ _. tt))))))))

  answers_gone :
      Expelled c old header
      → require_auth c now TokenKind.agent header (record { state = old; faults = [] })
        ≡ (err gone, record { state = old; faults = [] })
  unfolding require_auth linked attempt
  answers_gone x =
      rw (raw_ne_empty c now (bearer_from header) x.parsed x.reads, require_auth)
        (rw (x.reads, require_auth)
          (rw (x.found, require_auth)
            (rw (x.claims, require_auth)
              (rw (x.kind, require_auth)
                (rw (x.link, require_auth) (rw (x.linked_to, one_row) (rw (x.dead) refl)))))))

-- A request is answered 410 Gone, whatever kind of token its route wants and whatever statement the
-- database refuses, only if its token speaks for a revoked agent; and on a route of the Agent it is
-- answered so whenever that is the case, whatever its secret, where no statement is refused.
pub require_auth-Expelled :
    (c : Crypto) (now : ℕ) (header : String) (w : World Db)
    → ((required : TokenKind)
        → (require_auth c now required header w).0 ≡ err gone
        → Expelled c w.state header)
      × (w.faults ≡ []
          → Expelled c w.state header
          → (require_auth c now TokenKind.agent header w).0 ≡ err gone)
require_auth-Expelled c now header w = (
  (λ required h.
      Outcome-err (λ _ _. Unit) (Told (Expelled c w.state header)) _ _ gone h
        ((told c now w.state header required).at w refl) refl),
  (λ calm x.
      subst
        (λ fs.
          (require_auth c now TokenKind.agent header (record { state = w.state; faults = fs })).0
          ≡ err gone)
        (sym calm) (ap (λ r. r.0) (answers_gone c now w.state header x))),
)
