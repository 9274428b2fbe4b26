-- ===== src/Store/Db/Transaction.antt =====
-- What a transaction keeps: on an error, the database from before it.
use uncluster.Prelude.{◌≡◌, refl, Option, none, some}
use uncluster.Prelude.Exec.{Result, ok, err, World, ◌>>=◌}
use uncluster.Prelude.Exec.Triple.{
  Triple, Outcome, Triple-attempt, Triple-bind, Triple-pure, Triple-raise,
}
use uncluster.Store.Db.{StoreError, Db, Sql, query, rolled_back, transaction, one_row}

module _ {A : Type 0} where
  rolled_back-Outcome :
      (Q : A → Db → Type 0) (F : StoreError → Db → Type 0) (old : Db) (r : Result StoreError A)
      (w : World Db)
      → ((e : StoreError) → F e old)
      → Outcome Q (λ _ _. Unit) r w.state
      → Outcome Q F (rolled_back old (r, w)).0 (rolled_back old (r, w)).1.state
  rolled_back-Outcome Q F old (ok a) w f h = h
  rolled_back-Outcome Q F old (err e) w f h = f e

  -- The body's errors need no condition: they are undone.
  pub Triple-transaction :
      {P : Db → Type 0} {Q : A → Db → Type 0} {F : StoreError → Db → Type 0} (body : Sql A)
      → ((e : StoreError) (s : Db) → P s → F e s)
      → Triple P body Q (λ _ _. Unit)
      → Triple P (transaction body) Q F
  unfolding transaction
  Triple-transaction {P} {Q} {F} body undone t = record {
    at = λ w p.
        rolled_back-Outcome Q F w.state _ _ (λ e. undone e w.state p)
          ((Triple-bind (λ _. P) (query (λ _. tt)) _ (Triple-attempt _ _ (λ _ _. tt) (λ s q. q))
              (λ _. Triple-bind Q body _ t (λ a. Triple-attempt _ _ (λ _ _. tt) (λ s q. q)))).at
            w p);
  }

  rolled_back-err :
      (old : Db) (p : Result StoreError A × World Db) (e : StoreError)
      → (rolled_back old p).0 ≡ err e
      → (rolled_back old p).1.state ≡ old
  rolled_back-err old (ok a, w) e h = cc
  rolled_back-err old (err x, w) e h = refl

  -- A transaction that fails leaves the database as it was.
  pub transaction_atomic :
      (body : Sql A) (w : World Db) (e : StoreError)
      → (transaction body w).0 ≡ err e
      → (transaction body w).1.state ≡ w.state
  unfolding transaction
  transaction_atomic body w e h = rolled_back-err w.state _ e h

-- Reading a row changes nothing.
pub Triple-read :
    {A : Type 0} {P : Db → Type 0} (f : Db → Option A)
    → Triple P (query f >>= one_row) (λ _. P) (λ _. P)
Triple-read {A} {P} f =
    Triple-bind (λ _. P) (query f) _ (Triple-attempt _ _ (λ s p. p) (λ s p. p)) one
  where
    one : (o : Option A) → Triple P (one_row o) (λ _. P) (λ _. P)
    one none = Triple-raise _ (λ s p. p)
    one (some a) = Triple-pure _ (λ s p. p)
