-- ===== src/Server/Http/Rules.antt =====
-- What each step of a handler adds to the facts that hold of the database behind it.
use uncluster.Prelude.{◌≡◌, refl, ap, sym, Bool, true, false, Option, none, some}
use uncluster.Prelude.Exec.{Result, ok, err, World, ◌>>=◌}
use uncluster.Prelude.Exec.Triple.{
  Triple, Outcome, Triple-attempt, Triple-bind, Triple-pure, Triple-raise, Triple-weaken,
}
use uncluster.Store.Db.{StoreError, Db, Sql, query, one_row}
use uncluster.Server.Http.{Status, status_of, or_status, guard, some_or, ignore, try, kept}

-- `R` is what is wanted of the database behind an error.
module _ {P R : Db → Type 0} (out : (s : Db) → P s → R s) where
  pub Triple-guard :
      (b : Bool) (e : Status) → Triple P (guard b e) (λ _ s. (b ≡ true) × P s) (λ _. R)
  Triple-guard true e = record { at = λ w p. (refl, p) }
  Triple-guard false e = record { at = λ w p. out w.state p }

  pub Triple-some_or :
      {A : Type 0} (e : Status) (o : Option A)
      → Triple P (some_or e o) (λ a s. (o ≡ some a) × P s) (λ _. R)
  Triple-some_or e none = record { at = λ w p. out w.state p }
  Triple-some_or e (some a) = record { at = λ w p. (refl, p) }

  -- The read of a row from a database that is known.
  pub Triple-row :
      {A : Type 0} (old : Db) (f : Db → Option A)
      → ((s : Db) → P s → s ≡ old)
      → Triple P (query f >>= one_row) (λ a s. (f old ≡ some a) × P s) (λ _. R)
  Triple-row {A} old f known =
      Triple-bind (λ o s. (f old ≡ o) × P s) (query f) _
        (Triple-attempt _ _ out (λ s p. (ap f (sym (known s p)), p))) one
    where
      one :
          (o : Option A)
          → Triple (λ s. (f old ≡ o) × P s) (one_row o) (λ a s. (f old ≡ some a) × P s) (λ _. R)
      one none = Triple-raise _ (λ s p. out s p.1)
      one (some a) = Triple-pure _ (λ s p. p)

module _ {A : Type 0} where
  status_of-Outcome :
      (Q : A → Db → Type 0) (R : Db → Type 0) (f : StoreError → Status)
      (r : Result StoreError A × World Db)
      → Outcome Q (λ _. R) r.0 r.1.state
      → Outcome Q (λ _. R) (status_of f r).0 (status_of f r).1.state
  status_of-Outcome Q R f (ok a, w) h = h
  status_of-Outcome Q R f (err e, w) h = h

  pub Triple-or_status :
      {P : Db → Type 0} {Q : A → Db → Type 0} {R : Db → Type 0} (f : StoreError → Status)
      (m : Sql A)
      → Triple P m Q (λ _. R)
      → Triple P (or_status f m) Q (λ _. R)
  Triple-or_status {Q} {R} f m t = record { at = λ w p. status_of-Outcome Q R f (m w) (t.at w p) }

  either :
      (R : Db → Type 0) (r : Result StoreError A) (s : Db) → Outcome (λ _. R) (λ _. R) r s → R s
  either R (ok a) s h = h
  either R (err e) s h = h

  -- An error is only logged, so the fact must hold behind both outcomes.
  pub Triple-ignore :
      {P R : Db → Type 0} {F : Status → Db → Type 0} (m : Sql A)
      → Triple P m (λ _. R) (λ _. R)
      → Triple P (ignore m) (λ _. R) F
  Triple-ignore {R} m t = record { at = λ w p. either R (m w).0 (m w).1.state (t.at w p) }

  abbrev pub Kept : (A → Db → Type 0) → (Db → Type 0) → Option A → Db → Type 0
  Kept Q R none s = R s
  Kept Q R (some a) s = Q a s

  kept-Outcome :
      (Q : A → Db → Type 0) (R : Db → Type 0) (F : Status → Db → Type 0)
      (r : Result StoreError A × World Db)
      → Outcome Q (λ _. R) r.0 r.1.state
      → Outcome (Kept Q R) F (kept r).0 (kept r).1.state
  kept-Outcome Q R F (ok a, w) h = h
  kept-Outcome Q R F (err e, w) h = h

  pub Triple-try :
      {P : Db → Type 0} {F : Status → Db → Type 0} (Q : A → Db → Type 0) (R : Db → Type 0)
      (m : Sql A)
      → Triple P m Q (λ _. R)
      → Triple P (try m) (Kept Q R) F
  Triple-try {F} Q R m t = record { at = λ w p. kept-Outcome Q R F (m w) (t.at w p) }

  -- The same, where both outcomes keep a fact.
  pub Triple-try_keep :
      {P : Db → Type 0} {F : Status → Db → Type 0} (m : Sql A)
      → Triple P m (λ _. P) (λ _. P)
      → Triple P (try m) (λ _. P) F
  Triple-try_keep {P} {F} m t =
      Triple-weaken (Kept (λ _. P) P) F both (λ e s f. f) (Triple-try (λ _. P) P m t)
    where
      both : (o : Option A) (s : Db) → Kept (λ _. P) P o s → P s
      both none s p = p
      both (some a) s p = p
