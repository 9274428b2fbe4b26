-- ===== src/Store/Agents/Created.antt =====
-- CreateAgent: the row that it adds and returns.
use uncluster.Prelude.{
  ℕ, String, ◌≡◌, ap, sym, ◌∙◌, Bool, true, false, ◌||◌, Option, none, some, List, [], ◌∷◌, ◌++◌,
  if◌then◌else◌, str_eq, str_eq_refl, any, find, arith,
}
use uncluster.Prelude.Exec.{Result, ok, err, World}
use uncluster.Prelude.Exec.Triple.{
  Triple, Outcome, Triple-attempt, Triple-bind, Triple-pure, Triple-raise,
}
use uncluster.Store.Db.{
  StoreError, not_found, agent_name_taken, token_used, token_revoked, unique_violation, constraint,
  io, Agent, Db, Sql, statement, one_row,
}
use uncluster.Store.Agents.{insert_agent, get_agent, named_violation, new_agent, create_agent}

abbrev pub with_agent : Db → Agent → Db
with_agent old g = record old { agents = old.agents ++ g ∷ [] }

abbrev clashes : Agent → Agent → Bool
clashes row g = str_eq g.id row.id || str_eq g.name row.name

named_violation-Outcome :
    (Q : Unit {0} → Db → Type 0) (r : Result StoreError (Unit {0})) (w : World Db)
    → Outcome Q (λ _ _. Unit) r w.state
    → Outcome Q (λ _ _. Unit) (named_violation (r, w)).0 (named_violation (r, w)).1.state
named_violation-Outcome Q (ok a) w h = h
named_violation-Outcome Q (err not_found) w h = tt
named_violation-Outcome Q (err agent_name_taken) w h = tt
named_violation-Outcome Q (err token_used) w h = tt
named_violation-Outcome Q (err token_revoked) w h = tt
named_violation-Outcome Q (err unique_violation) w h = tt
named_violation-Outcome Q (err constraint) w h = tt
named_violation-Outcome Q (err io) w h = tt

named_violation-Triple :
    {P : Db → Type 0} {Q : Unit {0} → Db → Type 0} (m : Sql (Unit {0}))
    → Triple P m Q (λ _ _. Unit)
    → Triple P (λ w. named_violation (m w)) Q (λ _ _. Unit)
named_violation-Triple {Q} m t = record {
  at = λ w p. named_violation-Outcome Q (m w).0 (m w).1 (t.at w p);
}

-- A new row with an id that is not taken is found under it.
finds_new :
    (row : Agent) (gs : List Agent)
    → any (clashes row) gs ≡ false
    → find (λ g. str_eq g.id row.id) (gs ++ row ∷ []) ≡ some row
unfolding any find
finds_new row [] h = rw (str_eq_refl row.id)
finds_new row (g ∷ gs) h = ground (arith, finds_new row gs)

some-injective : (g h : Agent) → ◌≡◌ {A = Option Agent} (some g) (some h) → g ≡ h
some-injective g h e = cc

-- A creation that succeeds has added the row, whose id and name were free, and returns it.
pub create_agent-Triple :
    (old : Db) (fresh : String) (now : ℕ) (name : String)
    → Triple
        (λ s. s ≡ old)
        (create_agent fresh now name)
        (λ g s. (g ≡ new_agent fresh now name) × (s ≡ with_agent old (new_agent fresh now name)))
        (λ _ _. Unit)
unfolding create_agent insert_agent get_agent new_agent
create_agent-Triple old fresh now name =
    Triple-bind
      (λ _ s.
        (any (clashes (new_agent fresh now name)) old.agents ≡ false)
        × (s ≡ with_agent old (new_agent fresh now name)))
      _ _ (named_violation-Triple (statement (insert_agent (new_agent fresh now name))) insertion)
      (λ _.
        Triple-bind
          (λ o s.
            (o ≡ some (new_agent fresh now name)) × (s ≡ with_agent old (new_agent fresh now name)))
          _ _
          (Triple-attempt _ _ (λ _ _. tt)
            (λ s p. (
              ap (λ (d : Db). find (λ g. str_eq g.id fresh) d.agents) p.1
                  ∙ finds_new (new_agent fresh now name) old.agents p.0,
              p.1,
            )))
          row)
  where
    inserted :
        (b : Bool) (s : Db)
        → any (clashes (new_agent fresh now name)) old.agents ≡ b
        → with_agent s (new_agent fresh now name) ≡ with_agent old (new_agent fresh now name)
        → (λ (r : Result StoreError (Unit {0}) × Db).
              Outcome
                (λ _ d.
                  (any (clashes (new_agent fresh now name)) old.agents ≡ false)
                  × (d ≡ with_agent old (new_agent fresh now name)))
                (λ _ _. Unit)
                r.0
                r.1)
            (if b
              then (err unique_violation, s)
              else (ok tt, with_agent s (new_agent fresh now name)))
    inserted true s free e = tt
    inserted false s free e = (free, e)

    row :
        (o : Option Agent)
        → Triple
            (λ s.
              (o ≡ some (new_agent fresh now name))
              × (s ≡ with_agent old (new_agent fresh now name)))
            (one_row o)
            (λ g s.
              (g ≡ new_agent fresh now name) × (s ≡ with_agent old (new_agent fresh now name)))
            (λ _ _. Unit)
    row none = Triple-raise not_found (λ s p. tt)
    row (some g) = Triple-pure g (λ s p. (some-injective g _ p.0, p.1))

    insertion :
        Triple
          (λ s. s ≡ old)
          (statement (insert_agent (new_agent fresh now name)))
          (λ _ s.
            (any (clashes (new_agent fresh now name)) old.agents ≡ false)
            × (s ≡ with_agent old (new_agent fresh now name)))
          (λ _ _. Unit)
    insertion =
        Triple-attempt _ _ (λ _ _. tt)
          (λ s e.
            inserted (any (clashes (new_agent fresh now name)) s.agents) s
              (ap (λ (d : Db). any (clashes (new_agent fresh now name)) d.agents) (sym e))
              (ap (λ d. with_agent d (new_agent fresh now name)) e))
