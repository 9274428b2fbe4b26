-- ===== src/Store/Tokens/Lifecycle.antt =====
-- How a token comes into the table, and how a join token is used once.
use uncluster.Prelude.{
  ℕ, String, ◌≡◌, refl, ap, sym, ◌∙◌, ◌≢◌, Bool, true, false, some, List, [], ◌∷◌, ◌++◌, ◌==◌,
  if◌then◌else◌, any, count_where, update_where, arith,
}
use uncluster.Prelude.Exec.{Result, ok, err, World}
use uncluster.Prelude.Exec.Triple.{
  Triple, Outcome, Outcome-ok, Triple-attempt, Triple-bind, Triple-pure, Triple-raise,
  Triple-weaken, Triple-if,
}
use uncluster.Store.Db.{
  StoreError, not_found, token_used, token_revoked, unique_violation, constraint, Token, Db, unix,
}
use uncluster.Store.Db.Transaction.{Triple-read}
use uncluster.Store.Tokens.{
  NewTokenParams, reference_ok, insert_token, get_token_by_id, new_token, create_token,
  update_tokens, is_usable_join, is_null, unused_reason, mark_join_token_used,
}

abbrev pub with_token : Db → Token → Db
with_token old t = record old { tokens = old.tokens ++ t ∷ [] }

abbrev pub used : String → ℕ → Db → Db
used id at db = record db {
  tokens = update_where (is_usable_join id) (λ t. record t { used_at = some (unix at) }) db.tokens;
}

-- An insertion that succeeds has added the row.
pub create_token-Triple :
    (old : Db) (fresh : String) (now : ℕ) (p : NewTokenParams)
    → Triple
        (λ s. s ≡ old)
        (create_token fresh now p)
        (λ _ s. s ≡ with_token old (new_token fresh now p))
        (λ _ _. Unit)
unfolding create_token insert_token get_token_by_id
create_token-Triple old fresh now p =
    Triple-bind (λ _ s. s ≡ with_token old (new_token fresh now p)) _ _
      (Triple-attempt _ _ (λ _ _. tt)
        (λ s e.
          inserted (any _ s.tokens) (reference_ok s p.agent_id) s
            (ap (λ d. with_token d (new_token fresh now p)) e)))
      (λ _. Triple-weaken _ _ (λ t s e. e) (λ _ _ _. tt) (Triple-read _))
  where
    inserted :
        (a b : Bool) (s : Db)
        → with_token s (new_token fresh now p) ≡ with_token old (new_token fresh now p)
        → (λ (r : Result StoreError (Unit {0}) × Db).
              Outcome (λ _ d. d ≡ with_token old (new_token fresh now p)) (λ _ _. Unit) r.0 r.1)
            (if a
              then (err unique_violation, s)
              else if b
              then (ok tt, with_token s (new_token fresh now p))
              else (err constraint, s))
    inserted true b s e = tt
    inserted false true s e = e
    inserted false false s e = tt

-- Behind an update that affects no row there is always an error.
unused_reason-Outcome :
    (Q : Unit {0} → Db → Type 0) (r : Result StoreError Token) (w : World Db)
    → Outcome Q (λ _ _. Unit) (unused_reason (r, w)).0 (unused_reason (r, w)).1.state
unused_reason-Outcome Q (ok t) w =
    (Triple-if {P = λ _. Unit} (is_null t.used_at) _ _
        (λ _.
          Triple-if (is_null t.revoked_at) _ _ (λ _. Triple-raise not_found (λ s p. p))
            (λ _. Triple-raise token_revoked (λ s p. p)))
        (λ _. Triple-raise token_used (λ s p. p))).at
      w tt
unused_reason-Outcome Q (err e) w = tt

-- A use that succeeds has marked a row that could be used.
pub mark_join_token_used-Triple :
    (old : Db) (id : String) (at : ℕ)
    → Triple
        (λ s. s ≡ old)
        (mark_join_token_used id at)
        (λ _ s. ((count_where (is_usable_join id) old.tokens == 0) ≡ false) × (s ≡ used id at old))
        (λ _ _. Unit)
unfolding mark_join_token_used update_tokens
mark_join_token_used-Triple old id at =
    Triple-bind (λ n s. (n ≡ count_where (is_usable_join id) old.tokens) × (s ≡ used id at old)) _ _
      (Triple-attempt _ _ (λ _ _. tt)
        (λ s e. (ap (λ (d : Db). count_where (is_usable_join id) d.tokens) e, ap (used id at) e)))
      (λ n.
        Triple-if (n == 0) _ _
          (λ _. record {
            at = λ w p. unused_reason-Outcome _ (get_token_by_id id w).0 (get_token_by_id id w).1;
          })
          (λ h. Triple-pure tt (λ s p. (ap (λ m. m == 0) (sym p.0) ∙ h, p.1))))

unusable :
    (id : String) (at : ℕ) (ts : List Token)
    → count_where
        (is_usable_join id)
        (update_where (is_usable_join id) (λ t. record t { used_at = some (unix at) }) ts)
      ≡ 0
unfolding count_where update_where
unusable id at [] = refl
unusable id at (t ∷ ts) = ground (arith, unusable id at ts)

spent :
    (id : String) (at : ℕ) (old s : Db)
    → s ≡ used id at old
    → count_where (is_usable_join id) s.tokens ≡ 0
spent id at old s e = rw e (unusable id at old.tokens)

not_zero : (n : ℕ) → n ≡ 0 → (n == 0) ≡ false → ⊥
not_zero n e h = ground arith

-- A join token is used once: behind a use that has succeeded, every later use of the same id fails,
-- whatever statements the database refuses.
pub mark_join_token_used_once :
    (id : String) (at later : ℕ) (w : World Db) (faults : List Bool)
    → (mark_join_token_used id at w).0 ≡ ok tt
    → (mark_join_token_used id later
        (record { state = (mark_join_token_used id at w).1.state; faults = faults })).0
      ≢ ok tt
mark_join_token_used_once id at later w faults h k =
    let first =
      Outcome-ok
        (λ _ s.
          ((count_where (is_usable_join id) w.state.tokens == 0) ≡ false)
          × (s ≡ used id at w.state))
        (λ _ _. Unit) _ _ tt h ((mark_join_token_used-Triple w.state id at).at w refl) in
    let s = (mark_join_token_used id at w).1.state in
    let second =
      Outcome-ok
        (λ _ d. ((count_where (is_usable_join id) s.tokens == 0) ≡ false) × (d ≡ used id later s))
        (λ _ _. Unit) _ _ tt k
        ((mark_join_token_used-Triple s id later).at (record { state = s; faults = faults })
          refl) in
    not_zero _ (spent id at w.state s first.1) second.0
