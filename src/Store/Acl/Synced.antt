-- ===== src/Store/Acl/Synced.antt =====
-- The ACL rows, the policy versions and the hashes change together.
use uncluster.Prelude.{
  ℕ, String, ◌≡◌, refl, sym, ap, ◌∙◌, ◌⊎◌, inl, inr, false, not, Option, none, some, List, [], ◌∷◌,
  ◌++◌, if◌then◌else◌, str_eq, Bool-cases, filter, find, any, ◌==◌,
}
use uncluster.Prelude.Exec.{Result, ok, err, World, raise, ◌>>=◌, ◌>>◌}
use uncluster.Prelude.Exec.Triple.{
  Triple, Outcome, Triple-attempt, Triple-bind, Triple-pure, Triple-raise, Triple-weaken, Triple-if,
  Triple-frame,
}
use uncluster.Store.Db.{
  StoreError, not_found, unique_violation, io, AclEntry, Db, query, statement, one_row, transaction,
}
use uncluster.Store.Db.Transaction.{Triple-transaction, Triple-read}
use uncluster.Store.Acl.{
  CreateAclParams, conflicts, insert_acl, get_acl, get_acl_by_triple, bump_policy_version_tx,
  after_insert, acl_row, create_acl, delete_row, delete_acl,
}
use uncluster.Store.Acl.Versions.{Bumped, bump-Bumped}

module _ (sum_hex : List ℕ → String) where
  -- Nothing happened, or the row is new and was added with the bump of its agent's policy.
  abbrev pub Granted : Db → AclEntry → Db → Type 0
  Granted old row s =
      (s ≡ old)
      ⊎ ((any (conflicts row) old.acl ≡ false)
          × Bumped sum_hex old (old.acl ++ row ∷ []) row.agent_id s)

  -- Nothing happened, or the row with this id went away with the bump of its agent's policy.
  abbrev pub Removed : Db → String → Db → Type 0
  Removed old id s =
      (s ≡ old)
      ⊎ ((row : AclEntry) × (find (λ e. str_eq e.id id) old.acl ≡ some row)
          × Bumped sum_hex old (filter (λ e. not (str_eq e.id id)) old.acl) row.agent_id s)

  -- Only the versions of the database before matter.
  Bumped-rows :
      (old : Db) (rows : List AclEntry) (a : String) (s : Db)
      → Bumped sum_hex (record old { acl = rows }) rows a s
      → Bumped sum_hex old rows a s
  Bumped-rows old rows a s b = record {
    rows_are = b.rows_are;
    version_grows = b.version_grows;
    hash_fresh = b.hash_fresh;
    other_versions = b.other_versions;
    other_hashes = b.other_hashes;
  }

  bump_rows-Bumped :
      (old : Db) (rows : List AclEntry) (a : String)
      → Triple
          (λ s. s ≡ record old { acl = rows })
          (bump_policy_version_tx sum_hex a)
          (λ _. Bumped sum_hex old rows a)
          (λ _ _. Unit)
  bump_rows-Bumped old rows a =
      Triple-weaken (λ _. Bumped sum_hex (record old { acl = rows }) rows a) (λ _ _. Unit)
        (λ _ s b. Bumped-rows old rows a s b) (λ _ _ u. u)
        (bump-Bumped sum_hex (record old { acl = rows }) a)

  insert_acl-Outcome :
      (old : Db) (row : AclEntry) (s : Db)
      → s ≡ old
      → Outcome
          (λ _ d.
            (any (conflicts row) old.acl ≡ false) × (d ≡ record old { acl = old.acl ++ row ∷ [] }))
          (λ _ _. Unit)
          (insert_acl row s).0
          (insert_acl row s).1
  unfolding insert_acl
  insert_acl-Outcome old row s e = elim (Bool-cases (any (conflicts row) s.acl)) [
    | inl h ↦ rw h tt
    | inr h ↦ elim (Bool-cases (any (λ g. str_eq g.id row.agent_id) s.agents)) [
      | inl k ↦
          rw (h, k)
            (
              ap (λ (d : Db). any (conflicts row) d.acl) (sym e) ∙ h,
              ap (λ (d : Db). record d { acl = d.acl ++ row ∷ [] }) e,
            )
      | inr k ↦ rw (h, k) tt
    ]
  ]

  insert_and_bump-Granted :
      (old : Db) (row : AclEntry)
      → Triple
          (λ s. s ≡ old)
          (transaction (statement (insert_acl row) >> bump_policy_version_tx sum_hex row.agent_id))
          (λ _. Granted old row)
          (λ _. Granted old row)
  insert_and_bump-Granted old row =
      Triple-transaction _ (λ _ s e. inl e)
        (Triple-bind
          (λ _ s.
            (any (conflicts row) old.acl ≡ false) × (s ≡ record old { acl = old.acl ++ row ∷ [] }))
          _ _ (Triple-attempt _ _ (λ _ _. tt) (insert_acl-Outcome old row))
          (λ _.
            Triple-weaken
              (λ _ s.
                (any (conflicts row) old.acl ≡ false)
                × Bumped sum_hex old (old.acl ++ row ∷ []) row.agent_id s)
              (λ _ _. Unit) (λ _ s b. inr b) (λ _ _ u. u)
              (Triple-frame (any (conflicts row) old.acl ≡ false)
                (bump_rows-Bumped old (old.acl ++ row ∷ []) row.agent_id))))

  read_row-Committed :
      (P : Db → Type 0) (f : Db → Option AclEntry) (w : World Db)
      → P w.state
      → P ((query f >>= one_row) w).1.state
  read_row-Committed P f w p = both _ _ ((Triple-read {P = P} f).at w p)
    where
      both : (r : Result StoreError AclEntry) (s : Db) → Outcome (λ _. P) (λ _. P) r s → P s
      both (ok a) s h = h
      both (err e) s h = h

  after_insert-keeps :
      (P : Db → Type 0) (row : AclEntry) (r : Result StoreError (Unit {0})) (w : World Db)
      → Outcome (λ _. P) (λ _. P) r w.state
      → P (after_insert sum_hex row (r, w)).1.state
  unfolding get_acl get_acl_by_triple
  after_insert-keeps P row (ok u) w h = read_row-Committed P _ w h
  after_insert-keeps P row (err unique_violation) w h = read_row-Committed P _ w h
  after_insert-keeps P row (err e) w h = h

  -- Whatever the database refuses on the way, a grant changes nothing, or adds its new row, raises
  -- the version of its agent by one and stores the hash of the new rows, all together.
  pub create_acl-Granted :
      (fresh : String) (now : ℕ) (p : CreateAclParams) (w : World Db)
      → Granted w.state (acl_row sum_hex fresh now p) (create_acl sum_hex fresh now p w).1.state
  unfolding create_acl
  create_acl-Granted fresh now p w =
      after_insert-keeps (Granted w.state (acl_row sum_hex fresh now p))
        (acl_row sum_hex fresh now p) _ _
        ((insert_and_bump-Granted w.state (acl_row sum_hex fresh now p)).at w refl)

  delete_body-Removed :
      (old : Db) (id : String) (found : Option AclEntry)
      → Triple
          (λ s. (found ≡ find (λ e. str_eq e.id id) old.acl) × (s ≡ old))
          (one_row found >>= λ row. statement (delete_row id) >>= λ n.
            if n == 0 then raise not_found else bump_policy_version_tx sum_hex row.agent_id)
          (λ _. Removed old id)
          (λ _ _. Unit)
  unfolding delete_row
  delete_body-Removed old id none = record { at = λ w p. tt }
  delete_body-Removed old id (some row) =
      Triple-bind (λ r s. (r ≡ row) × (some row ≡ find (λ e. str_eq e.id id) old.acl) × (s ≡ old)) _
        _ (Triple-pure row (λ s p. (refl, p.0, p.1)))
        (λ r.
          Triple-bind
            (λ n s.
              ((r ≡ row) × (some row ≡ find (λ e. str_eq e.id id) old.acl))
              × (s ≡ record old { acl = filter (λ e. not (str_eq e.id id)) old.acl }))
            _ _
            (Triple-attempt io (delete_row id) (λ _ _. tt)
              (λ s p. (
                (p.0, p.1),
                ap (λ (d : Db). record d { acl = filter (λ e. not (str_eq e.id id)) d.acl }) p.2,
              )))
            (λ n.
              Triple-if (n == 0) _ _ (λ _. Triple-raise not_found (λ _ _. tt))
                (λ _.
                  Triple-weaken
                    (λ _ s.
                      ((r ≡ row) × (some row ≡ find (λ e. str_eq e.id id) old.acl))
                      × Bumped sum_hex old (filter (λ e. not (str_eq e.id id)) old.acl) r.agent_id
                          s)
                    (λ _ _. Unit) (λ _ s b. inr (r, sym b.0.1 ∙ ap some (sym b.0.0), b.1))
                    (λ _ _ u. u)
                    (Triple-frame ((r ≡ row) × (some row ≡ find (λ e. str_eq e.id id) old.acl)) (
                      bump_rows-Bumped old (filter (λ e. not (str_eq e.id id)) old.acl)
                        r.agent_id)))))

  delete_acl-Triple :
      (old : Db) (id : String)
      → Triple (λ s. s ≡ old) (delete_acl sum_hex id) (λ _. Removed old id) (λ _. Removed old id)
  unfolding delete_acl
  delete_acl-Triple old id =
      Triple-transaction _ (λ _ s e. inl e)
        (Triple-bind (λ found s. (found ≡ find (λ e. str_eq e.id id) old.acl) × (s ≡ old)) _ _
          (Triple-attempt _ _ (λ _ _. tt)
            (λ s e. (ap (λ (d : Db). find (λ r. str_eq r.id id) d.acl) e, e)))
          (delete_body-Removed old id))

  -- Whatever the database refuses on the way, a revocation changes nothing, or takes away the row
  -- with this id, raises the version of its agent by one and stores the hash of what is left.
  pub delete_acl-Removed :
      (id : String) (w : World Db) → Removed w.state id (delete_acl sum_hex id w).1.state
  delete_acl-Removed id w = both _ _ ((delete_acl-Triple w.state id).at w refl)
    where
      both :
          (r : Result StoreError (Unit {0})) (s : Db)
          → Outcome (λ _. Removed w.state id) (λ _. Removed w.state id) r s
          → Removed w.state id s
      both (ok a) s h = h
      both (err e) s h = h
