-- ===== src/Store/Acl/Versions.antt =====
-- The version row of an agent across `bumpPolicyVersionTx`.
use mathlib.Core.Path.{subst}
use uncluster.Prelude.{
  sym, Bool-cases, inl, inr, ℕ, ◌+◌, String, ◌≡◌, refl, ◌≢◌, Bool, true, false, none, some, List,
  [], ◌∷◌, ◌++◌, arith, if◌then◌else◌, str_eq, str_eq_iff, str_eq_refl, find, any, update_where,
}
use uncluster.Prelude.Exec.Triple.{Triple, Outcome, Triple-attempt, Triple-bind}
use uncluster.Store.Db.{AclEntry, PolicyVersion, Db}
use uncluster.Store.Acl.{
  stored_version, stored_hash, policy_hash, upsert_version, set_hash, bump_policy_version_tx,
}

abbrev of_agent : String → PolicyVersion → Bool
of_agent a v = str_eq v.agent_id a

-- An update of one agent's row leaves the rows of the others.
find-update_ne :
    (a b : String) (f : PolicyVersion → PolicyVersion) (vs : List PolicyVersion)
    → b ≢ a
    → ((v : PolicyVersion) → (f v).agent_id ≡ v.agent_id)
    → find (of_agent b) (update_where (of_agent a) f vs) ≡ find (of_agent b) vs
unfolding find update_where
find-update_ne a b f [] ne keep = refl
find-update_ne a b f (v ∷ vs) ne keep = ground (
  arith,
  keep v,
  str_eq_iff v.agent_id a,
  str_eq_iff v.agent_id b,
  str_eq_iff (f v).agent_id b,
  find-update_ne a b f vs ne keep,
)

find-update_self :
    (a : String) (f : PolicyVersion → PolicyVersion) (vs : List PolicyVersion)
    → ((v : PolicyVersion) → (f v).agent_id ≡ v.agent_id)
    → find (of_agent a) (update_where (of_agent a) f vs)
      ≡ elim (find (of_agent a) vs) [ none ↦ none | some v ↦ some (f v) ]
unfolding find update_where
find-update_self a f [] keep = refl
find-update_self a f (v ∷ vs) keep = ground (arith, keep v, find-update_self a f vs keep)

find-snoc :
    (p : PolicyVersion → Bool) (vs : List PolicyVersion) (v : PolicyVersion)
    → find p (vs ++ v ∷ [])
      ≡ elim (find p vs) [ none ↦ (if p v then some v else none) | some x ↦ some x ]
unfolding find
find-snoc p [] v = refl
find-snoc p (x ∷ vs) v = ground (arith, find-snoc p vs v)

any-find :
    (p : PolicyVersion → Bool) (vs : List PolicyVersion)
    → any p vs ≡ elim (find p vs) [ none ↦ false | some _ ↦ true ]
unfolding find any
any-find p [] = refl
any-find p (x ∷ vs) = ground (arith, any-find p vs)

-- `s` is `old` with the version of agent `a` one higher.
record Upserted (old : Db) (a : String) (s : Db) : Type 0 where
  rows : s.acl ≡ old.acl
  grows : stored_version s a ≡ stored_version old a + 1
  present : any (of_agent a) s.versions ≡ true
  other_versions : (b : String) → b ≢ a → stored_version s b ≡ stored_version old b
  other_hashes : (b : String) → b ≢ a → stored_hash s b ≡ stored_hash old b

abbrev bump_one : PolicyVersion → PolicyVersion
bump_one v = record v { version = v.version + 1 }

abbrev first_row : String → PolicyVersion
first_row a = record { agent_id = a; version = 1; hash = "" }

module _ (old : Db) (a : String) where
  updated-Upserted :
      any (of_agent a) old.versions ≡ true
      → Upserted old a (record old { versions = update_where (of_agent a) bump_one old.versions })
  updated-Upserted h = record {
    rows = refl;
    grows = ground (
      arith,
      any-find (of_agent a) old.versions,
      find-update_self a bump_one old.versions (λ v. refl),
    );
    present = ground (
      arith,
      any-find (of_agent a) old.versions,
      any-find (of_agent a) (update_where (of_agent a) bump_one old.versions),
      find-update_self a bump_one old.versions (λ v. refl),
    );
    other_versions = λ b ne. rw (find-update_ne a b bump_one old.versions ne (λ v. refl));
    other_hashes = λ b ne. rw (find-update_ne a b bump_one old.versions ne (λ v. refl));
  }

  inserted-Upserted :
      any (of_agent a) old.versions ≡ false
      → Upserted old a (record old { versions = old.versions ++ first_row a ∷ [] })
  inserted-Upserted h = record {
    rows = refl;
    grows = ground (
      arith,
      any-find (of_agent a) old.versions,
      find-snoc (of_agent a) old.versions (first_row a),
      str_eq_refl a,
    );
    present = ground (
      arith,
      any-find (of_agent a) old.versions,
      any-find (of_agent a) (old.versions ++ first_row a ∷ []),
      find-snoc (of_agent a) old.versions (first_row a),
      str_eq_refl a,
    );
    other_versions = λ b ne.
        ground (arith, find-snoc (of_agent b) old.versions (first_row a), str_eq_iff a b, ne);
    other_hashes = λ b ne.
        ground (arith, find-snoc (of_agent b) old.versions (first_row a), str_eq_iff a b, ne);
  }

  upsert_version-Upserted :
      Outcome (λ _. Upserted old a) (λ _ _. Unit) (upsert_version a old).0 (upsert_version a old).1
  unfolding upsert_version
  upsert_version-Upserted = elim (Bool-cases (any (of_agent a) old.versions)) [
    | inl h ↦ rw h (updated-Upserted h)
    | inr h ↦ elim (Bool-cases (any (λ g. str_eq g.id a) old.agents)) [
      | inl k ↦ rw (h, k) (inserted-Upserted h)
      | inr k ↦ rw (h, k) tt
    ]
  ]

-- What `bumpPolicyVersionTx` does to the database: the version of agent `a` is one higher, its hash
-- is that of the ACL rows, and nothing else of the policies changes.
pub record Bumped (sum_hex : List ℕ → String) (old : Db) (rows : List AclEntry) (a : String)
    (s : Db) : Type 0 where
  pub rows_are : s.acl ≡ rows
  pub version_grows : stored_version s a ≡ stored_version old a + 1
  pub hash_fresh : stored_hash s a ≡ policy_hash sum_hex a s
  pub other_versions : (b : String) → b ≢ a → stored_version s b ≡ stored_version old b
  pub other_hashes : (b : String) → b ≢ a → stored_hash s b ≡ stored_hash old b

abbrev with_hash : String → PolicyVersion → PolicyVersion
with_hash h v = record v { hash = h }

module _ (sum_hex : List ℕ → String) (old : Db) (a : String) where
  set_hash-Bumped :
      (s : Db)
      → Upserted old a s
      → Bumped sum_hex old old.acl a (set_hash a (policy_hash sum_hex a s) s).1
  unfolding set_hash
  set_hash-Bumped s u = record {
    rows_are = u.rows;
    version_grows = ground (
      arith,
      u.grows,
      any-find (of_agent a) s.versions,
      u.present,
      find-update_self a (with_hash (policy_hash sum_hex a s)) s.versions (λ v. refl),
    );
    hash_fresh = ground (
      arith,
      any-find (of_agent a) s.versions,
      u.present,
      find-update_self a (with_hash (policy_hash sum_hex a s)) s.versions (λ v. refl),
    );
    other_versions = λ b ne.
        rw (find-update_ne a b (with_hash (policy_hash sum_hex a s)) s.versions ne (λ v. refl))
          (u.other_versions b ne);
    other_hashes = λ b ne.
        rw (find-update_ne a b (with_hash (policy_hash sum_hex a s)) s.versions ne (λ v. refl))
          (u.other_hashes b ne);
  }

  pub bump-Bumped :
      Triple
        (λ s. s ≡ old)
        (bump_policy_version_tx sum_hex a)
        (λ _. Bumped sum_hex old old.acl a)
        (λ _ _. Unit)
  unfolding bump_policy_version_tx
  bump-Bumped =
      Triple-bind (λ _. Upserted old a) _ _
        (Triple-attempt _ _ (λ _ _. tt)
          (λ s e.
            subst
              (λ d.
                Outcome (λ _. Upserted old a) (λ _ _. Unit) (upsert_version a d).0
                  (upsert_version a d).1)
              (sym e) (upsert_version-Upserted old a)))
        (λ _.
          Triple-bind (λ h s. Upserted old a s × (h ≡ policy_hash sum_hex a s)) _ _
            (Triple-attempt _ _ (λ _ _. tt) (λ s u. (u, refl)))
            (λ h.
              Triple-attempt _ _ (λ _ _. tt)
                (λ s p.
                  subst (λ k. Bumped sum_hex old old.acl a (set_hash a k s).1) (sym p.1)
                    (set_hash-Bumped s p.0))))
