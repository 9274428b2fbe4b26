-- ===== src/Store/Acl/Invariant.antt =====
-- The invariant of the policy tables: the stored hash of every agent is the hash of its ACL rows.
use mathlib.Core.Path.{subst}
use uncluster.Prelude.{
  ℕ, String, ◌≡◌, refl, sym, ap, ◌∙◌, ◌≢◌, inl, inr, Bool, true, false, not, some, List, [], ◌∷◌,
  ◌++◌, arith, map, if◌then◌else◌, str_eq, str_eq_iff, Bool-cases, filter, find, any,
}
use uncluster.Prelude.Exec.{World}
use uncluster.PolicyHash.{sort_grants, hash}
use uncluster.Store.Db.{AclEntry, Db, empty_db}
use uncluster.Store.Acl.{
  CreateAclParams, conflicts, to_grant, grants_of, stored_hash, policy_hash, create_acl, delete_acl,
}
use uncluster.Store.Acl.Versions.{Bumped}
use uncluster.Store.Acl.Synced.{Granted, Removed, create_acl-Granted, delete_acl-Removed}

abbrev id_is : String → AclEntry → Bool
id_is id e = str_eq e.id id

abbrev agent_is : String → AclEntry → Bool
agent_is a e = str_eq e.agent_id a

-- The primary key of the table.
abbrev pub UniqueIds : List AclEntry → Type 0
UniqueIds [] = Unit
UniqueIds (e ∷ es) = (any (id_is e.id) es ≡ false) × UniqueIds es

any-snoc :
    (p : AclEntry → Bool) (xs : List AclEntry) (x : AclEntry)
    → any p (xs ++ x ∷ []) ≡ (if any p xs then true else p x)
unfolding any
any-snoc p [] x = ground arith
any-snoc p (y ∷ xs) x = ground (arith, any-snoc p xs x)

any-filter :
    (p q : AclEntry → Bool) (xs : List AclEntry) → any p xs ≡ false → any p (filter q xs) ≡ false
unfolding any filter
any-filter p q [] h = refl
any-filter p q (x ∷ xs) h = ground (arith, any-filter p q xs)

UniqueIds-snoc :
    (xs : List AclEntry) (row : AclEntry)
    → any (conflicts row) xs ≡ false
    → UniqueIds xs
    → UniqueIds (xs ++ row ∷ [])
unfolding any
UniqueIds-snoc [] row h u = (refl, tt)
UniqueIds-snoc (x ∷ xs) row h u = (
  ground (arith, any-snoc (id_is x.id) xs row, u.0, str_eq_iff x.id row.id, str_eq_iff row.id x.id),
  UniqueIds-snoc xs row (ground arith) u.1,
)

UniqueIds-filter :
    (q : AclEntry → Bool) (xs : List AclEntry) → UniqueIds xs → UniqueIds (filter q xs)
unfolding filter
UniqueIds-filter q [] u = tt
UniqueIds-filter q (x ∷ xs) u = elim (Bool-cases (q x)) [
  | inl h ↦ rw h (any-filter (id_is x.id) q xs u.0, UniqueIds-filter q xs u.1)
  | inr h ↦ rw h (UniqueIds-filter q xs u.1)
]

-- A deletion by an id that is not there.
filter-absent :
    (id : String) (xs : List AclEntry)
    → any (id_is id) xs ≡ false
    → filter (λ e. not (str_eq e.id id)) xs ≡ xs
unfolding any filter
filter-absent id [] h = refl
filter-absent id (x ∷ xs) h = ground (arith, filter-absent id xs)

-- A deletion leaves the rows of the agents that the deleted row is not about.
filter-delete_ne :
    (id b : String) (row : AclEntry) (xs : List AclEntry)
    → UniqueIds xs
    → find (id_is id) xs ≡ some row
    → b ≢ row.agent_id
    → filter (agent_is b) (filter (λ e. not (str_eq e.id id)) xs) ≡ filter (agent_is b) xs
unfolding find filter
filter-delete_ne id b row [] u f ne = refl
filter-delete_ne id b row (x ∷ xs) u f ne = elim (Bool-cases (str_eq x.id id)) [
  | inl h ↦ ground (
    arith,
    h,
    str_eq_iff x.id id,
    str_eq_iff x.agent_id b,
    ap (λ (s : String). any (id_is s) xs) ((str_eq_iff x.id id).0 h),
    u.0,
    filter-absent id xs,
    ne,
    f,
  )
  | inr h ↦ ground (arith, h, f, filter-delete_ne id b row xs u.1)
]

filter-snoc_drop :
    (p : AclEntry → Bool) (xs : List AclEntry) (row : AclEntry)
    → p row ≡ false
    → filter p (xs ++ row ∷ []) ≡ filter p xs
unfolding filter
filter-snoc_drop p [] row h = ground arith
filter-snoc_drop p (x ∷ xs) row h = ground (arith, filter-snoc_drop p xs row h)

module _ (b : String) where
  grants_of-snoc_ne :
      (xs : List AclEntry) (row : AclEntry)
      → b ≢ row.agent_id
      → grants_of b (xs ++ row ∷ []) ≡ grants_of b xs
  unfolding grants_of
  grants_of-snoc_ne xs row ne =
      ap (λ (l : List AclEntry). sort_grants (map to_grant l))
        (filter-snoc_drop (agent_is b) xs row (ground (arith, str_eq_iff row.agent_id b)))

  grants_of-delete_ne :
      (id : String) (row : AclEntry) (xs : List AclEntry)
      → UniqueIds xs
      → find (id_is id) xs ≡ some row
      → b ≢ row.agent_id
      → grants_of b (filter (λ e. not (str_eq e.id id)) xs) ≡ grants_of b xs
  unfolding grants_of
  grants_of-delete_ne id row xs u f ne =
      ap (λ (l : List AclEntry). sort_grants (map to_grant l)) (filter-delete_ne id b row xs u f ne)

module _ (sum_hex : List ℕ → String) where
  -- Row ids are unique, and every agent's stored hash is that of its rows: "" where there is none.
  pub record IsSynced (db : Db) : Type 0 where
    pub unique : UniqueIds db.acl
    pub hashes : (a : String) → stored_hash db a ≡ policy_hash sum_hex a db

  pub empty_db-IsSynced : IsSynced empty_db
  unfolding hash grants_of find
  empty_db-IsSynced = record { unique = tt; hashes = λ a. refl }

  Bumped-hashes :
      (old : Db) (rows : List AclEntry) (a : String) (s : Db) (b : String)
      → Bumped sum_hex old rows a s
      → (b ≢ a → stored_hash old b ≡ policy_hash sum_hex b old)
      → (b ≢ a → grants_of b rows ≡ grants_of b old.acl)
      → stored_hash s b ≡ policy_hash sum_hex b s
  Bumped-hashes old rows a s b bumped before same = elim (Bool-cases (str_eq b a)) [
    | inl h ↦
        subst (λ c. stored_hash s c ≡ policy_hash sum_hex c s) (sym ((str_eq_iff b a).0 h))
          bumped.hash_fresh
    | inr h ↦
        let ne : b ≢ a = λ e. cc (h, (str_eq_iff b a).1 e) in
        bumped.other_hashes b ne
        ∙ before ne
        ∙ ap (hash sum_hex) (sym (same ne) ∙ ap (grants_of b) (sym bumped.rows_are))
  ]

  Granted-IsSynced :
      (old : Db) (row : AclEntry) (s : Db) → IsSynced old → Granted sum_hex old row s → IsSynced s
  Granted-IsSynced old row s sync (inl same) = subst IsSynced (sym same) sync
  Granted-IsSynced old row s sync (inr (new, bumped)) = record {
    unique = subst UniqueIds (sym bumped.rows_are) (UniqueIds-snoc old.acl row new sync.unique);
    hashes = λ b.
        Bumped-hashes old _ _ s b bumped (λ _. sync.hashes b) (grants_of-snoc_ne b old.acl row);
  }

  Removed-IsSynced :
      (old : Db) (id : String) (s : Db) → IsSynced old → Removed sum_hex old id s → IsSynced s
  Removed-IsSynced old id s sync (inl same) = subst IsSynced (sym same) sync
  Removed-IsSynced old id s sync (inr (row, found, bumped)) = record {
    unique = subst UniqueIds (sym bumped.rows_are) (UniqueIds-filter _ old.acl sync.unique);
    hashes = λ b.
        Bumped-hashes old _ _ s b bumped (λ _. sync.hashes b)
          (grants_of-delete_ne b id row old.acl sync.unique found);
  }

  -- A grant keeps every stored hash equal to the hash of the ACL rows, whatever statement, commit or
  -- read the database refuses.
  pub create_acl-IsSynced :
      (fresh : String) (now : ℕ) (p : CreateAclParams) (w : World Db)
      → IsSynced w.state
      → IsSynced (create_acl sum_hex fresh now p w).1.state
  create_acl-IsSynced fresh now p w sync =
      Granted-IsSynced w.state _ _ sync (create_acl-Granted sum_hex fresh now p w)

  -- A revocation keeps it too.
  pub delete_acl-IsSynced :
      (id : String) (w : World Db) → IsSynced w.state → IsSynced (delete_acl sum_hex id w).1.state
  delete_acl-IsSynced id w sync =
      Removed-IsSynced w.state id _ sync (delete_acl-Removed sum_hex id w)
