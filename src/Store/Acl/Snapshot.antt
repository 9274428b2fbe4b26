-- ===== src/Store/Acl/Snapshot.antt =====
-- GetPolicySnapshot: the principals are exactly the ACL rows of the agent.
use uncluster.Prelude.{
  String, ◌≡◌, refl, sym, ap, ◌∙◌, ◌≢◌, Bool, false, ◌&&◌, ◌||◌, List, [], ◌∷◌, ◌++◌, arith, map,
  str_eq, str_eq_iff, Bool-cases, inl, inr, filter, find, any, insert,
}
use uncluster.Prelude.Exec.{Result, ok, err, World}
use uncluster.Prelude.Exec.Triple.{
  Triple, Outcome, Outcome-ok, Triple-attempt, Triple-bind, Triple-pure,
}
use uncluster.Store.Db.Transaction.{Triple-transaction}
use uncluster.PolicyHash.{Grant, not_after, sort_grants}
use uncluster.Store.Db.{StoreError, AclEntry, PolicyPrincipal, PolicySnapshot, Db}
use uncluster.Store.Acl.{
  is_triple, to_grant, grants_of, add_caller, group_onto, stored_version, stored_hash,
  version_or_zero, hash_or_empty, get_policy_snapshot,
}

abbrev pub lists_caller : String → List String → Bool
lists_caller c callers = any (λ x. str_eq x c) callers

-- Some principal with this user name lists this caller.
abbrev pub allows : List PolicyPrincipal → String → String → Bool
allows [] u c = false
allows (p ∷ ps) u c = (str_eq p.username u && lists_caller c p.caller_token_ids) || allows ps u c

abbrev pub has_user : String → List PolicyPrincipal → Bool
has_user u [] = false
has_user u (p ∷ ps) = str_eq p.username u || has_user u ps

-- A user name stands once, and with at least one caller.
abbrev pub WellGrouped : List PolicyPrincipal → Type 0
WellGrouped [] = Unit
WellGrouped (p ∷ ps) = (has_user p.username ps ≡ false) × (p.caller_token_ids ≢ []) × WellGrouped ps

-- A user name stands once, with callers or without.
abbrev pub Once : List PolicyPrincipal → Type 0
Once [] = Unit
Once (p ∷ ps) = (has_user p.username ps ≡ false) × Once ps

pub WellGrouped-Once : (ps : List PolicyPrincipal) → WellGrouped ps → Once ps
WellGrouped-Once [] w = tt
WellGrouped-Once (p ∷ ps) w = (w.0, WellGrouped-Once ps w.2)

abbrev is_grant : String → String → Grant → Bool
is_grant u c g = str_eq g.username u && str_eq g.caller_token_id c

any-snoc :
    (c : String) (xs : List String) (x : String)
    → lists_caller c (xs ++ x ∷ []) ≡ (lists_caller c xs || str_eq x c)
unfolding any
any-snoc c [] x = ground arith
any-snoc c (y ∷ xs) x = ground (arith, any-snoc c xs x)

snoc-ne-nil : (xs : List String) (x : String) → xs ++ x ∷ [] ≢ []
snoc-ne-nil [] x h = ground arith
snoc-ne-nil (y ∷ xs) x h = ground arith

allows-add_caller :
    (user caller u c : String) (ps : List PolicyPrincipal)
    → allows (add_caller user caller ps) u c
      ≡ (allows ps u c || is_grant u c (record { username = user; caller_token_id = caller }))
unfolding add_caller any
allows-add_caller user caller u c [] = ground arith
allows-add_caller user caller u c (p ∷ ps) = ground (
  arith,
  str_eq_iff p.username user,
  any-snoc c p.caller_token_ids caller,
  allows-add_caller user caller u c ps,
)

has_user-add_caller :
    (user caller u : String) (ps : List PolicyPrincipal)
    → has_user u (add_caller user caller ps) ≡ (has_user u ps || str_eq user u)
unfolding add_caller
has_user-add_caller user caller u [] = ground arith
has_user-add_caller user caller u (p ∷ ps) =
    ground (arith, str_eq_iff p.username user, has_user-add_caller user caller u ps)

WellGrouped-add_caller :
    (user caller : String) (ps : List PolicyPrincipal)
    → WellGrouped ps
    → WellGrouped (add_caller user caller ps)
unfolding add_caller
WellGrouped-add_caller user caller [] w = (refl, λ e. cc, tt)
WellGrouped-add_caller user caller (p ∷ ps) w = elim (Bool-cases (str_eq p.username user)) [
  | inl h ↦ rw h (w.0, snoc-ne-nil p.caller_token_ids caller, w.2)
  | inr h ↦ rw h (
    ground (
      arith,
      has_user-add_caller user caller p.username ps,
      str_eq_iff user p.username,
      str_eq_iff p.username user,
      w.0,
    ),
    w.1,
    WellGrouped-add_caller user caller ps w.2,
  )
]

any-or : (p : Grant → Bool) (x : Grant) (xs : List Grant) → any p (x ∷ xs) ≡ (p x || any p xs)
unfolding any
any-or p x xs = ground arith

any-insert :
    (p : Grant → Bool) (x : Grant) (xs : List Grant)
    → any p (insert not_after x xs) ≡ (p x || any p xs)
unfolding insert any
any-insert p x [] = ground arith
any-insert p x (y ∷ ys) = ground (arith, any-insert p x ys)

any-sort_grants : (p : Grant → Bool) (xs : List Grant) → any p (sort_grants xs) ≡ any p xs
unfolding sort_grants
any-sort_grants p [] = refl
any-sort_grants p (x ∷ xs) =
    any-insert p x (sort_grants xs)
    ∙ ap (λ b. p x || b) (any-sort_grants p xs)
    ∙ sym (any-or p x xs)

allows-group_onto :
    (u c : String) (gs : List Grant) (ps : List PolicyPrincipal)
    → allows (group_onto ps gs) u c ≡ (allows ps u c || any (is_grant u c) gs)
unfolding group_onto
allows-group_onto u c [] ps = unfold any in ground arith
allows-group_onto u c (g ∷ gs) ps = ground (
  arith,
  allows-group_onto u c gs (add_caller g.username g.caller_token_id ps),
  allows-add_caller g.username g.caller_token_id u c ps,
  any-or (is_grant u c) g gs,
)

WellGrouped-group_onto :
    (gs : List Grant) (ps : List PolicyPrincipal) → WellGrouped ps → WellGrouped (group_onto ps gs)
unfolding group_onto
WellGrouped-group_onto [] ps w = w
WellGrouped-group_onto (g ∷ gs) ps w =
    WellGrouped-group_onto gs _ (WellGrouped-add_caller g.username g.caller_token_id ps w)

any-rows :
    (a u c : String) (rows : List AclEntry)
    → any (is_grant u c) (map to_grant (filter (λ e. str_eq e.agent_id a) rows))
      ≡ any (is_triple c a u) rows
unfolding any filter
any-rows a u c [] = refl
any-rows a u c (e ∷ es) = ground (arith, any-rows a u c es)

-- The principals of the rows: a caller may log in as a user exactly if there is such a row.
pub allows-grants_of :
    (a u c : String) (rows : List AclEntry)
    → allows (group_onto [] (grants_of a rows)) u c ≡ any (is_triple c a u) rows
allows-grants_of a u c rows =
    allows-group_onto u c (grants_of a rows) []
    ∙ unfold grants_of in (any-sort_grants (is_grant u c) _ ∙ any-rows a u c rows)

-- The snapshot is that of agent `a` in this database.
pub record Describes (db : Db) (a : String) (snap : PolicySnapshot) : Type 0 where
  pub version_is : snap.version ≡ stored_version db a
  pub hash_is : snap.hash ≡ stored_hash db a
  pub rows_are : (u c : String) → allows snap.principals u c ≡ any (is_triple c a u) db.acl
  pub grouped : WellGrouped snap.principals

pub get_policy_snapshot-Triple :
    (old : Db) (a : String)
    → Triple
        (λ s. s ≡ old)
        (get_policy_snapshot a)
        (λ snap s. (s ≡ old) × Describes old a snap)
        (λ _ s. s ≡ old)
unfolding get_policy_snapshot
get_policy_snapshot-Triple old a =
    Triple-transaction _ (λ _ s e. e)
      (Triple-bind (λ row s. (row ≡ find (λ v. str_eq v.agent_id a) old.versions) × (s ≡ old)) _ _
        (Triple-attempt _ _ (λ _ _. tt)
          (λ s e. (ap (λ (d : Db). find (λ v. str_eq v.agent_id a) d.versions) e, e)))
        (λ row.
          Triple-bind
            (λ gs s.
              (row ≡ find (λ v. str_eq v.agent_id a) old.versions)
              × (gs ≡ grants_of a old.acl)
              × (s ≡ old))
            _ _
            (Triple-attempt _ _ (λ _ _. tt)
              (λ s e. (e.0, ap (λ (d : Db). grants_of a d.acl) e.1, e.1)))
            (λ gs. Triple-pure _ (λ s e. (
              e.2,
              record {
                version_is = ap version_or_zero e.0;
                hash_is = ap hash_or_empty e.0;
                rows_are = λ u c.
                    ap (λ l. allows (group_onto [] l) u c) e.1 ∙ allows-grants_of a u c old.acl;
                grouped = WellGrouped-group_onto gs [] tt;
              },
            )))))

-- A snapshot that is read without an error describes the one state of the database: the version and
-- the stored hash of the agent, and principals that allow a user and a caller exactly if the ACL has
-- that row for the agent, each user listed once and with a caller. The read changes nothing.
pub get_policy_snapshot-Describes :
    (a : String) (w : World Db) (snap : PolicySnapshot)
    → (get_policy_snapshot a w).0 ≡ ok snap
    → ((get_policy_snapshot a w).1.state ≡ w.state) × Describes w.state a snap
get_policy_snapshot-Describes a w snap h =
    Outcome-ok (λ s d. (d ≡ w.state) × Describes w.state a s) (λ _ d. d ≡ w.state) _ _ snap h
      ((get_policy_snapshot-Triple w.state a).at w refl)

pub get_policy_snapshot-keeps :
    (a : String) (w : World Db) → (get_policy_snapshot a w).1.state ≡ w.state
get_policy_snapshot-keeps a w = both _ _ ((get_policy_snapshot-Triple w.state a).at w refl)
  where
    both :
        (r : Result StoreError PolicySnapshot) (s : Db)
        → Outcome (λ snap d. (d ≡ w.state) × Describes w.state a snap) (λ _ d. d ≡ w.state) r s
        → s ≡ w.state
    both (ok x) s h = h.0
    both (err e) s h = h
