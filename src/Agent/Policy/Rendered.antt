-- ===== src/Agent/Policy/Rendered.antt =====
-- The two loops of renderPrincipalsDir: what they leave of one user.
use mathlib.Core.Path.{subst}
use Prim.Native.String.{◌++◌ as concat}
use uncluster.Prelude.{
  String, ◌≡◌, refl, sym, ap, ◌∙◌, Bool, true, false, not, ◌&&◌, ◌||◌, Option, none, some, List, [],
  ◌∷◌, if◌then◌else◌, str_eq, str_eq_iff, any, find, filter, map, Bool-cases, inl, inr, arith,
}
use uncluster.Prelude.Exec.{◌>>◌}
use uncluster.Prelude.Exec.Triple.{
  Triple, Outcome, Triple-attempt, Triple-bind, Triple-pure, Triple-weaken, Triple-if, Triple-any,
}
use uncluster.Store.Db.{PolicyPrincipal}
use uncluster.Store.Acl.Snapshot.{allows, has_user, lists_caller, Once}
use uncluster.Agent.Dir.{Node, file, directory, Entry, Dir, Os, node_at, drop, removed, remove}
use uncluster.Agent.Policy.{atomic_write_principals, write_all, is_wanted, visit, prune}
use uncluster.Agent.Policy.Steps.{
  Holds, remove-keeps, atomic_write_principals-keeps, atomic_write_principals-writes,
}

-- The file of this user has the line of this caller.
abbrev pub listed : String → Option Node → Bool
listed c (some (file cs)) = lists_caller c cs
listed c _ = false

unfoldable pub lets_in : Dir → String → String → Bool
unfolding node_at any
lets_in d u c = listed c (node_at u d)

-- The name is a temporary one of some user.
abbrev pub has_tmp : String → List PolicyPrincipal → Bool
has_tmp u [] = false
has_tmp u (p ∷ ps) = str_eq (concat p.username ".tmp") u || has_tmp u ps

abbrev pub callers_of : String → List PolicyPrincipal → List String
callers_of u [] = []
callers_of u (p ∷ ps) = if str_eq p.username u then p.caller_token_ids else callers_of u ps

pub nobody :
    (ps : List PolicyPrincipal) (u c : String) → has_user u ps ≡ false → allows ps u c ≡ false
nobody [] u c h = refl
nobody (p ∷ ps) u c h = ground (arith, nobody ps u c)

pub allows-callers_of :
    (ps : List PolicyPrincipal) (u c : String)
    → Once ps
    → allows ps u c ≡ lists_caller c (callers_of u ps)
unfolding any
allows-callers_of [] u c w = refl
allows-callers_of (p ∷ ps) u c w = elim (Bool-cases (str_eq p.username u)) [
  | inl h ↦ ground (arith, h, nobody ps u c, w.0, (str_eq_iff p.username u).0 h)
  | inr h ↦ ground (arith, h, allows-callers_of ps u c w.1)
]

abbrev pub is_nil : List String → Bool
is_nil [] = true
is_nil (c ∷ cs) = false

-- The policy names the user without a caller.
abbrev pub emptied : String → List PolicyPrincipal → Bool
emptied u [] = false
emptied u (p ∷ ps) = (str_eq p.username u && is_nil p.caller_token_ids) || emptied u ps

pub no_callers :
    (u : String) (ps : List PolicyPrincipal)
    → is_nil (callers_of u ps) ≡ true
    → (has_user u ps && not (emptied u ps)) ≡ false
no_callers u [] h = refl
no_callers u (p ∷ ps) h = ground (arith, h, no_callers u ps)

pub some_callers :
    (u : String) (ps : List PolicyPrincipal)
    → is_nil (callers_of u ps) ≡ false
    → has_user u ps ≡ true
some_callers u [] h = cc
some_callers u (p ∷ ps) h = ground (arith, h, some_callers u ps)

pub wanted_iff :
    (ps : List PolicyPrincipal) (u : String)
    → is_wanted (map (λ p. p.username) ps) u ≡ has_user u ps
unfolding any
wanted_iff [] u = refl
wanted_iff (p ∷ ps) u = ground (arith, wanted_iff ps u)

abbrev without : String → List String → List String
without n want = filter (λ m. not (str_eq m n)) want

wanted-without :
    (u n : String) (want : List String)
    → is_wanted (without n want) u ≡ (is_wanted want u && not (str_eq n u))
unfolding any filter
wanted-without u n [] = refl
wanted-without u n (m ∷ want) =
    ground (arith, str_eq_iff m n, str_eq_iff n u, str_eq_iff m u, wanted-without u n want)

-- One principal, by whether it has a caller.
abbrev one : String → List PolicyPrincipal → List String → List String → Os (List String)
one n ps want [] = remove n >> write_all ps (without n want)
one n ps want (c ∷ cs) = atomic_write_principals n (c ∷ cs) >> write_all ps want

write_all-one :
    (p : PolicyPrincipal) (ps : List PolicyPrincipal) (want : List String)
    → write_all (p ∷ ps) want ≡ one p.username ps want p.caller_token_ids
unfolding write_all
write_all-one p ps want = branch p.caller_token_ids
  where
    branch :
        (cs : List String)
        → ◌≡◌ {A = Os (List String)}
            (elim cs [
              | [] ↦
                  remove p.username >> write_all ps (filter (λ n. not (str_eq n p.username)) want)
              | c ∷ cs ↦ atomic_write_principals p.username (c ∷ cs) >> write_all ps want
            ])
            (one p.username ps want cs)
    branch [] = refl
    branch (c ∷ cs) = refl

module _ (u : String) where
  -- Whether the user is wanted does not change.
  abbrev Same : List String → List String → Type 0
  Same want w = is_wanted w u ≡ is_wanted want u

  unaffected :
      (n : String) (want w : List String)
      → str_eq n u ≡ false
      → Same (without n want) w
      → Same want w
  unaffected n want w h k = k ∙ wanted-without u n want ∙ ground (arith, h)

  write_all-keeps :
      (x : Option Node) (ps : List PolicyPrincipal) (want : List String)
      → has_user u ps ≡ false
      → has_tmp u ps ≡ false
      → Triple (Holds u x) (write_all ps want) (λ w d. Same want w × Holds u x d) (λ _ _. Unit)
  unfolding write_all
  write_all-keeps x [] want h t = Triple-pure want (λ d k. (refl, k))
  write_all-keeps x (p ∷ ps) want h t =
      subst (λ m. Triple (Holds u x) m (λ w d. Same want w × Holds u x d) (λ _ _. Unit))
        (sym (write_all-one p ps want))
        (each p.caller_token_ids (write_all-keeps x ps want (ground arith) (ground arith))
          (write_all-keeps x ps (without p.username want) (ground arith) (ground arith)))
    where
      other : str_eq p.username u ≡ false
      other = ground arith

      each :
          (cs : List String)
          → Triple (Holds u x) (write_all ps want) (λ w d. Same want w × Holds u x d) (λ _ _. Unit)
          → Triple
              (Holds u x)
              (write_all ps (without p.username want))
              (λ w d. Same (without p.username want) w × Holds u x d)
              (λ _ _. Unit)
          → Triple
              (Holds u x)
              (one p.username ps want cs)
              (λ w d. Same want w × Holds u x d)
              (λ _ _. Unit)
      each [] rest less =
          Triple-bind (λ _. Holds u x) _ _ (remove-keeps u x p.username other)
            (λ _.
              Triple-weaken _ _ (λ w d k. (unaffected p.username want w other k.0, k.1))
                (λ _ _ k. k) less)
      each (c ∷ cs) rest less =
          Triple-bind (λ _. Holds u x) _ _
            (atomic_write_principals-keeps u x p.username (c ∷ cs) other (ground arith)) (λ _. rest)

  -- A user without a caller is not wanted behind the loop.
  pub write_all-wants :
      (ps : List PolicyPrincipal) (want : List String)
      → (is_wanted want u && not (emptied u ps)) ≡ false
      → Triple (λ _. Unit) (write_all ps want) (λ w _. is_wanted w u ≡ false) (λ _ _. Unit)
  unfolding write_all
  write_all-wants [] want g = Triple-pure want (λ d k. ground (arith, g))
  write_all-wants (p ∷ ps) want g =
      subst (λ m. Triple (λ _. Unit) m (λ w _. is_wanted w u ≡ false) (λ _ _. Unit))
        (sym (write_all-one p ps want))
        (each p.caller_token_ids g (λ want h. write_all-wants ps want h))
    where
      each :
          (cs : List String)
          → (is_wanted want u && not ((str_eq p.username u && is_nil cs) || emptied u ps)) ≡ false
          → ((want : List String)
              → (is_wanted want u && not (emptied u ps)) ≡ false
              → Triple (λ _. Unit) (write_all ps want) (λ w _. is_wanted w u ≡ false) (λ _ _. Unit))
          → Triple
              (λ _. Unit)
              (one p.username ps want cs)
              (λ w _. is_wanted w u ≡ false)
              (λ _ _. Unit)
      each [] h rest =
          Triple-bind (λ _ _. Unit) _ _ (Triple-any _)
            (λ _.
              rest (without p.username want) (ground (arith, h, wanted-without u p.username want)))
      each (c ∷ cs) h rest =
          Triple-bind (λ _ _. Unit) _ _ (Triple-any _) (λ _. rest want (ground (arith, h)))

  abbrev Written : List PolicyPrincipal → List String → Os (List String) → Type 0
  Written ps want m =
      Triple (λ _. Unit) m (λ w d. Same want w × Holds u (some (file (callers_of u ps))) d)
        (λ _ _. Unit)

  -- A user with a caller has a file of exactly the callers.
  pub write_all-writes :
      (ps : List PolicyPrincipal) (want : List String)
      → Once ps
      → is_nil (callers_of u ps) ≡ false
      → has_tmp u ps ≡ false
      → Written ps want (write_all ps want)
  unfolding write_all
  write_all-writes [] want g h t = cc
  write_all-writes (p ∷ ps) want g h t =
      subst (Written (p ∷ ps) want) (sym (write_all-one p ps want))
        (elim (Bool-cases (str_eq p.username u)) [
          | inl e ↦ own e p.caller_token_ids (rw e refl) (rw e at h)
          | inr e ↦
              other e p.caller_token_ids
                (λ want. write_all-writes ps want g.1 (rw e at h) (ground arith))
        ])
    where
      own :
          str_eq p.username u ≡ true
          → (cs : List String) → callers_of u (p ∷ ps) ≡ cs
          → is_nil cs ≡ false
          → Written (p ∷ ps) want (one p.username ps want cs)
      own e [] same full = cc
      own e (c ∷ cs) same full =
          Triple-weaken (λ w d. Same want w × Holds u (some (file (c ∷ cs))) d) (λ _ _. Unit)
            (λ w d k. (k.0, k.1 ∙ ap (λ l. some (file l)) (sym same))) (λ _ _ k. k)
            (Triple-bind (λ _. Holds u (some (file (c ∷ cs)))) _ _
              (subst
                (λ v.
                  Triple (λ _. Unit) (atomic_write_principals p.username (c ∷ cs))
                    (λ _. Holds v (some (file (c ∷ cs)))) (λ _ _. Unit))
                ((str_eq_iff p.username u).0 e)
                (atomic_write_principals-writes p.username (c ∷ cs)))
              (λ _.
                write_all-keeps (some (file (c ∷ cs))) ps want
                  (subst (λ v. has_user v ps ≡ false) ((str_eq_iff p.username u).0 e) g.0)
                  (ground arith)))

      other :
          str_eq p.username u ≡ false
          → (cs : List String) → ((want : List String) → Written ps want (write_all ps want))
          → Written (p ∷ ps) want (one p.username ps want cs)
      other e [] rest =
          Triple-bind (λ _ _. Unit) _ _ (Triple-any _)
            (λ _.
              Triple-weaken _ _ (λ w d k. (unaffected p.username want w e k.0, k.1 ∙ rw e refl))
                (λ _ _ k. k) (rest (without p.username want)))
      other e (c ∷ cs) rest =
          Triple-bind (λ _ _. Unit) _ _ (Triple-any _)
            (λ _. Triple-weaken _ _ (λ w d k. (k.0, k.1 ∙ rw e refl)) (λ _ _ k. k) (rest want))

  visit-keeps :
      (x : Option Node) (want : List String) (n : String) (o : Node)
      → is_wanted want u ≡ true
      → Triple (Holds u x) (visit want n o) (λ _. Holds u x) (λ _ _. Unit)
  visit-keeps x want n (directory b) h = Triple-pure tt (λ d k. k)
  visit-keeps x want n (file ls) h =
      Triple-if (is_wanted want n) _ _ (λ _. Triple-pure tt (λ d k. k))
        (λ no. remove-keeps u x n (ground (arith, h, no, (str_eq_iff n u).0)))

  pub prune-keeps :
      (x : Option Node) (want : List String) (es : Dir)
      → is_wanted want u ≡ true
      → Triple (Holds u x) (prune want es) (λ _. Holds u x) (λ _ _. Unit)
  unfolding prune
  prune-keeps x want [] h = Triple-pure tt (λ d k. k)
  prune-keeps x want (e ∷ es) h =
      Triple-bind (λ _. Holds u x) _ _ (visit-keeps x want e.name e.node h)
        (λ _. prune-keeps x want es h)

  abbrev is_file : Node → Bool
  is_file (file _) = true
  is_file (directory _) = false

  abbrev pub names_file : Entry → Bool
  names_file e = str_eq e.name u && is_file e.node

  -- Every file of the user that is still there is among the entries to come.
  abbrev pub Left : Dir → Dir → Type 0
  Left es d = (any names_file d && not (any names_file es)) ≡ false

  drop_other :
      (n : String) (d : Dir)
      → any names_file (drop n d) ≡ (if str_eq n u then false else any names_file d)
  unfolding any drop filter
  drop_other n [] = ground arith
  drop_other n (e ∷ d) =
      ground (arith, str_eq_iff e.name n, str_eq_iff n u, str_eq_iff e.name u, drop_other n d)

  drop-Left :
      (n : String) (o : Node) (es d : Dir)
      → Left (record { name = n; node = o } ∷ es) d
      → Left es (drop n d)
  unfolding any
  drop-Left n o es d h = ground (arith, drop_other n d)

  removed-Left :
      (n : String) (es d : Dir) (o : Node) (x : Option Node)
      → Left (record { name = n; node = o } ∷ es) d
      → Outcome (λ _. Left es) (λ _ _. Unit) (removed n d x).0 (removed n d x).1
  removed-Left n es d o none h = drop-Left n o es d h
  removed-Left n es d o (some (file ls)) h = drop-Left n o es d h
  removed-Left n es d o (some (directory true)) h = drop-Left n o es d h
  removed-Left n es d o (some (directory false)) h = tt

  visit-Left :
      (want : List String) (n : String) (o : Node) (es : Dir)
      → is_wanted want u ≡ false
      → Triple
          (Left (record { name = n; node = o } ∷ es))
          (visit want n o)
          (λ _. Left es)
          (λ _ _. Unit)
  unfolding remove any
  visit-Left want n (directory b) es h = Triple-pure tt (λ d k. ground (arith, k))
  visit-Left want n (file ls) es h =
      Triple-if (is_wanted want n) _ _
        (λ yes. Triple-pure tt (λ d k. ground (arith, k, h, yes, (str_eq_iff n u).0)))
        (λ _. Triple-attempt _ _ (λ _ _. tt) (λ d k. removed-Left n es d (file ls) (node_at n d) k))

  pub prune-Left :
      (want : List String) (es : Dir)
      → is_wanted want u ≡ false
      → Triple (Left es) (prune want es) (λ _. Left []) (λ _ _. Unit)
  unfolding prune
  prune-Left want [] h = Triple-pure tt (λ d k. k)
  prune-Left want (e ∷ es) h =
      Triple-bind (λ _. Left es) _ _ (visit-Left want e.name e.node es h)
        (λ _. prune-Left want es h)

  pub no_file : (c : String) (d : Dir) → any names_file d ≡ false → lets_in d u c ≡ false
  unfolding any lets_in node_at find
  no_file c [] h = refl
  no_file c (e ∷ d) h = ground (arith, no_file c d)
