-- ===== src/Agent/Policy/Steps.antt =====
-- What each step of the renderer does to the file of one user.
use Prim.Native.String.{◌++◌ as concat}
use uncluster.Prelude.{
  String, ◌≡◌, refl, ap, sym, ◌∙◌, true, false, Option, none, some, List, [], ◌∷◌, ◌++◌, str_eq,
  str_eq_refl,
}
use mathlib.Core.List.{append_assoc, append-nil}
use uncluster.Prelude.Exec.Triple.{
  Triple, Outcome, Triple-attempt, Triple-bind, Triple-pure, Triple-raise, Triple-weaken,
  Triple-recover, Triple-any,
}
use uncluster.Agent.Dir.{
  Node, file, directory, Dir, Os, node_at, drop, put, opened, with_line, renamed, removed,
  open_trunc, print_line, settle, rename, remove, node_at-drop, node_at-put,
}
use uncluster.Agent.Policy.{clean_up, or_clean_up, print_lines, atomic_write_principals}

-- Actions that leave the entry of `u` alone.
module _ (u : String) (x : Option Node) where
  abbrev pub Holds : Dir → Type 0
  Holds d = node_at u d ≡ x

  pub put_keeps :
      (n : String) (y : Node) (d : Dir) → str_eq n u ≡ false → Holds d → Holds (put n y d)
  put_keeps n y d h k = node_at-put u n y d ∙ rw h k

  pub drop_keeps : (n : String) (d : Dir) → str_eq n u ≡ false → Holds d → Holds (drop n d)
  drop_keeps n d h k = node_at-drop u n d ∙ rw h k

  removed_keeps :
      (n : String) (d : Dir) (o : Option Node)
      → str_eq n u ≡ false
      → Holds d
      → Outcome (λ _. Holds) (λ _ _. Unit) (removed n d o).0 (removed n d o).1
  removed_keeps n d none h k = drop_keeps n d h k
  removed_keeps n d (some (file ls)) h k = drop_keeps n d h k
  removed_keeps n d (some (directory true)) h k = drop_keeps n d h k
  removed_keeps n d (some (directory false)) h k = tt

  pub remove-keeps :
      (n : String) → str_eq n u ≡ false → Triple Holds (remove n) (λ _. Holds) (λ _ _. Unit)
  unfolding remove
  remove-keeps n h = Triple-attempt _ _ (λ _ _. tt) (λ d k. removed_keeps n d (node_at n d) h k)

  opened_keeps :
      (n : String) (d : Dir) (o : Option Node)
      → str_eq n u ≡ false
      → Holds d
      → Outcome (λ _. Holds) (λ _ _. Unit) (opened n d o).0 (opened n d o).1
  opened_keeps n d none h k = put_keeps n (file []) d h k
  opened_keeps n d (some (file ls)) h k = put_keeps n (file []) d h k
  opened_keeps n d (some (directory e)) h k = tt

  with_line_keeps :
      (n line : String) (d : Dir) (o : Option Node)
      → str_eq n u ≡ false
      → Holds d
      → Holds (with_line n line d o)
  with_line_keeps n line d none h k = k
  with_line_keeps n line d (some (file ls)) h k = put_keeps n (file (ls ++ line ∷ [])) d h k
  with_line_keeps n line d (some (directory e)) h k = k

  renamed_keeps :
      (from to : String) (d : Dir) (o p : Option Node)
      → str_eq from u ≡ false
      → str_eq to u ≡ false
      → Holds d
      → Outcome (λ _. Holds) (λ _ _. Unit) (renamed from to d o p).0 (renamed from to d o p).1
  renamed_keeps from to d none p h i k = tt
  renamed_keeps from to d (some x) none h i k = put_keeps to x _ i (drop_keeps from d h k)
  renamed_keeps from to d (some x) (some (file ls)) h i k =
      put_keeps to x _ i (drop_keeps from d h k)
  renamed_keeps from to d (some x) (some (directory e)) h i k = tt

  print_lines-keeps :
      (n : String) (cs : List String)
      → str_eq n u ≡ false
      → Triple Holds (print_lines n cs) (λ _. Holds) (λ _ _. Unit)
  unfolding print_lines print_line
  print_lines-keeps n [] h = Triple-pure tt (λ d k. k)
  print_lines-keeps n (c ∷ cs) h =
      Triple-bind (λ _. Holds) _ _
        (Triple-attempt _ _ (λ _ _. tt) (λ d k. with_line_keeps n c d (node_at n d) h k))
        (λ _. print_lines-keeps n cs h)

-- An error stays an error, so what is wanted of a success is not touched by the cleaning up.
pub or_clean_up-Triple :
    {P : Dir → Type 0} {Q : Unit {0} → Dir → Type 0} (tmp : String) (m : Os (Unit {0}))
    → Triple P m Q (λ _ _. Unit)
    → Triple P (or_clean_up tmp m) Q (λ _ _. Unit)
unfolding or_clean_up
or_clean_up-Triple tmp m t =
    Triple-recover (λ _ _. Unit) _ m t
      (λ e.
        Triple-bind (λ _ _. Unit) _ _ (Triple-any (clean_up tmp)) (λ _. Triple-raise e (λ _ _. tt)))

pub settle-Triple : {P : Dir → Type 0} → Triple P settle (λ _. P) (λ _ _. Unit)
unfolding settle
settle-Triple = Triple-attempt _ _ (λ _ _. tt) (λ d k. k)

-- The write of one user leaves another user's file alone, whose name is not the temporary one.
pub atomic_write_principals-keeps :
    (u : String) (x : Option Node) (n : String) (cs : List String)
    → str_eq n u ≡ false
    → str_eq (concat n ".tmp") u ≡ false
    → Triple (Holds u x) (atomic_write_principals n cs) (λ _. Holds u x) (λ _ _. Unit)
unfolding atomic_write_principals open_trunc rename
atomic_write_principals-keeps u x n cs h i =
    Triple-bind (λ _. Holds u x) _ _
      (Triple-attempt _ _ (λ _ _. tt) (λ d k. opened_keeps u x _ d (node_at _ d) i k))
      (λ _.
        Triple-bind (λ _. Holds u x) _ _ (or_clean_up-Triple _ _ (print_lines-keeps u x _ cs i))
          (λ _.
            Triple-bind (λ _. Holds u x) _ _ (or_clean_up-Triple _ _ settle-Triple)
              (λ _.
                Triple-bind (λ _. Holds u x) _ _ (or_clean_up-Triple _ _ settle-Triple)
                  (λ _. or_clean_up-Triple _ _ (
                    Triple-attempt _ _ (λ _ _. tt)
                      (λ d k. renamed_keeps u x _ n d (node_at _ d) (node_at n d) i h k))))))

print_lines-writes :
    (n : String) (done cs : List String)
    → Triple
        (Holds n (some (file done)))
        (print_lines n cs)
        (λ _. Holds n (some (file (done ++ cs))))
        (λ _ _. Unit)
unfolding print_lines print_line
print_lines-writes n done [] =
    Triple-pure tt (λ d k. k ∙ ap (λ l. some (file l)) (sym (append-nil done)))
print_lines-writes n done (c ∷ cs) =
    Triple-bind (λ _. Holds n (some (file (done ++ c ∷ [])))) _ _
      (Triple-attempt _ _ (λ _ _. tt) (λ d k. printed d (node_at n d) k))
      (λ _.
        Triple-weaken _ _ (λ _ d k. k ∙ ap (λ l. some (file l)) (append_assoc done (c ∷ []) cs))
          (λ _ _ _. tt) (print_lines-writes n (done ++ c ∷ []) cs))
  where
    printed :
        (d : Dir) (o : Option Node)
        → o ≡ some (file done)
        → Holds n (some (file (done ++ c ∷ []))) (with_line n c d o)
    printed d none k = cc
    printed d (some (file ls)) k =
        node_at-put n n (file (ls ++ c ∷ [])) d ∙ rw (str_eq_refl n) (cc k)
    printed d (some (directory e)) k = cc

renamed_writes :
    (from to : String) (d : Dir) (o p : Option Node) (cs : List String)
    → o ≡ some (file cs)
    → Outcome
        (λ _. Holds to (some (file cs)))
        (λ _ _. Unit)
        (renamed from to d o p).0
        (renamed from to d o p).1
renamed_writes from to d none p cs h = cc
renamed_writes from to d (some x) none cs h =
    node_at-put to to x (drop from d) ∙ rw (str_eq_refl to) h
renamed_writes from to d (some x) (some (file ls)) cs h =
    node_at-put to to x (drop from d) ∙ rw (str_eq_refl to) h
renamed_writes from to d (some x) (some (directory e)) cs h = tt

opened_writes :
    (n : String) (d : Dir) (o : Option Node)
    → Outcome (λ _. Holds n (some (file []))) (λ _ _. Unit) (opened n d o).0 (opened n d o).1
opened_writes n d none = node_at-put n n (file []) d ∙ rw (str_eq_refl n) refl
opened_writes n d (some (file ls)) = node_at-put n n (file []) d ∙ rw (str_eq_refl n) refl
opened_writes n d (some (directory e)) = tt

-- A write that succeeds has left the user's file with exactly the callers.
pub atomic_write_principals-writes :
    (n : String) (cs : List String)
    → Triple
        (λ _. Unit)
        (atomic_write_principals n cs)
        (λ _. Holds n (some (file cs)))
        (λ _ _. Unit)
unfolding atomic_write_principals open_trunc rename
atomic_write_principals-writes n cs =
    let tmp = concat n ".tmp" in
    Triple-bind (λ _. Holds tmp (some (file []))) _ _
      (Triple-attempt _ _ (λ _ _. tt) (λ d k. opened_writes tmp d (node_at tmp d)))
      (λ _.
        Triple-bind (λ _. Holds tmp (some (file cs))) _ _
          (or_clean_up-Triple _ _ (print_lines-writes tmp [] cs))
          (λ _.
            Triple-bind (λ _. Holds tmp (some (file cs))) _ _ (or_clean_up-Triple _ _ settle-Triple)
              (λ _.
                Triple-bind (λ _. Holds tmp (some (file cs))) _ _
                  (or_clean_up-Triple _ _ settle-Triple)
                  (λ _. or_clean_up-Triple _ _ (
                    Triple-attempt _ _ (λ _ _. tt)
                      (λ d k. renamed_writes tmp n d (node_at tmp d) (node_at n d) cs k))))))
