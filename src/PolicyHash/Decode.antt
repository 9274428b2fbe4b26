-- ===== src/PolicyHash/Decode.antt =====
-- The canonical bytes determine the grants, where no name holds a separator.
use mathlib.Core.List.{Perm, append_assoc}
use mathlib.Core.Path.{subst}
use mathlib.Core.List.Perm
use uncluster.Prelude.{
  ℕ, ◌≡◌, refl, ◌≢◌, sym, ◌∙◌, Bool, false, ◌||◌, List, [], ◌∷◌, ◌++◌, arith, ◌==◌, codes,
  codes_injective, sort-perm, insert, inl, inr, Bool-cases,
}
use uncluster.PolicyHash.{Grant, not_after, sort_grants, line, lines, canonical}
use uncluster.PolicyHash.Order.{canonical-lines}

unfoldable pub has : ℕ → List ℕ → Bool
has b [] = false
has b (c ∷ cs) = c == b || has b cs

-- A user name with no ':' and no newline, and a caller with no newline.
pub record IsClean (g : Grant) : Type 0 where
  pub user_colon : has b':' (codes g.username) ≡ false
  pub caller_newline : has b'\n' (codes g.caller_token_id) ≡ false

abbrev pub AllClean : List Grant → Type 0
AllClean [] = Unit
AllClean (g ∷ gs) = IsClean g × AllClean gs

-- The text before the first separator and the text behind it are determined.
split_at :
    (b : ℕ) (u v r s : List ℕ)
    → has b u ≡ false
    → has b v ≡ false
    → u ++ (b ∷ r) ≡ v ++ (b ∷ s)
    → (u ≡ v) × (r ≡ s)
unfolding has
split_at b [] [] r s h k e = ground arith
split_at b [] (y ∷ v) r s h k e = ground arith
split_at b (x ∷ u) [] r s h k e = ground arith
split_at b (x ∷ u) (y ∷ v) r s h k e = ground (arith, split_at b u v r s)

line-ne-nil : (b : ℕ) (u r : List ℕ) → u ++ (b ∷ r) ≢ []
line-ne-nil b [] r h = ground arith
line-ne-nil b (x ∷ u) r h = ground arith

regroup_line :
    (g : Grant) (rest : List ℕ)
    → line g ++ rest ≡ codes g.username ++ (b':' ∷ (codes g.caller_token_id ++ (b'\n' ∷ rest)))
regroup_line g rest = simp append_assoc

lines-line_ne_nil : (g : Grant) (gs : List Grant) → lines (g ∷ gs) ≢ []
lines-line_ne_nil g gs h =
    line-ne-nil b':' (codes g.username) _ (sym (regroup_line g (lines gs)) ∙ h)

lines_cons_injective :
    (g k : Grant) (gs ks : List Grant)
    → IsClean g
    → IsClean k
    → lines (g ∷ gs) ≡ lines (k ∷ ks)
    → (g ≡ k) × (lines gs ≡ lines ks)
lines_cons_injective g k gs ks c d e =
    let (users, rest) =
      split_at b':' (codes g.username) (codes k.username) _ _ c.user_colon d.user_colon
        (sym (regroup_line g (lines gs)) ∙ e ∙ regroup_line k (lines ks)) in
    let (callers, more) =
      split_at b'\n' (codes g.caller_token_id) (codes k.caller_token_id) _ _ c.caller_newline
        d.caller_newline rest in
    (
      (λ i. record {
        username = codes_injective g.username k.username users i;
        caller_token_id = codes_injective g.caller_token_id k.caller_token_id callers i;
      }),
      more,
    )

lines_injective : (xs ys : List Grant) → AllClean xs → AllClean ys → lines xs ≡ lines ys → xs ≡ ys
lines_injective [] [] c d e = refl
lines_injective [] (k ∷ ks) c d e = absurd (lines-line_ne_nil k ks (sym e))
lines_injective (g ∷ gs) [] c d e = absurd (lines-line_ne_nil g gs e)
lines_injective (g ∷ gs) (k ∷ ks) c d e =
    let (head, tail) = lines_cons_injective g k gs ks c.0 d.0 e in
    cc (head, lines_injective gs ks c.1 d.1 tail)

insert_clean :
    (g : Grant) (gs : List Grant) → IsClean g → AllClean gs → AllClean (insert not_after g gs)
unfolding insert
insert_clean g [] c d = (c, tt)
insert_clean g (k ∷ ks) c d = elim (Bool-cases (not_after g k)) [
  | inl h ↦ rw h (c, d)
  | inr h ↦ rw h (d.0, insert_clean g ks c d.1)
]

sort_clean : (gs : List Grant) → AllClean gs → AllClean (sort_grants gs)
unfolding sort_grants
sort_clean [] c = tt
sort_clean (g ∷ gs) c = insert_clean g (sort_grants gs) c.0 (sort_clean gs c.1)

-- Equal canonical bytes come from the same grants, up to their order, where no user name holds a
-- ':' and no caller a newline.
pub canonical_injective :
    (xs ys : List Grant) → AllClean xs → AllClean ys → canonical xs ≡ canonical ys → Perm xs ys
unfolding sort_grants
canonical_injective xs ys c d e = Perm.trans (Perm.symm (sort-perm not_after xs)) (
    subst (λ l. Perm l ys)
      (sym (
        lines_injective (sort_grants xs) (sort_grants ys) (sort_clean xs c) (sort_clean ys d)
          (sym (canonical-lines xs) ∙ e ∙ canonical-lines ys)))
      (sort-perm not_after ys))
