-- ===== src/Prelude/Sort.antt =====
-- Insertion sort by a Boolean order, for `sort.Slice` and `ORDER BY`. Where the order is total,
-- transitive and antisymmetric the result does not depend on the order of the input.
use mathlib.Core.Path.{◌≡◌, refl, ◌∙◌}
use mathlib.Core.Bool.{Bool, true}
use mathlib.Core.Logic.{◌⊎◌, inl, inr}
use mathlib.Core.List.{List, [], ◌∷◌, Perm, Permᴰ}
use mathlib.Core.List.Perm
use native.Mathlib.Omega.{arith}
use uncluster.Prelude.Tests.{if◌then◌else◌, Bool-cases}

module _ {ℓ} {A : Type ℓ} (before : A → A → Bool) where
  unfoldable pub insert : A → List A → List A
  insert a [] = a ∷ []
  insert a (x ∷ xs) = if before a x then a ∷ (x ∷ xs) else x ∷ insert a xs

  unfoldable pub sort : List A → List A
  unfolding insert
  sort [] = []
  sort (x ∷ xs) = insert x (sort xs)

  insert-perm : (a : A) (xs : List A) → Perm (insert a xs) (a ∷ xs)
  unfolding insert
  insert-perm a [] = Perm.refl (a ∷ [])
  insert-perm a (x ∷ xs) = elim (Bool-cases (before a x)) [
    | inl h ↦ rw h (Perm.refl (a ∷ x ∷ xs))
    | inr h ↦ rw h (Perm.trans (Perm.cons x (insert-perm a xs)) (Perm.swap a x xs))
  ]

  pub sort-perm : (xs : List A) → Perm (sort xs) xs
  unfolding sort
  sort-perm [] = Perm.refl []
  sort-perm (x ∷ xs) = Perm.trans (insert-perm x (sort xs)) (Perm.cons x (sort-perm xs))

  module _ (total : (a b : A) → (before a b ≡ true) ⊎ (before b a ≡ true))
      (trans : (a b c : A) → before a b ≡ true → before b c ≡ true → before a c ≡ true)
      (antisymm : (a b : A) → before a b ≡ true → before b a ≡ true → a ≡ b) where
    insert-insert : (a b : A) (xs : List A) → insert a (insert b xs) ≡ insert b (insert a xs)
    unfolding insert
    insert-insert a b [] = ground (arith, total a b, antisymm a b)
    insert-insert a b (x ∷ xs) = ground (
      arith,
      total a b,
      antisymm a b,
      total a x,
      total b x,
      trans a b x,
      trans b a x,
      trans x a b,
      trans x b a,
      antisymm a x,
      antisymm b x,
      insert-insert a b xs,
    )

    pub sort_order_free : {xs ys : List A} → Permᴰ xs ys → sort xs ≡ sort ys
    unfolding sort
    sort_order_free Permᴰ.nil = refl
    sort_order_free (Permᴰ.cons e p) = cc (e, sort_order_free p)
    sort_order_free (Permᴰ.swap {a} {b} {l} e f) = cc (e, f, insert-insert a b (sort l))
    sort_order_free (Permᴰ.trans p q) = sort_order_free p ∙ sort_order_free q
