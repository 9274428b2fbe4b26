-- ===== src/Prelude/Rows.antt =====
-- Tables as lists of rows, with the statements that the SQL text uses: a row is found, selected,
-- counted or rewritten by a Boolean condition.
use Prim.Native.Nat.{ℕ, zero, suc, ◌+◌}
use mathlib.Core.Path.{◌≡◌, refl}
use mathlib.Core.Bool.{Bool, true, false}
use mathlib.Core.Option.{Option, none, some}
use mathlib.Core.Option
use mathlib.Core.List.{List, [], ◌∷◌, ◌++◌}
use native.Mathlib.Omega.{arith}
use uncluster.Prelude.Tests.{if◌then◌else◌}

module _ {ℓ} {A : Type ℓ} where
  abbrev pub length : List A → ℕ
  length [] = 0
  length (_ ∷ xs) = suc (length xs)

  -- SELECT ... WHERE p, the first row.
  unfoldable pub find : (A → Bool) → List A → Option A
  find p [] = none
  find p (x ∷ xs) = if p x then some x else find p xs

  -- SELECT ... WHERE p.
  unfoldable pub filter : (A → Bool) → List A → List A
  filter p [] = []
  filter p (x ∷ xs) = let rest = filter p xs in if p x then x ∷ rest else rest

  -- The rows that a statement with this condition affects.
  unfoldable pub count_where : (A → Bool) → List A → ℕ
  count_where p [] = 0
  count_where p (x ∷ xs) = (if p x then 1 else 0) + count_where p xs

  -- UPDATE ... SET f WHERE p.
  unfoldable pub update_where : (A → Bool) → (A → A) → List A → List A
  update_where p f [] = []
  update_where p f (x ∷ xs) = (if p x then f x else x) ∷ update_where p f xs

  -- LIMIT n.
  unfoldable pub take : ℕ → List A → List A
  take zero xs = []
  take (suc n) [] = []
  take (suc n) (x ∷ xs) = x ∷ take n xs

  -- EXISTS (SELECT ... WHERE p).
  unfoldable pub any : (A → Bool) → List A → Bool
  any p [] = false
  any p (x ∷ xs) = if p x then true else any p xs

  pub find-append :
      (p : A → Bool) (xs ys : List A)
      → find p (xs ++ ys) ≡ elim (find p xs) [ none ↦ find p ys | some x ↦ some x ]
  unfolding find
  find-append p [] ys = refl
  find-append p (x ∷ xs) ys = ground (arith, find-append p xs ys)

  pub filter-append :
      (p : A → Bool) (xs ys : List A) → filter p (xs ++ ys) ≡ filter p xs ++ filter p ys
  unfolding filter
  filter-append p [] ys = refl
  filter-append p (x ∷ xs) ys = ground (arith, filter-append p xs ys)

  -- What an update keeps of a row, a search by it finds again, with the update done.
  pub find-update_where :
      (q p : A → Bool) (f : A → A) (xs : List A)
      → ((x : A) → q (f x) ≡ q x)
      → find q (update_where p f xs) ≡ Option.map (λ x. if p x then f x else x) (find q xs)
  unfolding find update_where
  find-update_where q p f [] keep = refl
  find-update_where q p f (x ∷ xs) keep = ground (arith, keep x, find-update_where q p f xs keep)

  pub find-holds : (p : A → Bool) (xs : List A) (y : A) → find p xs ≡ some y → p y ≡ true
  unfolding find
  find-holds p [] y h = ground arith
  find-holds p (x ∷ xs) y h = ground (arith, find-holds p xs y)

  pub any-find :
      (p : A → Bool) (xs : List A) → any p xs ≡ elim (find p xs) [ none ↦ false | some _ ↦ true ]
  unfolding find any
  any-find p [] = refl
  any-find p (x ∷ xs) = ground (arith, any-find p xs)

  pub count-find : (p : A → Bool) (xs : List A) → count_where p xs ≡ 0 → find p xs ≡ none
  unfolding find count_where
  count-find p [] h = refl
  count-find p (x ∷ xs) h = ground (arith, count-find p xs)

  pub update-none :
      (p : A → Bool) (f : A → A) (xs : List A) → count_where p xs ≡ 0 → update_where p f xs ≡ xs
  unfolding update_where count_where
  update-none p f [] h = refl
  update-none p f (x ∷ xs) h = ground (arith, update-none p f xs)

  -- What no row satisfies, a row that is found does not.
  pub find-none :
      (p q : A → Bool) (xs : List A) (y : A) → find q xs ≡ none → find p xs ≡ some y → q y ≡ false
  unfolding find
  find-none p q [] y h k = ground arith
  find-none p q (x ∷ xs) y h k = ground (arith, find-none p q xs y)
