-- ===== src/Validate/Skip/Newest.antt =====
-- ShouldSkip takes the newest entry that fits.
use mathlib.Core.List.{Memᴰ}
use mathlib.Core.List.Memᴰ
use mathlib.Core.Path.{subst}
use uncluster.Prelude.{
  ◌≤◌, ◌≡◌, refl, sym, ap, ◌∙◌, Bool, true, false, ◌&&◌, leb, Option, none, some, List, [], ◌∷◌,
  ◌++◌, if◌then◌else◌, str_eq, str_eq_iff, ◌⊎◌, inl, inr, arith,
}
use uncluster.Validate.Skip.{Breadcrumb, SkipQuery, fits, newer, best_of, passing, should_skip}

module _ (q : SkipQuery) where
  -- No entry that fits is newer than `b`.
  abbrev pub Bounds : List Breadcrumb → Breadcrumb → Type 0
  Bounds prior b = (x : Breadcrumb) → Memᴰ x prior → fits q x ≡ true → x.ts ≤ b.ts

  abbrev From : Option Breadcrumb → List Breadcrumb → Breadcrumb → Type 0
  From best prior b =
      ((best ≡ some b) ⊎ (Memᴰ b prior × (fits q b ≡ true)))
      × Bounds prior b
      × ((a : Breadcrumb) → best ≡ some a → a.ts ≤ b.ts)

  some_injective : {x y : Breadcrumb} → some x ≡ some y → x ≡ y
  some_injective h = cc

  not_below : (a x b : Breadcrumb) → leb a.ts x.ts ≡ false → a.ts ≤ b.ts → x.ts ≤ b.ts
  not_below a x b h k = ground (arith, h, k)

  below : (a x b : Breadcrumb) → leb a.ts x.ts ≡ true → x.ts ≤ b.ts → a.ts ≤ b.ts
  below a x b h k = ground (arith, h, k)

  older :
      (x b : Breadcrumb) (best : Option Breadcrumb)
      → newer best x ≡ false
      → ((a : Breadcrumb) → best ≡ some a → a.ts ≤ b.ts)
      → x.ts ≤ b.ts
  older x b none h k = cc
  older x b (some a) h k = not_below a x b h (k a refl)

  newer_than :
      (x a b : Breadcrumb) (best : Option Breadcrumb)
      → best ≡ some a
      → newer best x ≡ true
      → x.ts ≤ b.ts
      → a.ts ≤ b.ts
  newer_than x a b best e h k = below a x b (sym (ap (λ o. newer o x) e) ∙ h) k

  at_or_after :
      (x b y : Breadcrumb) (xs : List Breadcrumb)
      → (fits q x ≡ true → x.ts ≤ b.ts)
      → Bounds xs b
      → (y ≡ x) ⊎ Memᴰ y xs
      → fits q y ≡ true
      → y.ts ≤ b.ts
  at_or_after x b y xs here there (inl e) f =
      subst (λ (z : Breadcrumb). z.ts ≤ b.ts) (sym e) (here (sym (ap (fits q) e) ∙ f))
  at_or_after x b y xs here there (inr m) f = there y m f

  step :
      (x b : Breadcrumb) (xs : List Breadcrumb) (best : Option Breadcrumb) (y : Bool)
      → (fits q x && newer best x) ≡ y
      → From (if y then some x else best) xs b
      → From best (x ∷ xs) b
  step x b xs best true h p = (
    inr (origin p.0),
    (λ z m. at_or_after x b z xs (λ _. p.2 x refl) p.1 (Memᴰ.cases_cons m)),
    (λ a e. newer_than x a b best e (ground (arith, h)) (p.2 x refl)),
  )
    where
      origin :
          (some x ≡ some b) ⊎ (Memᴰ b xs × (fits q b ≡ true)) → Memᴰ b (x ∷ xs) × (fits q b ≡ true)
      origin (inl e) = (
        Memᴰ.head (sym (some_injective e)),
        ap (fits q) (sym (some_injective e)) ∙ ground (arith, h),
      )
      origin (inr m) = (Memᴰ.tail m.0, m.1)
  step x b xs best false h p = (
    origin p.0,
    (λ z m.
        at_or_after x b z xs (λ f. older x b best (ground (arith, h, f)) p.2) p.1
          (Memᴰ.cases_cons m)),
    p.2,
  )
    where
      origin :
          (best ≡ some b) ⊎ (Memᴰ b xs × (fits q b ≡ true))
          → (best ≡ some b) ⊎ (Memᴰ b (x ∷ xs) × (fits q b ≡ true))
      origin (inl e) = inl e
      origin (inr m) = inr (Memᴰ.tail m.0, m.1)

  best_of-From :
      (best : Option Breadcrumb) (prior : List Breadcrumb) (b : Breadcrumb)
      → best_of q best prior ≡ some b
      → From best prior b
  unfolding best_of
  best_of-From best [] b e = (inl e, (λ x m. absurd (Memᴰ.not-nil m)), (λ a h. same a h))
    where
      same : (a : Breadcrumb) → best ≡ some a → a.ts ≤ b.ts
      same a h = subst (λ (y : Breadcrumb). a.ts ≤ y.ts) (some_injective (sym h ∙ e)) (ground arith)
  best_of-From best (x ∷ xs) b e =
      step x b xs best (fits q x && newer best x) refl
        (best_of-From (if fits q x && newer best x then some x else best) xs b e)

  -- A validation is skipped only where the tree is clean, and an entry with the same commit, tier,
  -- target and checks, not of a dirty tree, is a pass and not older than any other such entry.
  pub should_skip_sound :
      (prior : List Breadcrumb)
      → should_skip prior q ≡ true
      → (q.dirty ≡ false)
        × ((b : Breadcrumb) × Memᴰ b prior
            × (fits q b ≡ true)
            × (b.result ≡ "pass")
            × Bounds prior b)
  unfolding should_skip
  should_skip_sound prior h = decided q.dirty refl (best_of q none prior) refl h
    where
      none_some : (b : Breadcrumb) → none ≡ some b → ⊥
      none_some b e = cc

      listed :
          (b : Breadcrumb)
          → (none ≡ some b) ⊎ (Memᴰ b prior × (fits q b ≡ true))
          → Memᴰ b prior × (fits q b ≡ true)
      listed b (inl e) = absurd (none_some b e)
      listed b (inr m) = m

      decided :
          (y : Bool)
          → q.dirty ≡ y
          → (o : Option Breadcrumb) → best_of q none prior ≡ o
          → (if y then false else passing o) ≡ true
          → (q.dirty ≡ false)
            × ((b : Breadcrumb) × Memᴰ b prior
                × (fits q b ≡ true)
                × (b.result ≡ "pass")
                × Bounds prior b)
      decided true d o e k = cc
      decided false d none e k = cc
      decided false d (some b) e k =
          let p = best_of-From none prior b e in
          (d, (b, (listed b p.0).0, (listed b p.0).1, (str_eq_iff b.result "pass").0 k, p.1))

  best_of-append :
      (best : Option Breadcrumb) (prior : List Breadcrumb) (bc : Breadcrumb)
      → best_of q best (prior ++ bc ∷ [])
        ≡ (if fits q bc && newer (best_of q best prior) bc then some bc else best_of q best prior)
  unfolding best_of
  best_of-append best [] bc = refl
  best_of-append best (x ∷ xs) bc =
      best_of-append (if fits q x && newer best x then some x else best) xs bc

  -- On a clean tree, an entry that fits and is appended with a time that no entry that fits exceeds
  -- decides: the next validation is skipped exactly if its result is a pass.
  pub should_skip-append :
      (prior : List Breadcrumb) (bc : Breadcrumb)
      → q.dirty ≡ false
      → fits q bc ≡ true
      → Bounds prior bc
      → should_skip (prior ++ bc ∷ []) q ≡ str_eq bc.result "pass"
  unfolding should_skip
  should_skip-append prior bc clean fit old =
      ap (λ y. if y then false else passing (best_of q none (prior ++ bc ∷ []))) clean
      ∙ ap passing (
          best_of-append none prior bc
          ∙ taken _ _ (best_of q none prior) fit (last (best_of q none prior) refl))
    where
      bounded :
          (b : Breadcrumb)
          → (none ≡ some b) ⊎ (Memᴰ b prior × (fits q b ≡ true))
          → leb b.ts bc.ts ≡ true
      bounded b (inl e) = cc
      bounded b (inr m) = ground (arith, old b m.0 m.1)

      last : (o : Option Breadcrumb) → best_of q none prior ≡ o → newer o bc ≡ true
      last none e = refl
      last (some b) e = bounded b (best_of-From none prior b e).0

      taken :
          (x y : Bool) (o : Option Breadcrumb)
          → x ≡ true
          → y ≡ true
          → (if x && y then some bc else o) ≡ some bc
      taken x y o f g = rw (f, g) refl
