-- ===== src/Prelude/Exec/Triple.antt =====
-- Pre- and postconditions of fallible code, with a condition for the error outcome too.
use mathlib.Core.Path.{◌≡◌, refl, subst}
use mathlib.Core.Bool.{Bool, true, false}
use uncluster.Prelude.Tests.{if◌then◌else◌}
use mathlib.Core.List.{List, [], ◌∷◌}
use uncluster.Prelude.Exec.{
  Result, ok, err, World, Exec, pure, raise, attempt, attempt_at, continue, ◌>>=◌, recover,
}

module _ {ℓ} {E S A : Type ℓ} where
  abbrev pub Outcome : (A → S → Type ℓ) → (E → S → Type ℓ) → Result E A → S → Type ℓ
  Outcome Q F (ok a) s = Q a s
  Outcome Q F (err e) s = F e s

  -- From `P`, a result of `m` meets `Q`, and an error of `m` meets `F`.
  pub record Triple (P : S → Type ℓ) (m : Exec E S A) (Q : A → S → Type ℓ) (F : E → S → Type ℓ)
      : Type ℓ where
    pub at : (w : World S) → P w.state → Outcome Q F (m w).0 (m w).1.state

  attempt_at-Outcome :
      (Q : A → S → Type ℓ) (F : E → S → Type ℓ) (io : E) (f : S → Result E A × S) (fs : List Bool)
      (s : S)
      → F io s
      → Outcome Q F (f s).0 (f s).1
      → Outcome Q F (attempt_at io f fs s).0 (attempt_at io f fs s).1.state
  attempt_at-Outcome Q F io f [] s r d = d
  attempt_at-Outcome Q F io f (true ∷ fs) s r d = r
  attempt_at-Outcome Q F io f (false ∷ fs) s r d = d

  module _ {P : S → Type ℓ} {Q : A → S → Type ℓ} {F : E → S → Type ℓ} where
    pub Triple-pure : (a : A) → ((s : S) → P s → Q a s) → Triple P (pure a) Q F
    Triple-pure a h = record { at = λ w p. h w.state p }

    pub Triple-raise : (e : E) → ((s : S) → P s → F e s) → Triple P (raise e) Q F
    Triple-raise e h = record { at = λ w p. h w.state p }

    pub Triple-attempt :
        (io : E) (f : S → Result E A × S)
        → ((s : S) → P s → F io s)
        → ((s : S) → P s → Outcome Q F (f s).0 (f s).1)
        → Triple P (attempt io f) Q F
    unfolding attempt
    Triple-attempt io f refused done = record {
      at = λ w p. attempt_at-Outcome Q F io f w.faults w.state (refused w.state p) (done w.state p);
    }

module _ {ℓ} {E S A B : Type ℓ} where
  continue-Outcome :
      (Q : A → S → Type ℓ) (R : B → S → Type ℓ) (F : E → S → Type ℓ) (f : A → Exec E S B)
      → ((a : A) → Triple (Q a) (f a) R F)
      → (r : Result E A) (w : World S) → Outcome Q F r w.state
      → Outcome R F (continue f (r, w)).0 (continue f (r, w)).1.state
  continue-Outcome Q R F f rest (ok a) w h = (rest a).at w h
  continue-Outcome Q R F f rest (err e) w h = h

  pub Triple-bind :
      {P : S → Type ℓ} {R : B → S → Type ℓ} {F : E → S → Type ℓ} (Q : A → S → Type ℓ)
      (m : Exec E S A) (f : A → Exec E S B)
      → Triple P m Q F
      → ((a : A) → Triple (Q a) (f a) R F)
      → Triple P (m >>= f) R F
  Triple-bind {R} {F} Q m f t rest = record {
    at = λ w p. continue-Outcome Q R F f rest (m w).0 (m w).1 (t.at w p);
  }

module _ {ℓ} {E S A : Type ℓ} where
  pub Outcome-if :
      (Q : A → S → Type ℓ) (F : E → S → Type ℓ) (b : Bool) (x y : Result E A × S)
      → (b ≡ true → Outcome Q F x.0 x.1)
      → (b ≡ false → Outcome Q F y.0 y.1)
      → Outcome Q F (if b then x else y).0 (if b then x else y).1
  Outcome-if Q F true x y h k = h refl
  Outcome-if Q F false x y h k = k refl

  Outcome-weaken :
      (Q R : A → S → Type ℓ) (F G : E → S → Type ℓ) (r : Result E A) (s : S)
      → ((a : A) → Q a s → R a s)
      → ((e : E) → F e s → G e s)
      → Outcome Q F r s
      → Outcome R G r s
  Outcome-weaken Q R F G (ok a) s h k o = h a o
  Outcome-weaken Q R F G (err e) s h k o = k e o

  pub Triple-weaken :
      {P : S → Type ℓ} {R : A → S → Type ℓ} {G : E → S → Type ℓ} (Q : A → S → Type ℓ)
      (F : E → S → Type ℓ) {m : Exec E S A}
      → ((a : A) (s : S) → Q a s → R a s)
      → ((e : E) (s : S) → F e s → G e s)
      → Triple P m Q F
      → Triple P m R G
  Triple-weaken {R} {G} Q F h k t = record {
    at = λ w p. Outcome-weaken Q R F G _ _ (λ a. h a _) (λ e. k e _) (t.at w p);
  }

  pub Triple-if :
      {P : S → Type ℓ} {Q : A → S → Type ℓ} {F : E → S → Type ℓ} (b : Bool) (m n : Exec E S A)
      → (b ≡ true → Triple P m Q F)
      → (b ≡ false → Triple P n Q F)
      → Triple P (if b then m else n) Q F
  Triple-if true m n h k = h refl
  Triple-if false m n h k = k refl

  -- A fact that no state can change.
  pub Triple-frame :
      {P : S → Type ℓ} {Q : A → S → Type ℓ} {F : E → S → Type ℓ} {m : Exec E S A} (G : Type ℓ)
      → Triple P m Q F
      → Triple (λ s. G × P s) m (λ a s. G × Q a s) F
  Triple-frame {Q} {F} G t = record {
    at = λ w p.
        Outcome-weaken Q (λ a s. G × Q a s) F F _ _ (λ a q. (p.0, q)) (λ e f. f) (t.at w p.1);
  }

  pub Outcome-ok :
      (Q : A → S → Type ℓ) (F : E → S → Type ℓ) (r : Result E A) (s : S) (a : A)
      → r ≡ ok a
      → Outcome Q F r s
      → Q a s
  Outcome-ok Q F (ok x) s a e o = subst (λ y. Q y s) (ok-injective e) o
    where
      ok-injective : {y z : A} → ◌≡◌ {A = Result E A} (ok y) (ok z) → y ≡ z
      ok-injective p = cc
  Outcome-ok Q F (err x) s a e o = cc

module _ {ℓ} {E S A : Type ℓ} where
  recover-Outcome :
      (Q : A → S → Type ℓ) (F G : E → S → Type ℓ) (h : E → Exec E S A) (v : World S)
      → ((e : E) → Triple (F e) (h e) Q G)
      → (r : Result E A) (w : World S) → Outcome Q F r w.state
      → Outcome Q G (recover h (λ _. (r, w)) v).0 (recover h (λ _. (r, w)) v).1.state
  recover-Outcome Q F G h v rest (ok a) w o = o
  recover-Outcome Q F G h v rest (err e) w o = (rest e).at w o

  pub Triple-recover :
      {P : S → Type ℓ} {Q : A → S → Type ℓ} {G : E → S → Type ℓ} (F : E → S → Type ℓ)
      (h : E → Exec E S A) (m : Exec E S A)
      → Triple P m Q F
      → ((e : E) → Triple (F e) (h e) Q G)
      → Triple P (recover h m) Q G
  Triple-recover {Q} {G} F h m t rest = record {
    at = λ w p. recover-Outcome Q F G h w rest (m w).0 (m w).1 (t.at w p);
  }

  pub Outcome-err :
      (Q : A → S → Type ℓ) (F : E → S → Type ℓ) (r : Result E A) (s : S) (e : E)
      → r ≡ err e
      → Outcome Q F r s
      → F e s
  Outcome-err Q F (ok x) s e h o = cc
  Outcome-err Q F (err x) s e h o = subst (λ y. F y s) (err-injective h) o
    where
      err-injective : {y z : E} → ◌≡◌ {A = Result E A} (err y) (err z) → y ≡ z
      err-injective p = cc

  -- What the precondition knows apart from the state may be used to show the rest.
  pub Triple-given :
      {P : S → Type ℓ} {Q : A → S → Type ℓ} {F : E → S → Type ℓ} {m : Exec E S A} (G : Type ℓ)
      (R : S → Type ℓ)
      → ((s : S) → P s → G × R s)
      → (G → Triple R m Q F)
      → Triple P m Q F
  Triple-given G R split k = record { at = λ w p. (k (split w.state p).0).at w (split w.state p).1 }

  both :
      (Q R : A → S → Type ℓ) (F G : E → S → Type ℓ) (r : Result E A) (s : S)
      → Outcome Q F r s
      → Outcome R G r s
      → Outcome (λ a s. Q a s × R a s) (λ e s. F e s × G e s) r s
  both Q R F G (ok a) s h k = (h, k)
  both Q R F G (err e) s h k = (h, k)

  pub Triple-and :
      {P : S → Type ℓ} {Q R : A → S → Type ℓ} {F G : E → S → Type ℓ} {m : Exec E S A}
      → Triple P m Q F
      → Triple P m R G
      → Triple P m (λ a s. Q a s × R a s) (λ e s. F e s × G e s)
  Triple-and {Q} {R} {F} {G} t u = record { at = λ w p. both Q R F G _ _ (t.at w p) (u.at w p) }

  pub Triple-from :
      {P : S → Type ℓ} {Q : A → S → Type ℓ} {F : E → S → Type ℓ} {m : Exec E S A} (R : S → Type ℓ)
      → ((s : S) → P s → R s)
      → Triple R m Q F
      → Triple P m Q F
  Triple-from R h t = record { at = λ w p. t.at w (h w.state p) }

  -- A triple for each state that the precondition allows.
  pub Triple-each :
      {P : S → Type ℓ} {Q : A → S → Type ℓ} {F : E → S → Type ℓ} {m : Exec E S A}
      → ((s : S) → P s → Triple (λ t. t ≡ s) m Q F)
      → Triple P m Q F
  Triple-each h = record { at = λ w p. (h w.state p).at w refl }

module _ {E S A : Type 0} where
  trivial : (r : Result E A) (s : S) → Outcome (λ _ _. Unit) (λ _ _. Unit) r s
  trivial (ok a) s = tt
  trivial (err e) s = tt

  pub Triple-any : {P : S → Type 0} (m : Exec E S A) → Triple P m (λ _ _. Unit) (λ _ _. Unit)
  Triple-any m = record { at = λ w p. trivial (m w).0 (m w).1.state }

module _ {E S A : Type 0} where
  constant : (G : Type 0) (r : Result E A) (s : S) → G → Outcome (λ _ _. G) (λ _ _. G) r s
  constant G (ok a) s g = g
  constant G (err e) s g = g

  -- What does not speak of the state holds behind every action.
  pub Triple-fact : {G : Type 0} (m : Exec E S A) → Triple (λ _. G) m (λ _ _. G) (λ _ _. G)
  Triple-fact {G} m = record { at = λ w g. constant G (m w).0 (m w).1.state g }

  pub Outcome-either :
      (P : S → Type 0) (r : Result E A) (s : S) → Outcome (λ _. P) (λ _. P) r s → P s
  Outcome-either P (ok a) s h = h
  Outcome-either P (err e) s h = h

  pub Outcome-both :
      (P : S → Type 0) → ((s : S) → P s) → (r : Result E A) (s : S) → Outcome (λ _. P) (λ _. P) r s
  Outcome-both P h (ok a) s = h s
  Outcome-both P h (err e) s = h s
