-- ===== src/Prelude/Exec.antt =====
-- Code that changes a state and may fail, under an environment that may fail any single action.
-- `faults` says of each coming action whether the environment refuses it; behind its end nothing
-- is refused. What was written before an error stays written, so the state comes back beside it.
pub mod Triple
use mathlib.Core.Bool.{Bool, true, false}
use mathlib.Core.List.{List, [], ◌∷◌}

pub data Result {ℓ} (E A : Type ℓ) : Type ℓ where
  ok : A → Result E A
  err : E → Result E A

pub record World {ℓ} (S : Type ℓ) : Type ℓ where
  pub state : S
  pub faults : List Bool

abbrev pub Exec {ℓ} : Type ℓ → Type ℓ → Type ℓ → Type ℓ
Exec E S A = World S → Result E A × World S

module _ {ℓ} {E S A : Type ℓ} where
  abbrev pub pure : A → Exec E S A
  pure a w = (ok a, w)

  abbrev pub raise : E → Exec E S A
  raise e w = (err e, w)

  abbrev pub with_state : List Bool → Result E A × S → Result E A × World S
  with_state fs (r, s) = (r, record { state = s; faults = fs })

  -- One action of the environment: refused with the error `io` and no effect, or done.
  abbrev pub attempt_at : E → (S → Result E A × S) → List Bool → S → Result E A × World S
  attempt_at io f [] s = with_state [] (f s)
  attempt_at io f (true ∷ fs) s = (err io, record { state = s; faults = fs })
  attempt_at io f (false ∷ fs) s = with_state fs (f s)

  unfoldable pub attempt : E → (S → Result E A × S) → Exec E S A
  attempt io f w = attempt_at io f w.faults w.state

module _ {ℓ} {E S A B : Type ℓ} where
  abbrev pub continue : (A → Exec E S B) → Result E A × World S → Result E B × World S
  continue f (ok a, w) = f a w
  continue f (err e, w) = (err e, w)

  infixl 5 ◌>>=◌ ◌>>◌
  abbrev pub ◌>>=◌ : Exec E S A → (A → Exec E S B) → Exec E S B
  ◌>>=◌ m f w = continue f (m w)

  abbrev pub ◌>>◌ : Exec E S A → Exec E S B → Exec E S B
  m >> n = m >>= λ _. n

module _ {ℓ} {E S A : Type ℓ} where
  -- The code ignores an error: `_ = f(...)`, or goes on in another way.
  abbrev pub recover : (E → Exec E S A) → Exec E S A → Exec E S A
  recover handle m w = recover_at handle (m w)
    where
      recover_at : (E → Exec E S A) → Result E A × World S → Result E A × World S
      recover_at h (ok a, v) = (ok a, v)
      recover_at h (err e, v) = h e v
