-- ===== src/Exec.antt =====
-- Code that changes a state and may throw: what was written before a throw stays written.
pub mod Post
use neural_plus.Prelude.{◌≡◌, refl}
use neural_plus.Outcome.{Error, Result, ok, err}

abbrev pub Exec : Type 0 → Type 0 → Type 0
Exec W A = W → Result A × W

module _ {W A : Type 0} where
  abbrev pub pure : A → Exec W A
  pure a w = (ok a, w)

  abbrev pub throw : Error → Exec W A
  throw e w = (err e, w)

  abbrev pub lift : Result A → Exec W A
  lift r w = (r, w)

module _ {W A B : Type 0} where
  unfoldable pub continue : Result A × W → (A → Exec W B) → Result B × W
  continue (ok a, w) f = f a w
  continue (err e, w) f = (err e, w)

  infixl 5 ◌>>=◌ ◌>>◌
  abbrev pub ◌>>=◌ : Exec W A → (A → Exec W B) → Exec W B
  ◌>>=◌ m f w = continue (m w) f

  abbrev pub ◌>>◌ : Exec W A → Exec W B → Exec W B
  ◌>>◌ m k = m >>= λ _. k

-- A change of the state that cannot throw.
abbrev pub modify : {W : Type 0} → (W → W) → Exec W (Unit {0})
modify f w = (ok tt, f w)
