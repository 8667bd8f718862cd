-- ===== src/Exec/Post.antt =====
-- What holds after an action: `P` of the value and the state where it returns, `R` of the state where
-- it throws.
use neural_plus.Prelude.{◌≡◌, refl}
use neural_plus.Outcome.{Result, ok, err}
use neural_plus.Exec.{Exec, continue}

module _ {W A : Type 0} where
  abbrev pub Post : (P : A → W → Type 0) (R : W → Type 0) → Result A × W → Type 0
  Post P R (ok a, w) = P a w
  Post P R (err e, w) = R w

  pub Post-weaken :
      (P Q : A → W → Type 0) (R T : W → Type 0) (p : Result A × W)
      → Post P R p
      → ((a : A) (w : W) → P a w → Q a w)
      → ((w : W) → R w → T w)
      → Post Q T p
  Post-weaken P Q R T (ok a, w) h f g = f a w h
  Post-weaken P Q R T (err e, w) h f g = g w h

  pub Post-lift :
      (r : Result A) (w : W) → Post (λ a w'. (r ≡ ok a) × (w' ≡ w)) (λ w'. w' ≡ w) (r, w)
  Post-lift (ok a) w = (refl, refl)
  Post-lift (err e) w = refl

-- The rule for `m >>= f`.
pub Post-bind :
    {W A B : Type 0} (P : A → W → Type 0) (Q : B → W → Type 0) (R : W → Type 0) (p : Result A × W)
    (f : A → Exec W B)
    → Post P R p
    → ((a : A) (w : W) → P a w → Post Q R (f a w))
    → Post Q R (continue p f)
unfolding continue
Post-bind P Q R (ok a, w) f h k = k a w h
Post-bind P Q R (err e, w) f h k = h

-- The rule for `lift r >>= f`: the rest may use that `r` did not throw, and the state is the same.
pub Post-bind-lift :
    {W A B : Type 0} (Q : B → W → Type 0) (R : W → Type 0) (r : Result A) (w : W) (f : A → Exec W B)
    → R w
    → ((a : A) → r ≡ ok a → Post Q R (f a w))
    → Post Q R (continue (r, w) f)
unfolding continue
Post-bind-lift Q R (ok a) w f h k = k a refl
Post-bind-lift Q R (err e) w f h k = h
