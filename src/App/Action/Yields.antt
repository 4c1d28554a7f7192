-- ===== src/App/Action/Yields.antt =====
-- Rules for actions: what they end with.
use heyl.Prelude.{◌≡◌, refl, Bool, true, false, Option, none, some}
use heyl.Prelude.Results.{Result, ok, err}
use heyl.App.Action.{◌>>=◌, when_some, when_ok, when}

-- An action ends with a value or an error that has the property `Q`.
pub record Yields {W E A : Type 0} (Q : Result E A → Type 0) (outcome : W × Result E A)
    : Type 0 where
  pub holds : Q outcome.1

-- A property that every error has holds after a step that fails; else it is the rest's to keep.
pub follow :
    {W E A C : Type 0} {Q : Result E C → Type 0} (m : W → W × Result E A)
    (f : A → W → W × Result E C) (w : W)
    → ((e : E) → (m w).1 ≡ err e → Q (err e))
    → ((a : A) → (m w).1 ≡ ok a → Yields Q (f a (m w).0))
    → Yields Q ((m >>= f) w)
unfolding ◌>>=◌
follow {W} {E} {A} {C} {Q} m f w failed after =
    elim (m w).1
        as (λ r.
          ((e : E) → r ≡ err e → Q (err e))
          → ((a : A) → r ≡ ok a → Yields Q (f a (m w).0))
          → Yields Q
              (elim r as (λ _. W × Result E C) [ ok a ↦ f a (m w).0 | err e ↦ ((m w).0, err e) ])) [
                | ok a ↦ λ g h. h a refl
                | err e ↦ λ g h. record { holds = g e refl }
              ]
      failed after

module _ {W E C : Type 0} {Q : Result E C → Type 0} where
  pub when_some-Yields :
      {A : Type 0} (o : Option A) (f : A → W → W × Result E C) (g : W → W × Result E C) (w : W)
      → ((a : A) → o ≡ some a → Yields Q (f a w))
      → (o ≡ none → Yields Q (g w))
      → Yields Q (when_some o f g w)
  unfolding when_some
  when_some-Yields (some a) f g w here there = here a refl
  when_some-Yields none f g w here there = there refl

  when_ok-Yields :
      {F A : Type 0} (r : Result F A) (f : A → W → W × Result E C) (g : F → W → W × Result E C)
      (w : W)
      → ((a : A) → r ≡ ok a → Yields Q (f a w))
      → ((e : F) → r ≡ err e → Yields Q (g e w))
      → Yields Q (when_ok r f g w)
  unfolding when_ok
  when_ok-Yields (ok a) f g w here there = here a refl
  when_ok-Yields (err e) f g w here there = there e refl

  pub when-Yields :
      (b : Bool) (f g : W → W × Result E C) (w : W)
      → (b ≡ true → Yields Q (f w))
      → (b ≡ false → Yields Q (g w))
      → Yields Q (when b f g w)
  unfolding when
  when-Yields true f g w here there = here refl
  when-Yields false f g w here there = there refl
