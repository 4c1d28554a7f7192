-- ===== src/App/Action/Leaves.antt =====
-- Rules for actions: what an action leaves behind, and what follows from its success.
use heyl.Prelude.{◌≡◌, refl, Bool, true, false, Option, none, some}
use heyl.Prelude.Results.{Result, ok, err}
use heyl.App.Action.{◌>>=◌, when_some, when_ok, when}

-- An action's outcome leaves a world with the property `P`.
pub record Leaves {W E A : Type 0} (P : W → Type 0) (outcome : W × Result E A) : Type 0 where
  pub holds : P outcome.0

-- A property of the world holds after a step that may fail, when both ways out keep it.
pub settle :
    {W E A C : Type 0} {P : W → Type 0} (m : W → W × Result E A) (f : A → W → W × Result E C)
    (w : W)
    → P (m w).0
    → ((a : A) → Leaves P (f a (m w).0))
    → Leaves P ((m >>= f) w)
unfolding ◌>>=◌
settle {W} {E} {A} {C} {P} m f w now after =
    elim (m w).1
      as (λ r.
        Leaves P
          (elim r as (λ _. W × Result E C) [ ok a ↦ f a (m w).0 | err e ↦ ((m w).0, err e) ])) [
            | ok a ↦ after a
            | err e ↦ record { holds = now }
          ]

-- The same where only the value that the step has is followed up.
pub settle_with :
    {W E A C : Type 0} {P : W → Type 0} (m : W → W × Result E A) (f : A → W → W × Result E C)
    (w : W)
    → P (m w).0
    → ((a : A) → (m w).1 ≡ ok a → Leaves P (f a (m w).0))
    → Leaves P ((m >>= f) w)
unfolding ◌>>=◌
settle_with {W} {E} {A} {C} {P} m f w now after =
    elim (m w).1
        as (λ r.
          ((a : A) → r ≡ ok a → Leaves P (f a (m w).0))
          → Leaves P
              (elim r as (λ _. W × Result E C) [ ok a ↦ f a (m w).0 | err e ↦ ((m w).0, err e) ])) [
                | ok a ↦ λ g. g a refl
                | err e ↦ λ g. record { holds = now }
              ]
      after

-- A step that is known to succeed.
pub >>=-ok :
    {W E A C : Type 0} (m : W → W × Result E A) (f : A → W → W × Result E C) (w : W) {a : A}
    → (m w).1 ≡ ok a
    → (m >>= f) w ≡ f a (m w).0
unfolding ◌>>=◌
>>=-ok m f w h = rw (◌>>=◌, h)

-- A step that is known to fail.
pub >>=-err :
    {W E A C : Type 0} (m : W → W × Result E A) (f : A → W → W × Result E C) (w : W) {e : E}
    → (m w).1 ≡ err e
    → (m >>= f) w ≡ ((m w).0, err e)
unfolding ◌>>=◌
>>=-err m f w h = rw (◌>>=◌, h)

pub proceed :
    {W E A C : Type 0} {P : W → Type 0} (m : W → W × Result E A) (f : A → W → W × Result E C)
    (w : W) {a : A}
    → (m w).1 ≡ ok a
    → Leaves P (f a (m w).0)
    → Leaves P ((m >>= f) w)
proceed m f w h after = rw (>>=-ok m f w h) after

-- A chain succeeds just where its steps do.
pub >>=-returns :
    {W E A C : Type 0} (m : W → W × Result E A) (f : A → W → W × Result E C) (w : W) {c : C}
    → ((m >>= f) w).1 ≡ ok c
    → (a : A) × ((m w).1 ≡ ok a) × ((f a (m w).0).1 ≡ ok c)
unfolding ◌>>=◌
>>=-returns {W} {E} {A} {C} m f w {c} h =
    elim (m w).1
        as (λ r.
          (elim r as (λ _. W × Result E C) [ ok a ↦ f a (m w).0 | err e ↦ ((m w).0, err e) ]).1
            ≡ ok c
          → (a : A) × (r ≡ ok a) × ((f a (m w).0).1 ≡ ok c)) [
            | ok a ↦ λ g. (a, refl, g)
            | err e ↦ λ g. cc
          ]
      h

module _ {W E C : Type 0} {P : W → Type 0} where
  pub when_some-Leaves :
      {A : Type 0} (o : Option A) (f : A → W → W × Result E C) (g : W → W × Result E C) (w : W)
      → ((a : A) → Leaves P (f a w))
      → Leaves P (g w)
      → Leaves P (when_some o f g w)
  unfolding when_some
  when_some-Leaves (some a) f g w here there = here a
  when_some-Leaves none f g w here there = there

  pub when_ok-Leaves :
      {F A : Type 0} (r : Result F A) (f : A → W → W × Result E C) (g : F → W → W × Result E C)
      (w : W)
      → ((a : A) → Leaves P (f a w))
      → ((e : F) → Leaves P (g e w))
      → Leaves P (when_ok r f g w)
  unfolding when_ok
  when_ok-Leaves (ok a) f g w here there = here a
  when_ok-Leaves (err e) f g w here there = there e

  pub when-Leaves :
      (b : Bool) (f g : W → W × Result E C) (w : W)
      → Leaves P (f w)
      → Leaves P (g w)
      → Leaves P (when b f g w)
  unfolding when
  when-Leaves true f g w here there = here
  when-Leaves false f g w here there = there

  -- The same where the test is followed up.
  pub when_case-Leaves :
      (b : Bool) (f g : W → W × Result E C) (w : W)
      → (b ≡ true → Leaves P (f w))
      → (b ≡ false → Leaves P (g w))
      → Leaves P (when b f g w)
  unfolding when
  when_case-Leaves true f g w here there = here refl
  when_case-Leaves false f g w here there = there refl
