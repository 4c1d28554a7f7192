-- ===== src/Prelude/Results.antt =====
-- Rust's `Result<A, E>` with the `?` operator as a `do` block.
use mathlib.Core.Path.{◌≡◌, refl}
use mathlib.Core.Option.{Option, none, some}
use mathlib.Core.Logic.{◌⊎◌, inl, inr}

pub data Result {ℓ} (E A : Type ℓ) : Type ℓ where
  ok : A → Result E A
  err : E → Result E A

-- `abbrev`, so that a chain computes wherever its first step is known.
infixl 5 ◌>>=◌
abbrev pub ◌>>=◌ {ℓ} : {E A B : Type ℓ} → Result E A → (A → Result E B) → Result E B
err failure >>= next = err failure
ok value >>= next = next value

module _ {ℓ} {E A : Type ℓ} where
  -- `Option::ok_or(e)`.
  abbrev pub ok_or : E → Option A → Result E A
  ok_or e none = err e
  ok_or e (some a) = ok a

  -- `Result::ok()`.
  abbrev pub to_option : Result E A → Option A
  to_option (ok a) = some a
  to_option (err e) = none

-- `map_err(f)`.
abbrev pub map_err {ℓ} : {E F A : Type ℓ} → (E → F) → Result E A → Result F A
map_err f (ok a) = ok a
map_err f (err e) = err (f e)

-- A chain succeeds just where its steps do.
pub >>=-eq-ok {ℓ} :
    {E A B : Type ℓ} (step : Result E A) (next : A → Result E B) {result : B}
    → (step >>= next) ≡ ok result
    → (value : A) × (step ≡ ok value) × (next value ≡ ok result)
>>=-eq-ok (err failure) next e = cc
>>=-eq-ok (ok value) next e = (value, refl, e)

pub ok_or-eq-ok {ℓ} : {E A : Type ℓ} (e : E) (o : Option A) (a : A) → ok_or e o ≡ ok a → o ≡ some a
ok_or-eq-ok e none a h = cc
ok_or-eq-ok e (some b) a h = cc

-- A chain fails where its first step does, or its second.
pub >>=-eq-err {ℓ} :
    {E A B : Type ℓ} (step : Result E A) (next : A → Result E B) {e : E}
    → (step >>= next) ≡ err e
    → (step ≡ err e) ⊎ ((value : A) × (step ≡ ok value) × (next value ≡ err e))
>>=-eq-err (err failure) next h = inl (failed h)
  where
    failed :
        {E A B : Type ℓ} {a b : E}
        → ◌≡◌ {A = Result E B} (err a) (err b)
        → ◌≡◌ {A = Result E A} (err a) (err b)
    failed h = cc
>>=-eq-err (ok value) next h = inr (value, refl, h)

-- `map_err` fails only with a mapped error.
pub map_err-eq-err {ℓ} :
    {E F A : Type ℓ} (f : E → F) (r : Result E A) {x : F}
    → map_err f r ≡ err x
    → (e : E) × (x ≡ f e)
map_err-eq-err f (err e) h = (e, err_inj h)
  where
    err_inj : {E A : Type ℓ} {a b : E} → ◌≡◌ {A = Result E A} (err a) (err b) → b ≡ a
    err_inj h = cc
map_err-eq-err f (ok a) h = cc

pub map_err-eq-ok {ℓ} :
    {E F A : Type ℓ} (f : E → F) (r : Result E A) {a : A} → map_err f r ≡ ok a → r ≡ ok a
map_err-eq-ok f (err e) h = cc
map_err-eq-ok f (ok b) h = cc

pub Result-cases {ℓ} :
    {E A : Type ℓ} (r : Result E A) → ((a : A) × (r ≡ ok a)) ⊎ ((e : E) × (r ≡ err e))
Result-cases (err e) = inr (e, refl)
Result-cases (ok a) = inl (a, refl)

pub ok_inj {ℓ} : {E A : Type ℓ} {a b : A} → ◌≡◌ {A = Result E A} (ok a) (ok b) → a ≡ b
ok_inj h = cc
