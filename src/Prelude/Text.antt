-- ===== src/Prelude/Text.antt =====
-- Rust's `Ord for str`: a total order of texts.
use Prim.Native.Nat.{ℕ, Ordering, compare as compare_ℕ}
use Prim.Native.Nat.Ordering.{lt, eq, gt}
use Prim.Native.Char.{code}
use Prim.Native.String.{String, compare, then}
use Prim.Native.String.compare as step
use mathlib.Core.Bool.{Bool}
use mathlib.Core.Path.{◌≡◌, refl, ◌∙◌, sym}
use mathlib.Core.Bool.{true, false}
use native.Mathlib.Omega.{arith}
use text.Mathlib.Text.{is_lt}
use text.Mathlib.TextEquality.{path_by_compare}
use text.Mathlib.TextPositions.{compare_refl}

-- `Ordering::reverse`.
abbrev pub flip : Ordering → Ordering
flip lt = gt
flip eq = eq
flip gt = lt

flip-compare_ℕ : (m n : ℕ) → compare_ℕ n m ≡ flip (compare_ℕ m n)
flip-compare_ℕ m n = ground arith

flip-then : (o p : Ordering) → flip (then o p) ≡ then (flip o) (flip p)
flip-then lt p = refl
flip-then eq p = refl
flip-then gt p = refl

-- Comparing the other way round reverses the answer.
pub flip-compare : (s t : String) → compare t s ≡ flip (compare s t)
flip-compare String.[] String.[] = rw step.nil-nil
flip-compare String.[] (String.◌∷◌ d t) = rw (step.nil-cons, step.cons-nil)
flip-compare (String.◌∷◌ c s) String.[] = rw (step.nil-cons, step.cons-nil)
flip-compare (String.◌∷◌ c s) (String.◌∷◌ d t) =
    rw
      (
        step.cons-cons c d s t,
        step.cons-cons d c t s,
        flip-compare_ℕ (code c) (code d),
        flip-compare s t,
      )
      (sym (flip-then (compare_ℕ (code c) (code d)) (compare s t)))

then_trans :
    (a b c : ℕ) (p q r : Ordering)
    → (p ≡ lt → q ≡ lt → r ≡ lt)
    → then (compare_ℕ a b) p ≡ lt
    → then (compare_ℕ b c) q ≡ lt
    → then (compare_ℕ a c) r ≡ lt
then_trans a b c p q r f h k = ground arith

compare-lt_trans : (s t u : String) → compare s t ≡ lt → compare t u ≡ lt → compare s u ≡ lt
compare-lt_trans String.[] String.[] u h k = cc
compare-lt_trans String.[] (String.◌∷◌ d t) String.[] h k = cc (step.cons-nil d t)
compare-lt_trans String.[] (String.◌∷◌ d t) (String.◌∷◌ e u) h k = rw step.nil-cons
compare-lt_trans (String.◌∷◌ c s) String.[] u h k = cc (step.cons-nil c s)
compare-lt_trans (String.◌∷◌ c s) (String.◌∷◌ d t) String.[] h k = cc (step.cons-nil d t)
compare-lt_trans (String.◌∷◌ c s) (String.◌∷◌ d t) (String.◌∷◌ e u) h k =
    rw (step.cons-cons c e s u) (
      then_trans (code c) (code d) (code e) (compare s t) (compare t u) (compare s u)
        (compare-lt_trans s t u) (sym (step.cons-cons c d s t) ∙ h)
        (sym (step.cons-cons d e t u) ∙ k))

-- `a <= b` of texts.
abbrev pub TextLe : String → String → Type 0
TextLe s t = is_lt (compare t s) ≡ false

pub TextLe-refl : (s : String) → TextLe s s
TextLe-refl s = rw compare_refl

pub TextLe-total : (s t : String) → is_lt (compare t s) ≡ true → TextLe t s
TextLe-total s t h = ground (arith, flip-compare s t)

pub TextLe-trans : (s t u : String) → TextLe s t → TextLe t u → TextLe s u
TextLe-trans s t u h k = ground (
  arith,
  flip-compare s t,
  flip-compare t u,
  flip-compare s u,
  compare-lt_trans s t u,
  compare-lt_trans u s t,
  compare-lt_trans t u s,
  path_by_compare s t,
  path_by_compare t u,
)

-- `a > b` of texts.
abbrev pub text_gt : String → String → Bool
text_gt s t = is_lt (compare t s)
