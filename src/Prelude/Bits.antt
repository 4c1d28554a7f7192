-- ===== src/Prelude/Bits.antt =====
-- Disjunction and exclusion of binary digits: when the result is zero.
use Prim.Native.Nat.{
  ℕ, zero, suc, ◌/◌, ◌%◌, ◌≤◌, max, bit_or, bit_xor, differ, digits, bit_or-bitwise,
  bit_xor-bitwise,
}
use mathlib.Core.Path.{◌≡◌, refl, sym, ap, ◌∙◌}
use native.Mathlib.Omega.{arith}

abbrev or_digits : ℕ → ℕ → ℕ → ℕ
or_digits n a b = digits (λ b. b) max n a b

abbrev xor_digits : ℕ → ℕ → ℕ → ℕ
xor_digits n a b = digits (λ b. b) differ n a b

max-eq-zero : (a b : ℕ) → max a b ≡ 0 → (a ≡ 0) × (b ≡ 0)
max-eq-zero a b h = (omega (arith, h), omega (arith, h))

differ-eq-zero : (a b : ℕ) → differ a b ≡ 0 → a ≡ b
differ-eq-zero zero b h = sym h
differ-eq-zero (suc a) zero h = cc
differ-eq-zero (suc a) (suc b) h = ap suc (differ-eq-zero a b h)

differ-same : (a : ℕ) → differ a a ≡ 0
differ-same zero = refl
differ-same (suc a) = differ-same a

or_digits-eq-zero : (n a b : ℕ) → a ≤ n → or_digits n a b ≡ 0 → (a ≡ 0) × (b ≡ 0)
or_digits-eq-zero zero zero b le h = (refl, h)
or_digits-eq-zero zero (suc a) b le h = absurd (omega arith)
or_digits-eq-zero (suc n) zero b le h = (refl, h)
or_digits-eq-zero (suc n) (suc a) b le h =
    let rest = or_digits-eq-zero n (suc a / 2) (b / 2) (omega arith) (omega (arith, h)) in
    let low = max-eq-zero (suc a % 2) (b % 2) (omega (arith, h)) in
    absurd (omega (arith, rest.0, low.0))

xor_digits-eq-zero : (n a b : ℕ) → a ≤ n → xor_digits n a b ≡ 0 → a ≡ b
xor_digits-eq-zero zero zero b le h = sym h
xor_digits-eq-zero zero (suc a) b le h = absurd (omega arith)
xor_digits-eq-zero (suc n) zero b le h = sym h
xor_digits-eq-zero (suc n) (suc a) b le h =
    let rest = xor_digits-eq-zero n (suc a / 2) (b / 2) (omega arith) (omega (arith, h)) in
    let low = differ-eq-zero (suc a % 2) (b % 2) (omega (arith, h)) in omega (arith, rest, low)

xor_digits-same : (n a : ℕ) → a ≤ n → xor_digits n a a ≡ 0
xor_digits-same zero zero le = refl
xor_digits-same zero (suc a) le = absurd (omega arith)
xor_digits-same (suc n) zero le = refl
xor_digits-same (suc n) (suc a) le =
    omega (arith, xor_digits-same n (suc a / 2) (omega arith), differ-same (suc a % 2))

pub bit_or-eq-zero : (a b : ℕ) → bit_or a b ≡ 0 → (a ≡ 0) × (b ≡ 0)
bit_or-eq-zero a b h = or_digits-eq-zero a a b (omega arith) (sym (bit_or-bitwise a b) ∙ h)

pub bit_xor-eq-zero : (a b : ℕ) → bit_xor a b ≡ 0 → a ≡ b
bit_xor-eq-zero a b h = xor_digits-eq-zero a a b (omega arith) (sym (bit_xor-bitwise a b) ∙ h)

pub bit_xor-same : (a : ℕ) → bit_xor a a ≡ 0
bit_xor-same a = bit_xor-bitwise a a ∙ xor_digits-same a a (omega arith)
