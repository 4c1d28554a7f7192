-- ===== src/Prelude/Decimal.antt =====
-- Decimal numbers in texts: Rust's `format!("{n}")` and `str::parse::<u64>`.
use Prim.Native.Nat.{ℕ, zero, suc, ◌+◌, ◌-◌, ◌*◌, ◌/◌, ◌%◌, ◌≤◌, ◌<◌}
use Prim.Native.Char.{Char, code}
use Prim.Native.String.{String, [], ◌∷◌}
use mathlib.Core.Path.{◌≡◌, refl, ◌∙◌, sym, ap}
use mathlib.Core.Logic.{inl, inr}
use mathlib.Core.Bool.{◌&&◌}
use mathlib.Core.Option.{Option, none, some}
use native.Mathlib.Omega.{arith}
use native.Mathlib.Nat.{zero-mul, zero-add}
use heyl.Prelude.Tests.{ltb, leb, eqb, if◌then◌else◌, Bool-cases}

abbrev pub digit : ℕ → Char
digit zero = "0"
digit (suc zero) = "1"
digit (suc (suc zero)) = "2"
digit (suc (suc (suc zero))) = "3"
digit (suc (suc (suc (suc zero)))) = "4"
digit (suc (suc (suc (suc (suc zero))))) = "5"
digit (suc (suc (suc (suc (suc (suc zero)))))) = "6"
digit (suc (suc (suc (suc (suc (suc (suc zero))))))) = "7"
digit (suc (suc (suc (suc (suc (suc (suc (suc zero)))))))) = "8"
digit _ = "9"

code-digit : (d : ℕ) → d < 10 → code (digit d) ≡ 48 + d
code-digit zero h = refl
code-digit (suc zero) h = refl
code-digit (suc (suc zero)) h = refl
code-digit (suc (suc (suc zero))) h = refl
code-digit (suc (suc (suc (suc zero)))) h = refl
code-digit (suc (suc (suc (suc (suc zero))))) h = refl
code-digit (suc (suc (suc (suc (suc (suc zero)))))) h = refl
code-digit (suc (suc (suc (suc (suc (suc (suc zero))))))) h = refl
code-digit (suc (suc (suc (suc (suc (suc (suc (suc zero)))))))) h = refl
code-digit (suc (suc (suc (suc (suc (suc (suc (suc (suc zero))))))))) h = refl
code-digit (suc (suc (suc (suc (suc (suc (suc (suc (suc (suc d)))))))))) h = absurd (omega arith)

-- The digits of `n` before `rest`; the fuel bounds their number.
print_before : ℕ → ℕ → String → String
print_before zero n rest = rest
print_before (suc fuel) n rest =
    let longer = print_before fuel (n / 10) (digit (n % 10) ∷ rest) in
    if ltb n 10 then digit n ∷ rest else longer

unfoldable pub print : ℕ → String
unfolding print_before
print n = print_before (suc n) n ""

-- The digits of a text after those that make `n`; `none` where a character is no digit.
digits : ℕ → String → Option ℕ
digits n [] = some n
digits n (c ∷ s) =
    if leb 48 (code c) && leb (code c) 57 then digits (n * 10 + (code c - 48)) s else none

digits-digit : (n d : ℕ) (s : String) → d < 10 → digits n (digit d ∷ s) ≡ digits (n * 10 + d) s
unfolding digits
digits-digit n d s h = ground (arith, code-digit d h)

digits-print_before :
    (fuel n : ℕ) (rest : String) → n < fuel → digits 0 (print_before fuel n rest) ≡ digits n rest
unfolding print_before
digits-print_before zero n rest h = elim h [ ]
digits-print_before (suc fuel) n rest h = elim (Bool-cases (ltb n 10)) [
  | inl short ↦ rw short (digits-digit 0 n rest (ground arith) ∙ rw (zero-mul, zero-add))
  | inr long ↦ rw long (
      digits-print_before fuel (n / 10) (digit (n % 10) ∷ rest) (ground arith)
      ∙ digits-digit (n / 10) (n % 10) rest (omega arith)
      ∙ ap (λ m. digits m rest) (omega arith))
]

-- Reading the printed digits of `n` before `rest` is reading `rest` after `n`.
digits-print : (n : ℕ) → digits 0 (print n) ≡ some n
unfolding print digits
digits-print n = digits-print_before (suc n) n "" (omega arith)

-- `str::parse::<u64>`: one leading plus sign is allowed, no digit or too large a number is not.
bounded : Option ℕ → Option ℕ
bounded none = none
bounded (some n) = if leb n 18446744073709551615 then some n else none

number : String → Option ℕ
number [] = none
number (c ∷ s) = bounded (digits 0 (c ∷ s))

unfoldable pub parse_u64 : String → Option ℕ
unfolding number digits bounded
parse_u64 [] = none
parse_u64 (c ∷ s) = if eqb (code c) b'+' then number s else number (c ∷ s)

print_before-starts :
    (fuel n : ℕ) (rest : String)
    → n < fuel
    → (d : ℕ) × (s : String) × (print_before fuel n rest ≡ digit d ∷ s) × (d < 10)
unfolding print_before
print_before-starts zero n rest h = elim h [ ]
print_before-starts (suc fuel) n rest h = elim (Bool-cases (ltb n 10)) [
  | inl short ↦ rw short (n, rest, refl, ground arith)
  | inr long ↦ rw long (print_before-starts fuel (n / 10) (digit (n % 10) ∷ rest) (ground arith))
]

parse_u64_of_digits :
    (n d : ℕ) (s : String)
    → d < 10
    → n ≤ 18446744073709551615
    → digits 0 (digit d ∷ s) ≡ some n
    → parse_u64 (digit d ∷ s) ≡ some n
unfolding parse_u64
parse_u64_of_digits n d s small h e = ground (arith, code-digit d small)

-- A number below 2^64 reads back as itself.
pub parse_u64-print : (n : ℕ) → n ≤ 18446744073709551615 → parse_u64 (print n) ≡ some n
unfolding print
parse_u64-print n h =
    let (d, s, e, small) = print_before-starts (suc n) n "" (omega arith) in
    rw e (parse_u64_of_digits n d s small h (ap (digits 0) (sym e) ∙ digits-print n))

-- Every accepted number is below 2^64.
parse_u64-le : (s : String) (n : ℕ) → parse_u64 s ≡ some n → n ≤ 18446744073709551615
unfolding parse_u64
parse_u64-le [] n h = ground arith
parse_u64-le (c ∷ []) n h = ground arith
parse_u64-le (c ∷ d ∷ s) n h = ground arith

-- Printing is injective.
pub print_inj : (m n : ℕ) → print m ≡ print n → m ≡ n
print_inj m n e = cc (digits-print m, digits-print n, ap (digits 0) e)

-- Every character of the text is a decimal digit.
abbrev pub AllDigits : String → Type 0
AllDigits [] = Unit
AllDigits (c ∷ s) = (48 ≤ code c) × (code c ≤ 57) × AllDigits s

digit_range : (d : ℕ) → d < 10 → (rest : String) → AllDigits rest → AllDigits (digit d ∷ rest)
digit_range d h rest a = (rw (code-digit d h) (omega arith), rw (code-digit d h) (omega arith), a)

print_before-AllDigits :
    (fuel n : ℕ) (rest : String) → n < fuel → AllDigits rest → AllDigits (print_before fuel n rest)
unfolding print_before
print_before-AllDigits zero n rest h a = elim h [ ]
print_before-AllDigits (suc fuel) n rest h a = elim (Bool-cases (ltb n 10)) [
  | inl short ↦ rw short (digit_range n (ground arith) rest a)
  | inr long ↦ rw long (
      print_before-AllDigits fuel (n / 10) (digit (n % 10) ∷ rest) (ground arith)
        (digit_range (n % 10) (omega arith) rest a))
]

pub print-AllDigits : (n : ℕ) → AllDigits (print n)
unfolding print
print-AllDigits n = print_before-AllDigits (suc n) n "" (omega arith) tt
