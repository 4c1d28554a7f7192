-- ===== src/Prelude/Trim.antt =====
-- Rust's `str::trim` and `str::strip_suffix` of one character.
use Prim.Native.Nat.{ℕ, ◌≤◌}
use Prim.Native.Char.{Char, code}
use Prim.Native.String.{String, [], ◌∷◌, ◌++◌}
use Prim.Native.String.append
use mathlib.Core.Path.{◌≡◌, refl, ◌∙◌, sym, ap}
use mathlib.Core.Bool.{Bool, true, false, ◌||◌, ◌&&◌}
use mathlib.Core.Option.{Option, none, some}
use native.Mathlib.Omega.{arith}
use heyl.Prelude.Tests.{leb, eqb, if◌then◌else◌}
use heyl.Prelude.Decimal.{AllDigits}

-- `char::is_whitespace`: the Unicode property White_Space.
is_whitespace : ℕ → Bool
is_whitespace c =
    (leb 9 c && leb c 13)
    || eqb c 32
    || eqb c 0x85
    || eqb c 0xa0
    || eqb c 0x1680
    || (leb 0x2000 c && leb c 0x200a)
    || eqb c 0x2028
    || eqb c 0x2029
    || eqb c 0x202f
    || eqb c 0x205f
    || eqb c 0x3000

trim_start : String → String
trim_start [] = []
trim_start (c ∷ s) = if is_whitespace (code c) then trim_start s else c ∷ s

-- A character before a trimmed end: dropped where nothing but whitespace follows it.
before_end : Char → String → String
before_end c [] = if is_whitespace (code c) then [] else c ∷ []
before_end c (d ∷ s) = c ∷ d ∷ s

trim_end : String → String
unfolding before_end
trim_end [] = []
trim_end (c ∷ s) = before_end c (trim_end s)

unfoldable pub trim : String → String
unfolding trim_start trim_end is_whitespace
trim s = trim_end (trim_start s)

consed : Char → Option String → Option String
consed c none = none
consed c (some s) = some (c ∷ s)

strip_last : ℕ → Char → Option String → String → Option String
strip_last n c rest [] = if eqb (code c) n then some [] else none
strip_last n c rest (d ∷ s) = consed c rest

-- `strip_suffix` of the character with number `n`.
unfoldable pub strip_suffix : ℕ → String → Option String
unfolding strip_last consed
strip_suffix n [] = none
strip_suffix n (c ∷ s) = strip_last n c (strip_suffix n s) s

-- No whitespace and no letter is a digit.
not-is_whitespace_of_digit : (c : ℕ) → 48 ≤ c → c ≤ 57 → is_whitespace c ≡ false
unfolding is_whitespace
not-is_whitespace_of_digit c h k = ground arith

before_end_digit : (c : Char) (s : String) → 48 ≤ code c → code c ≤ 57 → before_end c s ≡ c ∷ s
unfolding before_end
before_end_digit c [] h k = rw (not-is_whitespace_of_digit (code c) h k)
before_end_digit c (d ∷ s) h k = refl

trim_end_digits : (s : String) → AllDigits s → trim_end s ≡ s
unfolding trim_end
trim_end_digits [] a = refl
trim_end_digits (c ∷ s) a = rw (trim_end_digits s a.2) (before_end_digit c s a.0 a.1)

-- A text of digits has nothing to trim.
pub trim_digits : (s : String) → AllDigits s → trim s ≡ s
unfolding trim
trim_digits [] a = refl
trim_digits (c ∷ s) a = rw (not-is_whitespace_of_digit (code c) a.0 a.1) (trim_end_digits (c ∷ s) a)

consed_if :
    (d : Char) (b : Bool) (s : String)
    → consed d (if b then some s else none) ≡ (if b then some (d ∷ s) else none)
unfolding consed
consed_if d true s = refl
consed_if d false s = refl

-- The last character is what `strip_suffix` tests.
pub strip_suffix-append :
    (n : ℕ) (s : String) (c : Char)
    → strip_suffix n (s ++ c ∷ []) ≡ (if eqb (code c) n then some s else none)
unfolding strip_suffix
strip_suffix-append n [] c = rw append.nil
strip_suffix-append n (d ∷ []) c = rw (append.cons, append.nil) (consed_if d (eqb (code c) n) [])
strip_suffix-append n (d ∷ e ∷ s) c =
    rw (append.cons, append.cons)
      (ap (consed d)
          (ap (strip_suffix n) (sym (append.cons e s (c ∷ []))) ∙ strip_suffix-append n (e ∷ s) c)
        ∙ consed_if d (eqb (code c) n) (e ∷ s))
