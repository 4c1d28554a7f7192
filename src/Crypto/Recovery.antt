-- ===== src/Crypto/Recovery.antt =====
-- crates/heyl-crypto/src/recovery.rs: recovery codes, and the costs that a server may ask for. Argon2id
-- and the hash are parameters.
pub mod Checksum
use heyl.Prelude.{
  ℕ, suc, String, Bool, true, false, not, ◌&&◌, ◌||◌, List, [], ◌∷◌, ltb, leb, eqb, if◌then◌else◌,
  length,
}
use heyl.Prelude.Trim.{trim}
use heyl.Prelude.Codes.{codes, split}
use Prim.Native.Nat.{bit_or, bit_xor}
use heyl.Prelude.Results.{Result, ok, err, ◌>>=◌}
use heyl.Domain.Error.{CryptoError, argon2_params, malformed_recovery_code}
use heyl.Domain.Keys.{Crypto, RecoveryParams}

abbrev pub max_memory_cost_kib : ℕ
max_memory_cost_kib = 4194304

abbrev pub max_iterations : ℕ
max_iterations = 64

abbrev pub max_parallelism : ℕ
max_parallelism = 64

unfoldable pub validate : RecoveryParams → Result CryptoError (Unit {0})
validate params =
    if ltb max_memory_cost_kib params.memory_cost_kib
    then err (argon2_params "memoryCost above our bound")
    else if eqb params.iterations 0 || ltb max_iterations params.iterations
    then err (argon2_params "iterations out of range")
    else if eqb params.parallelism 0 || ltb max_parallelism params.parallelism
    then err (argon2_params "parallelism out of range")
    else ok tt

-- Surrounding white space is a transport artefact.
unfoldable pub normalize_code : String → String
normalize_code code = trim code

unfoldable pub is_digit : ℕ → Bool
is_digit c = leb b'0' c && leb c b'9'

all_digits : List ℕ → Bool
unfolding is_digit
all_digits [] = true
all_digits (c ∷ cs) = is_digit c && all_digits cs

-- `group.len()` counts bytes: for digits, these are the code points.
unfoldable pub is_group : List ℕ → Bool
unfolding all_digits
is_group group = eqb (length group) 4 && all_digits group

all_groups : List (List ℕ) → Bool
unfolding is_group
all_groups [] = true
all_groups (group ∷ groups) = is_group group && all_groups groups

-- Six groups of four digits, with dashes between.
unfoldable pub is_canonical : String → Bool
unfolding split all_groups
is_canonical code =
    let groups = split b'-' (codes code) in all_groups groups && eqb (length groups) 6

module _ (K : Crypto) (as_bytes : String → List ℕ) where
  unfoldable pub derive_recovery_seed :
      String → List ℕ → RecoveryParams → Result CryptoError (List ℕ)
  unfolding validate normalize_code is_canonical
  derive_recovery_seed code salt params = do
    _ ← validate params
    let code = normalize_code code
    if is_canonical code
        then K.argon2id (as_bytes code) salt params
        else err malformed_recovery_code

-- `for (a, b) in actual.iter().zip(checksum)`.
unfoldable pub fold_diff : ℕ → List ℕ → List ℕ → ℕ
fold_diff diff [] bs = diff
fold_diff diff (a ∷ rest) [] = diff
fold_diff diff (a ∷ rest) (b ∷ bs) = fold_diff (bit_or diff (bit_xor a b)) rest bs

-- The comparison takes the same time wherever the first difference is.
unfoldable pub checksum_matches : (K : Crypto) → List ℕ → List ℕ → Bool
unfolding fold_diff
checksum_matches K seed checksum =
    let actual = K.hash_data seed in
    if not (eqb (length checksum) (length actual))
    then false
    else eqb (fold_diff 0 actual checksum) 0
