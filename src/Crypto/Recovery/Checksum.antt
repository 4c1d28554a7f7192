-- ===== src/Crypto/Recovery/Checksum.antt =====
-- crates/heyl-crypto/src/recovery.rs: the comparison in constant time decides equality.
use heyl.Prelude.{
  ℕ, ◌≡◌, refl, sym, ◌↔◌, true, false, List, [], ◌∷◌, eqb, eqb_iff, length, Bool-cases, inl, inr,
  arith,
}
use heyl.Prelude.Bits.{bit_or-eq-zero, bit_xor-eq-zero, bit_xor-same}
use Prim.Native.Nat.{bit_or, bit_xor}
use heyl.Domain.Keys.{Crypto}
use heyl.Crypto.Recovery.{fold_diff, checksum_matches}

pub fold_diff-same : (bs : List ℕ) → fold_diff 0 bs bs ≡ 0
unfolding fold_diff
fold_diff-same [] = refl
fold_diff-same (b ∷ bs) = rw (bit_xor-same b) (fold_diff-same bs)

pub fold_diff-eq-zero :
    (diff : ℕ) (cs bs : List ℕ)
    → length cs ≡ length bs
    → fold_diff diff cs bs ≡ 0
    → (diff ≡ 0) × (cs ≡ bs)
unfolding fold_diff
fold_diff-eq-zero diff [] [] l h = (h, refl)
fold_diff-eq-zero diff [] (b ∷ bs) l h = cc
fold_diff-eq-zero diff (a ∷ rest) [] l h = cc
fold_diff-eq-zero diff (a ∷ rest) (b ∷ bs) l h =
    let later = fold_diff-eq-zero (bit_or diff (bit_xor a b)) rest bs (omega (arith, l)) h in
    let here = bit_or-eq-zero diff (bit_xor a b) later.0 in
    (here.0, cc (bit_xor-eq-zero a b here.1, later.1))

-- A seed matches a checksum just where the checksum is the hash of the seed.
pub checksum_matches_lem :
    (K : Crypto) (seed checksum : List ℕ)
    → (checksum_matches K seed checksum ≡ true) ↔ (K.hash_data seed ≡ checksum)
unfolding checksum_matches
checksum_matches_lem K seed checksum = (
  λ h. elim (Bool-cases (eqb (length checksum) (length (K.hash_data seed)))) [
    | inl same ↦
        let sized : length (K.hash_data seed) ≡ length checksum = ground arith in
        let folded : eqb (fold_diff 0 (K.hash_data seed) checksum) 0 ≡ true = rw same at h in
        (fold_diff-eq-zero 0 (K.hash_data seed) checksum sized (ground arith)).1
    | inr apart ↦ let clash : false ≡ true = rw apart at h in cc
  ],
  λ e. rw (sym e) (
      rw
        (
          fold_diff-same (K.hash_data seed),
          (eqb_iff (length (K.hash_data seed)) (length (K.hash_data seed))).1 refl,
        )
        refl),
)
