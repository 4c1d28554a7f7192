-- ===== src/Crypto/Boxes/RoundTrip.antt =====
-- crates/heyl-crypto/src/symmetric.rs, aead.rs, asymmetric.rs and secret.rs: what is sealed opens again.
use heyl.Prelude.{
  ℕ, zero, suc, ◌≤◌, ◌≡◌, ◌↔◌, refl, sym, ap, true, false, List, [], ◌∷◌, ◌++◌, ltb, eqb_iff,
  length, length-append, arith,
}
use heyl.Prelude.Results.{ok}
use heyl.Crypto.Recovery.{fold_diff}
use heyl.Crypto.Recovery.Checksum.{fold_diff-same, fold_diff-eq-zero}
use heyl.Crypto.Boxes.{
  take, drop, Cipher, IsCipher, BoxCipher, IsBoxCipher, gcm_encrypt, gcm_decrypt, sym_encrypt,
  sym_decrypt, seal_to, open_sealed, secret_eq,
}

take-append : (n : ℕ) (a b : List ℕ) → length a ≡ n → take n (a ++ b) ≡ a
unfolding take
take-append zero [] b h = refl
take-append zero (x ∷ a) b h = absurd (omega (arith, h))
take-append (suc n) [] b h = absurd (omega (arith, h))
take-append (suc n) (x ∷ a) b h = ap (λ l. x ∷ l) (take-append n a b (omega (arith, h)))

drop-append : (n : ℕ) (a b : List ℕ) → length a ≡ n → drop n (a ++ b) ≡ b
unfolding drop
drop-append zero [] b h = refl
drop-append zero (x ∷ a) b h = absurd (omega (arith, h))
drop-append (suc n) [] b h = absurd (omega (arith, h))
drop-append (suc n) (x ∷ a) b h = drop-append n a b (omega (arith, h))

long_enough : (n m : ℕ) → m ≤ n → ltb n m ≡ false
long_enough n m h = ground arith

-- What a symmetric key encrypts under a nonce of the right length it decrypts, for both ciphers.
pub decrypts-encrypts :
    (C : Cipher) (lawful : IsCipher C) (key nonce gcm_nonce plaintext : List ℕ)
    → length nonce ≡ 24
    → length gcm_nonce ≡ 12
    → (sym_decrypt C key (sym_encrypt C key nonce plaintext) ≡ ok plaintext)
      × (gcm_decrypt C key (gcm_encrypt C key gcm_nonce plaintext) ≡ ok plaintext)
unfolding sym_decrypt sym_encrypt gcm_decrypt gcm_encrypt
decrypts-encrypts C lawful key nonce gcm_nonce plaintext sized gcm_sized =
    let box = C.encrypt key nonce plaintext in
    let gcm_box = C.encrypt key gcm_nonce plaintext in
    let long =
      long_enough (length (nonce ++ box)) 40 (
        omega (arith, length-append nonce box, lawful.length-encrypt key nonce plaintext, sized)) in
    let gcm_long = long_enough (length (gcm_nonce ++ gcm_box)) 28 (
      omega (
        arith,
        length-append gcm_nonce gcm_box,
        lawful.length-encrypt key gcm_nonce plaintext,
        gcm_sized,
      )) in
    (
      rw
          (
            long,
            take-append 24 nonce box sized,
            drop-append 24 nonce box sized,
            lawful.decrypt-encrypt key nonce plaintext,
          )
          refl,
      rw
          (
            gcm_long,
            take-append 12 gcm_nonce gcm_box gcm_sized,
            drop-append 12 gcm_nonce gcm_box gcm_sized,
            lawful.decrypt-encrypt key gcm_nonce plaintext,
          )
          refl,
    )

-- What is sealed to the public half of a key opens with its private half.
open_sealed-seal_to :
    (B : BoxCipher) (lawful : IsBoxCipher B) (private ephemeral nonce plaintext : List ℕ)
    → length nonce ≡ 24
    → open_sealed B private (seal_to B (B.public_of private) ephemeral nonce plaintext)
      ≡ ok plaintext
unfolding open_sealed seal_to
open_sealed-seal_to B lawful private ephemeral nonce plaintext sized =
    let public = B.public_of ephemeral in
    let box = B.encrypt_to (B.public_of private) ephemeral nonce plaintext in
    let wide = lawful.length-public_of ephemeral in
    let long = long_enough (length (nonce ++ (public ++ box))) 72 (
      omega (
        arith,
        length-append nonce (public ++ box),
        length-append public box,
        lawful.length-encrypt_to (B.public_of private) ephemeral nonce plaintext,
        sized,
        wide,
      )) in
    rw
      (
        long,
        take-append 24 nonce (public ++ box) sized,
        drop-append 24 nonce (public ++ box) sized,
        take-append 32 public box wide,
        drop-append 32 public box wide,
        lawful.decrypt_from-encrypt_to ephemeral private nonce plaintext,
      )
      refl

-- Two secrets of one length compare as equal just where they are.
secret_eq_lem : (a b : List ℕ) → length a ≡ length b → (secret_eq a b ≡ true) ↔ (a ≡ b)
unfolding secret_eq
secret_eq_lem a b sized = (
  λ h. (fold_diff-eq-zero 0 a b sized ((eqb_iff (fold_diff 0 a b) 0).0 h)).1,
  λ e. rw (sym e) ((eqb_iff (fold_diff 0 a a) 0).1 (fold_diff-same a)),
)
