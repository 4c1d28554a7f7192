-- ===== src/Crypto/Boxes.antt =====
-- crates/heyl-crypto/src/symmetric.rs, aead.rs, asymmetric.rs, kdf.rs and secret.rs: how ciphertexts and
-- keys are framed. The ciphers and the hashes are parameters.
pub mod RoundTrip
use heyl.Prelude.{
  ℕ, zero, suc, ◌+◌, ◌≡◌, String, Bool, true, false, not, ◌||◌, ◌&&◌, Option, none, some, List, [],
  ◌∷◌, ◌++◌, ltb, eqb, length, if◌then◌else◌,
}
use heyl.Prelude.Results.{Result, ok, err, ok_or, ◌>>=◌}
use heyl.Domain.Error.{
  CryptoError, too_short, bad_length, authentication, context_too_short, bad_output_length,
}
use heyl.Crypto.Recovery.{fold_diff}

-- `split_at`.
unfoldable pub take : {A : Type 0} → ℕ → List A → List A
take zero l = []
take (suc n) [] = []
take (suc n) (x ∷ l) = x ∷ take n l

unfoldable pub drop : {A : Type 0} → ℕ → List A → List A
drop zero l = l
drop (suc n) [] = []
drop (suc n) (x ∷ l) = drop n l

-- An authenticated cipher: a ciphertext that was tampered with does not open.
pub record Cipher : Type 0 where
  pub encrypt : (key nonce plaintext : List ℕ) → List ℕ
  pub decrypt : (key nonce ciphertext : List ℕ) → Option (List ℕ)

-- What a cipher documents: it opens what it sealed, and its tag takes sixteen bytes.
pub record IsCipher (C : Cipher) : Type 0 where
  pub decrypt-encrypt :
      (key nonce plaintext : List ℕ)
      → C.decrypt key nonce (C.encrypt key nonce plaintext) ≡ some plaintext
  pub length-encrypt :
      (key nonce plaintext : List ℕ)
      → length (C.encrypt key nonce plaintext) ≡ length plaintext + 16

-- `SalsaBox`: a cipher between a public and a private key.
pub record BoxCipher : Type 0 where
  pub public_of : List ℕ → List ℕ
  pub encrypt_to : (public private nonce plaintext : List ℕ) → List ℕ
  pub decrypt_from : (public private nonce ciphertext : List ℕ) → Option (List ℕ)

pub record IsBoxCipher (B : BoxCipher) : Type 0 where
  pub decrypt_from-encrypt_to :
      (mine theirs nonce plaintext : List ℕ)
      → B.decrypt_from
          (B.public_of mine)
          theirs
          nonce
          (B.encrypt_to (B.public_of theirs) mine nonce plaintext)
        ≡ some plaintext
  pub length-encrypt_to :
      (public private nonce plaintext : List ℕ)
      → length (B.encrypt_to public private nonce plaintext) ≡ length plaintext + 16
  pub length-public_of : (private : List ℕ) → length (B.public_of private) ≡ 32

abbrev pub gcm_nonce_len : ℕ
gcm_nonce_len = 12

abbrev pub nonce_len : ℕ
nonce_len = 24

abbrev pub key_len : ℕ
key_len = 32

module _ (C : Cipher) where
  -- `AesGcmKey::encrypt`, and `AesGcmKey::decrypt`.
  unfoldable pub gcm_encrypt : (key nonce plaintext : List ℕ) → List ℕ
  gcm_encrypt key nonce plaintext = nonce ++ C.encrypt key nonce plaintext

  unfoldable pub gcm_decrypt : (key blob : List ℕ) → Result CryptoError (List ℕ)
  unfolding take drop
  gcm_decrypt key blob =
      if ltb (length blob) 28
      then err (too_short (length blob) 28)
      else ok_or authentication (C.decrypt key (take gcm_nonce_len blob) (drop gcm_nonce_len blob))

  -- `SymKey::encrypt`, and `SymKey::decrypt`.
  unfoldable pub sym_encrypt : (key nonce plaintext : List ℕ) → List ℕ
  sym_encrypt key nonce plaintext = nonce ++ C.encrypt key nonce plaintext

  unfoldable pub sym_decrypt : (key blob : List ℕ) → Result CryptoError (List ℕ)
  unfolding take drop
  sym_decrypt key blob =
      if ltb (length blob) 40
      then err (too_short (length blob) 40)
      else ok_or authentication (C.decrypt key (take nonce_len blob) (drop nonce_len blob))

module _ (B : BoxCipher) where
  -- `EncryptionPublicKey::seal`, and `EncryptionPrivateKey::open`.
  unfoldable pub seal_to : (public ephemeral nonce plaintext : List ℕ) → List ℕ
  seal_to public ephemeral nonce plaintext =
      nonce ++ (B.public_of ephemeral ++ B.encrypt_to public ephemeral nonce plaintext)

  unfoldable pub open_sealed : (private blob : List ℕ) → Result CryptoError (List ℕ)
  unfolding take drop
  open_sealed private blob =
      let rest = drop nonce_len blob in
      if ltb (length blob) 72
      then err (too_short (length blob) 72)
      else ok_or authentication
          (B.decrypt_from (take key_len rest) private (take nonce_len blob) (drop key_len rest))

-- `SecretBytes::try_from_slice`.
unfoldable pub try_from_slice : ℕ → List ℕ → Result CryptoError (List ℕ)
try_from_slice n slice =
    if not (eqb (length slice) n) then err (bad_length (length slice) n) else ok slice

-- `EncryptionPublicKey::try_from_slice`.
unfoldable pub public_from_slice : List ℕ → Result CryptoError (List ℕ)
public_from_slice slice =
    if eqb (length slice) key_len then ok slice else err (bad_length (length slice) key_len)

-- `SecretBytes::eq`: the same time wherever the first difference is.
unfoldable pub secret_eq : (a b : List ℕ) → Bool
unfolding fold_diff
secret_eq a b = eqb (fold_diff 0 a b) 0

unfoldable pub with_secondary : List ℕ → Option (List ℕ) → List ℕ
with_secondary seed none = seed
with_secondary seed (some secondary) = seed ++ secondary

module _ (sha512 : List ℕ → List ℕ) (hmac_sha256 : List ℕ → List ℕ → List ℕ) where
  -- `n` is the length of the buffer that is filled.
  unfoldable pub derive_secret_from_seed :
      (seed : List ℕ) (secondary : Option (List ℕ)) (salt : List ℕ) (n : ℕ)
      → Result CryptoError (List ℕ)
  unfolding with_secondary take
  derive_secret_from_seed seed secondary salt n =
      if ltb (length salt) 8
      then err (context_too_short (length salt))
      else if not (eqb n 32) && not (eqb n 64)
      then err (bad_output_length n)
      else ok (take n (sha512 (salt ++ sha512 (with_secondary seed secondary))))

  unfoldable pub derive_secret_from_seed_modern :
      (seed : List ℕ) (secondary : Option (List ℕ)) (salt : List ℕ) → Result CryptoError (List ℕ)
  unfolding with_secondary
  derive_secret_from_seed_modern seed secondary salt =
      if ltb (length salt) 8
      then err (context_too_short (length salt))
      else ok (hmac_sha256 (with_secondary seed secondary) salt)

  unfoldable pub hash_prefix : List ℕ → List ℕ
  unfolding take
  hash_prefix bytes = take 32 (sha512 bytes)
