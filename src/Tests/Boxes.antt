-- ===== src/Tests/Boxes.antt =====
-- Runs of the framing of ciphertexts, with ciphers that hide nothing.
use heyl.Prelude.{ℕ, ◌≡◌, refl, arith, some, List, [], ◌∷◌, ◌++◌}
use heyl.Prelude.Results.{ok}
use heyl.Crypto.Boxes.{
  drop, Cipher, IsCipher, BoxCipher, IsBoxCipher, gcm_encrypt, gcm_decrypt, sym_encrypt,
  sym_decrypt,
}
use heyl.Crypto.Boxes.RoundTrip.{decrypts-encrypts}

abbrev tag : List ℕ
tag = 0 ∷ 0 ∷ 0 ∷ 0 ∷ 0 ∷ 0 ∷ 0 ∷ 0 ∷ 0 ∷ 0 ∷ 0 ∷ 0 ∷ 0 ∷ 0 ∷ 0 ∷ 0 ∷ []

abbrev long_nonce : List ℕ
long_nonce = tag ++ 1 ∷ 2 ∷ 3 ∷ 4 ∷ 5 ∷ 6 ∷ 7 ∷ 8 ∷ []

abbrev gcm_nonce : List ℕ
gcm_nonce = 1 ∷ 2 ∷ 3 ∷ 4 ∷ 5 ∷ 6 ∷ 7 ∷ 8 ∷ 9 ∷ 10 ∷ 11 ∷ 12 ∷ []

abbrev plain_cipher : Cipher
plain_cipher = record {
  encrypt = λ key nonce plaintext. tag ++ plaintext;
  decrypt = λ key nonce ciphertext. some (drop 16 ciphertext);
}

plain_cipher-IsCipher : IsCipher plain_cipher
unfolding drop
plain_cipher-IsCipher = record {
  decrypt-encrypt = λ key nonce plaintext. refl;
  length-encrypt = λ key nonce plaintext. omega arith;
}

abbrev plain_box : BoxCipher
plain_box = record {
  public_of = λ private. tag ++ tag;
  encrypt_to = λ public private nonce plaintext. tag ++ plaintext;
  decrypt_from = λ public private nonce ciphertext. some (drop 16 ciphertext);
}

plain_box-IsBoxCipher : IsBoxCipher plain_box
unfolding drop
plain_box-IsBoxCipher = record {
  decrypt_from-encrypt_to = λ mine theirs nonce plaintext. refl;
  length-encrypt_to = λ public private nonce plaintext. omega arith;
  length-public_of = λ private. refl;
}

decrypts-encrypts_example :
    (sym_decrypt plain_cipher [] (sym_encrypt plain_cipher [] long_nonce (7 ∷ 8 ∷ []))
      ≡ ok (7 ∷ 8 ∷ []))
    × (gcm_decrypt plain_cipher [] (gcm_encrypt plain_cipher [] gcm_nonce (7 ∷ 8 ∷ []))
        ≡ ok (7 ∷ 8 ∷ []))
decrypts-encrypts_example =
    decrypts-encrypts plain_cipher plain_cipher-IsCipher [] long_nonce gcm_nonce (7 ∷ 8 ∷ []) refl
      refl
