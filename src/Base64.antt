-- ===== src/Base64.antt =====
-- The crate `base64`, which is not part of this repository: the four alphabets that the client uses.
use heyl.Prelude.{ℕ, String, Option, List}

pub record Base64 : Type 0 where
  pub standard_encode : List ℕ → String
  pub standard_decode : String → Option (List ℕ)
  pub standard_no_pad_decode : String → Option (List ℕ)
  pub url_safe_decode : String → Option (List ℕ)
  pub url_safe_no_pad_decode : String → Option (List ℕ)
  pub url_safe_no_pad_encode : List ℕ → String
