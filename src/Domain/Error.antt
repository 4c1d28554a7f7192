-- ===== src/Domain/Error.antt =====
-- crates/heyl-crypto/src/error.rs and crates/heyl-domain/src/error.rs.
use heyl.Prelude.{ℕ, String}
use heyl.Domain.Ids.{Uuids, AuthenticatorId, ProfileId}

pub data CryptoError : Type 0 where
  too_short : ℕ → ℕ → CryptoError
  bad_length : ℕ → ℕ → CryptoError
  authentication : CryptoError
  context_too_short : ℕ → CryptoError
  bad_output_length : ℕ → CryptoError
  malformed_recovery_code : CryptoError
  argon2_params : String → CryptoError

-- The generations of a profile are opaque texts.
pub data DomainError (U : Uuids) : Type 0 where
  crypto : CryptoError → DomainError U
  no_lock_for_authenticator : AuthenticatorId U → DomainError U
  malformed_secret_info : String → DomainError U
  malformed_challenge : String → DomainError U
  key_generation_mismatch : ProfileId U → String → String → DomainError U
