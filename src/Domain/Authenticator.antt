-- ===== src/Domain/Authenticator.antt =====
-- crates/heyl-domain/src/authenticator.rs: an authenticator as the backend lists it. Keys are bytes.
pub mod SecretInfo
use heyl.Prelude.{ℕ, Option, List}
use heyl.Domain.Ids.{Uuids, AuthenticatorId}
use heyl.Domain.Keys.{RecoveryParams}
use heyl.Domain.Kinds.{AuthenticatorType}

pub record AuthenticatorPublicKeys : Type 0 where
  pub login_sig : Option (List ℕ)
  pub high_security_identity_sig : Option (List ℕ)
  pub storable_sig : Option (List ℕ)
  pub high_security_profile_seed_enc : Option (List ℕ)
  pub storable_profile_seed_enc : Option (List ℕ)
  pub high_security_profile_seed_enc_signature : Option (List ℕ)
  pub storable_profile_seed_enc_signature : Option (List ℕ)
  pub storable_sig_signature : Option (List ℕ)

pub record RecoverySecret : Type 0 where
  pub checksum : List ℕ
  pub salt : List ℕ
  pub params : RecoveryParams

pub data AuthenticatorSecret : Type 0 where
  recovery : RecoverySecret → AuthenticatorSecret
  dummy_seed : List ℕ → AuthenticatorSecret
  opaque_secret : AuthenticatorSecret

pub record Authenticator (U : Uuids) : Type 0 where
  pub id : AuthenticatorId U
  pub authenticator_type : AuthenticatorType
  pub secret : AuthenticatorSecret
  pub secret_salt : Option (List ℕ)
  pub public_keys : AuthenticatorPublicKeys
