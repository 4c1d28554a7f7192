-- ===== src/Domain/Authenticator/SecretInfo.antt =====
-- crates/heyl-domain/src/authenticator.rs: parsing `secretInfo`. What the derived deserializers read out
-- of the JSON text is a parameter.
use heyl.Prelude.{ℕ, String, Option, List, ◌==◌, if◌then◌else◌, eqb, length}
use heyl.Prelude.Results.{Result, ok, err, ok_or, map_err, ◌>>=◌}
use heyl.Base64.{Base64}
use heyl.Domain.Ids.{Uuids}
use heyl.Domain.Error.{DomainError, malformed_secret_info, crypto}
use heyl.Domain.Kinds.{AuthenticatorType, backup_code, dummy}
use heyl.Domain.Keys.{RecoveryParams}
use heyl.Domain.Authenticator.{
  AuthenticatorSecret, recovery, dummy_seed, opaque_secret, RecoverySecret,
}
use heyl.Domain.Login.{or_else}
use heyl.Crypto.Recovery.{validate}

-- The wire shapes; the numbers are `u32`.
pub record RawRecoveryParameters : Type 0 where
  pub salt_base64 : String
  pub iterations : ℕ
  pub memory_cost : ℕ
  pub parallelism : ℕ

pub record RawRecoverySecretInfo : Type 0 where
  pub checksum : String
  pub recovery_parameters : RawRecoveryParameters

pub record RawDummySecretInfo : Type 0 where
  pub seed : String

pub record Readers : Type 0 where
  pub recovery_from_str : String → Option RawRecoverySecretInfo
  pub dummy_from_str : String → Option RawDummySecretInfo

module _ (U : Uuids) (b64 : Base64) where
  -- Padding is accepted either way.
  unfoldable pub decode_base64 : String → (field : String) → Result (DomainError U) (List ℕ)
  unfolding or_else
  decode_base64 value field =
      ok_or (malformed_secret_info field)
        (or_else (b64.standard_decode value) (b64.standard_no_pad_decode value))

module _ (U : Uuids) (b64 : Base64) (R : Readers) where
  unfoldable pub parse_recovery : String → Result (DomainError U) RecoverySecret
  unfolding decode_base64 validate
  parse_recovery secret_info = do
    raw ←
        ok_or (malformed_secret_info "RecoverySecretInfo is not the expected JSON object")
          (R.recovery_from_str secret_info)
    let params : RecoveryParams = record {
      memory_cost_kib = raw.recovery_parameters.memory_cost;
      iterations = raw.recovery_parameters.iterations;
      parallelism = raw.recovery_parameters.parallelism;
    }
    _ ← map_err crypto (validate params)
    checksum ← decode_base64 U b64 raw.checksum "checksum"
    salt ← decode_base64 U b64 raw.recovery_parameters.salt_base64 "saltBase64"
    ok (record { checksum = checksum; salt = salt; params = params })

  unfoldable pub parse_dummy : String → Result (DomainError U) (List ℕ)
  unfolding decode_base64
  parse_dummy secret_info = do
    raw ←
        ok_or (malformed_secret_info "DummySecretInfo is not the expected JSON object")
          (R.dummy_from_str secret_info)
    bytes ← decode_base64 U b64 raw.seed "seed"
    if eqb (length bytes) 32
        then ok bytes
        else err (malformed_secret_info "DUMMY seed is not 32 bytes")

  parse_kind : AuthenticatorType → String → Result (DomainError U) AuthenticatorSecret
  unfolding parse_recovery parse_dummy
  parse_kind backup_code secret_info = do secret ← parse_recovery secret_info; ok (recovery secret)
  parse_kind dummy secret_info = do seed ← parse_dummy secret_info; ok (dummy_seed seed)
  parse_kind _ secret_info = ok opaque_secret

  -- An empty text is a type that publishes nothing.
  unfoldable pub parse_secret :
      AuthenticatorType → String → Result (DomainError U) AuthenticatorSecret
  unfolding parse_kind
  parse_secret kind secret_info =
      if secret_info == "" then ok opaque_secret else parse_kind kind secret_info
