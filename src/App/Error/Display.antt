-- ===== src/App/Error/Display.antt =====
-- The messages of crates/heyl-app/src/error.rs, crates/heyl-ports/src/error.rs,
-- crates/heyl-domain/src/error.rs, crates/heyl-crypto/src/error.rs and crates/heyl-vault/src/error.rs.
-- `debug` is the quoted form `{:?}` of a text.
use heyl.Prelude.{ℕ, ◌/◌, ◌%◌, String, Option, none, some, ltb, eqb, if◌then◌else◌, ◌==◌}
use heyl.Prelude.Decimal.{print}
use heyl.Prelude.Int.{ℤ, pos, negsuc, abs}
use heyl.Domain.Ids.{Uuids, show}
use heyl.Domain.Error.{
  CryptoError, too_short, bad_length, authentication, context_too_short, bad_output_length,
  malformed_recovery_code, argon2_params, DomainError, crypto, no_lock_for_authenticator,
  malformed_secret_info, malformed_challenge, key_generation_mismatch,
}
use heyl.Vault.Document.{
  VaultError, empty, unknown_format, legacy_automerge, decompression, compression,
  not_writable_version, not_a_document,
}
use heyl.App.Error.{
  PortError, ApiError, AppError, unavailable, not_found, malformed, unauthenticated,
  permission_denied, bad_request, client_outdated, backend, transport, unimplemented,
  malformed_response, wrong_recovery_code, no_recovery_authenticator, not_confirmed,
  signature_rejected, unlock_required, slot_exists, malformed_slot, not_registered, session_gone,
  unknown_setting, bad_setting_value, timeout_too_short, no_meta_vault, no_such_vault,
  no_such_login, no_such_field, malformed_selector, conflicting_selectors, missing_login_selector,
  corrupt_protected_value, unlock_undecryptable, unknown_granting_authenticator, no_secret_salt,
  no_unlockable_profile, vault, vault_content, domain, crypto_failure, api, port,
}
use Prim.Native.String.{◌++◌}

unfoldable pub show_crypto : CryptoError → String
show_crypto (too_short len min) =
    "ciphertext too short: " ++ print len ++ " bytes, need at least " ++ print min
show_crypto (bad_length len expected) = "expected " ++ print expected ++ " bytes, got " ++ print len
show_crypto authentication = "authentication failed"
show_crypto (context_too_short len) =
    "context string too short: " ++ print len ++ " characters, need at least 8"
show_crypto (bad_output_length len) = "derived-secret length must be 32 or 64, got " ++ print len
show_crypto malformed_recovery_code =
    "recovery code must be six dash-separated groups of four digits"
show_crypto (argon2_params reason) = "invalid Argon2 parameters: " ++ reason

-- `{:x}` of four bits.
unfoldable pub hex_digit : ℕ → String
hex_digit n =
    if ltb n 10
    then print n
    else if eqb n 10
    then "a"
    else if eqb n 11
    then "b"
    else if eqb n 12
    then "c"
    else if eqb n 13
    then "d"
    else if eqb n 14
    then "e"
    else "f"

-- `{:#04x}` of a byte.
unfoldable pub hex_byte : ℕ → String
unfolding hex_digit
hex_byte n = "0x" ++ hex_digit (n / 16) ++ hex_digit (n % 16)

unfoldable pub show_vault_error : VaultError → String
unfolding hex_byte
show_vault_error empty = "decrypted blob is empty"
show_vault_error (unknown_format byte) =
    "unknown serialization format: first byte is " ++ hex_byte byte
show_vault_error legacy_automerge =
    "this vault is a legacy automerge document, which heyl cannot read"
show_vault_error decompression = "snappy decompression failed"
show_vault_error compression = "snappy compression failed"
show_vault_error (not_writable_version version expected) =
    "refusing to write a version "
    ++ print version
    ++ " document (heymerge is "
    ++ print expected
    ++ ")"
show_vault_error (not_a_document what) = "vault content is not a heymerge document: " ++ what

unfoldable pub show_port : PortError → String
show_port (unavailable operation reason) = operation ++ " failed: " ++ reason
show_port (not_found what) = what ++ " not found"
show_port (malformed what) = "stored " ++ what ++ " is malformed"

unfoldable pub show_int : ℤ → String
show_int (pos n) = print n
show_int (negsuc n) = "-" ++ print (abs (negsuc n))

show_code : Option ℤ → String
unfolding show_int
show_code none = ""
show_code (some c) = ", DomainError " ++ show_int c

unfoldable pub show_api : ApiError → String
unfolding show_int show_code
show_api (unauthenticated code) = "not authenticated"
show_api (permission_denied code) = "permission denied"
show_api (bad_request code message) = "backend rejected the request: " ++ message
show_api client_outdated = "this client version is no longer accepted"
show_api (backend status code message detail) =
    "backend error (grpc "
    ++ show_int status
    ++ show_code code
    ++ "): "
    ++ message
    ++ (if detail == "" then "" else " — " ++ detail)
show_api (transport reason) = "transport failure: " ++ reason
show_api (unimplemented method) = method ++ " is not implemented by this API"
show_api (malformed_response what) = "backend response is missing " ++ what

module _ {U : Uuids} where
  unfoldable pub show_domain : DomainError U → String
  unfolding show_crypto
  show_domain (crypto e) = show_crypto e
  show_domain (no_lock_for_authenticator id) = "profile has no lock for authenticator " ++ show U id
  show_domain (malformed_secret_info what) = "malformed secretInfo: " ++ what
  show_domain (malformed_challenge encoding) = "challenge is not valid " ++ encoding
  show_domain (key_generation_mismatch id profile lock) =
      "profile "
      ++ show U id
      ++ " is at key generation "
      ++ profile
      ++ ", but the lock was written at "
      ++ lock

  unfoldable pub show_error : (debug : String → String) → AppError U → String
  unfolding show_crypto show_vault_error show_port show_api show_domain
  show_error debug wrong_recovery_code = "that recovery code is not correct for this account"
  show_error debug no_recovery_authenticator =
      "this account has no recovery code configured; use another method"
  show_error debug not_confirmed =
      "cancelled: nothing was changed. Pass --confirm to proceed without being asked"
  show_error debug signature_rejected = "the backend rejected our login signature"
  show_error debug unlock_required = "this session is locked; run `heyl login` again"
  show_error debug (slot_exists slot) =
      "session slot " ++ debug slot ++ " already exists; `heyl session remove " ++ slot ++ "` first"
  show_error debug (malformed_slot slot what) =
      "session slot " ++ debug slot ++ " is unusable: " ++ what
  show_error debug (not_registered slot) =
      "session "
      ++ debug slot
      ++ " is not registered as a device, so the phone cannot show it; "
      ++ "run `heyl session create` again"
  show_error debug session_gone = "this session no longer exists; run `heyl session create` again"
  show_error debug (unknown_setting key) = "unknown setting " ++ debug key
  show_error debug (bad_setting_value key value expected) =
      key ++ " cannot be " ++ debug value ++ "; expected " ++ expected
  show_error debug (timeout_too_short minimum) =
      "the backend refuses an unlock timeout under " ++ print minimum ++ " minute(s)"
  show_error debug no_meta_vault =
      "this account has no META vault, so there is nowhere to register a device"
  show_error debug no_such_vault = "no vault matches"
  show_error debug no_such_login = "no login matches"
  show_error debug no_such_field = "no such field"
  show_error debug (malformed_selector what) = what ++ " is not a valid id"
  show_error debug (conflicting_selectors a b) = a ++ " cannot be used with " ++ b
  show_error debug missing_login_selector = "a login is required: pass --login-title or --login-id"
  show_error debug corrupt_protected_value =
      "a protected value is stored in a form heyl cannot read"
  show_error debug unlock_undecryptable = "the unlock grant did not open with our session key"
  show_error debug (unknown_granting_authenticator id) =
      "the unlock grant names authenticator " ++ show U id ++ ", which the account does not list"
  show_error debug (no_secret_salt id) =
      "the backend did not reveal secretSalt for authenticator " ++ show U id
  show_error debug (no_unlockable_profile id) =
      "no profile is unlockable with authenticator " ++ show U id
  show_error debug (vault id source) = "vault " ++ show U id ++ ": " ++ show_domain source
  show_error debug (vault_content id source) =
      "vault " ++ show U id ++ ": " ++ show_vault_error source
  show_error debug (domain e) = show_domain e
  show_error debug (crypto_failure e) = show_crypto e
  show_error debug (api e) = show_api e
  show_error debug (port e) = show_port e
