-- ===== src/App/Error.antt =====
-- crates/heyl-app/src/error.rs, with the errors of crates/heyl-ports/src/error.rs, and the exit
-- codes that they map onto.
pub mod Display
use heyl.Prelude.{ℕ, String, Option}
use heyl.Prelude.Int.{ℤ}
use heyl.Domain.Ids.{Uuids, AuthenticatorId, VaultId}
use heyl.Domain.Error.{CryptoError, DomainError}
use heyl.Vault.Document.{VaultError}

pub data PortError : Type 0 where
  unavailable : String → String → PortError
  not_found : String → PortError
  malformed : String → PortError

pub data ApiError : Type 0 where
  unauthenticated : Option ℤ → ApiError
  permission_denied : Option ℤ → ApiError
  bad_request : Option ℤ → String → ApiError
  client_outdated : ApiError
  backend : ℤ → Option ℤ → String → String → ApiError
  transport : String → ApiError
  unimplemented : String → ApiError
  malformed_response : String → ApiError

pub data AppError (U : Uuids) : Type 0 where
  wrong_recovery_code : AppError U
  no_recovery_authenticator : AppError U
  not_confirmed : AppError U
  signature_rejected : AppError U
  unlock_required : AppError U
  slot_exists : String → AppError U
  malformed_slot : String → String → AppError U
  not_registered : String → AppError U
  session_gone : AppError U
  unknown_setting : String → AppError U
  bad_setting_value : String → String → String → AppError U
  timeout_too_short : ℕ → AppError U
  no_meta_vault : AppError U
  no_such_vault : AppError U
  no_such_login : AppError U
  no_such_field : AppError U
  malformed_selector : String → AppError U
  conflicting_selectors : String → String → AppError U
  missing_login_selector : AppError U
  corrupt_protected_value : AppError U
  unlock_undecryptable : AppError U
  unknown_granting_authenticator : AuthenticatorId U → AppError U
  no_secret_salt : AuthenticatorId U → AppError U
  no_unlockable_profile : AuthenticatorId U → AppError U
  vault : VaultId U → DomainError U → AppError U
  vault_content : VaultId U → VaultError → AppError U
  domain : DomainError U → AppError U
  crypto_failure : CryptoError → AppError U
  api : ApiError → AppError U
  port : PortError → AppError U

pub data ExitCode : Type 0 where
  failure not_there needs_unlock backend_failure conflict invalid : ExitCode

-- The number that the process ends with.
unfoldable pub code : ExitCode → ℕ
code failure = 1
code not_there = 2
code needs_unlock = 4
code backend_failure = 5
code conflict = 6
code invalid = 7

unfoldable pub exit_code : {U : Uuids} → AppError U → ExitCode
exit_code unlock_required = needs_unlock
exit_code (not_registered slot) = needs_unlock
exit_code session_gone = backend_failure
exit_code (api e) = backend_failure
exit_code (unknown_setting key) = not_there
exit_code no_such_vault = not_there
exit_code no_such_login = not_there
exit_code no_such_field = not_there
exit_code (port (not_found what)) = not_there
exit_code (slot_exists slot) = conflict
exit_code (bad_setting_value key value expected) = invalid
exit_code (timeout_too_short minimum) = invalid
exit_code (malformed_slot slot what) = invalid
exit_code (malformed_selector what) = invalid
exit_code (conflicting_selectors a b) = invalid
exit_code missing_login_selector = invalid
exit_code not_confirmed = invalid
exit_code _ = failure
