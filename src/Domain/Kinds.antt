-- ===== src/Domain/Kinds.antt =====
-- crates/heyl-domain/src/vault.rs: the kinds of vaults, authenticators and sessions.
use heyl.Prelude.{String, Bool, true, false}

pub data VaultType : Type 0 where
  meta private_vault team team_meta inbox inbox_meta : VaultType
  organization_personal organization_admin organization_login_summary : VaultType

unfoldable pub is_supported : VaultType → Bool
is_supported organization_admin = false
is_supported organization_login_summary = false
is_supported _ = true

unfoldable pub holds_logins : VaultType → Bool
holds_logins private_vault = true
holds_logins team = true
holds_logins inbox = true
holds_logins organization_personal = true
holds_logins _ = false

pub data AuthenticatorType : Type 0 where
  push backup_code backup_os dummy session_unlock webauthn organization_service : AuthenticatorType

unfoldable pub is_supported_authenticator : AuthenticatorType → Bool
is_supported_authenticator push = true
is_supported_authenticator backup_code = true
is_supported_authenticator _ = false

pub data SessionType : Type 0 where
  unspecified self_unlocking_primary self_unlocking_secondary : SessionType
  with_backup_os with_backup_code connected : SessionType

unfoldable pub session_type_name : SessionType → String
session_type_name unspecified = "unspecified"
session_type_name self_unlocking_primary = "self-unlocking-primary"
session_type_name self_unlocking_secondary = "self-unlocking-secondary"
session_type_name with_backup_os = "backup-os"
session_type_name with_backup_code = "backup-code"
session_type_name connected = "connected"

-- The derived `Debug` forms.
unfoldable pub debug_vault : VaultType → String
debug_vault meta = "Meta"
debug_vault private_vault = "Private"
debug_vault team = "Team"
debug_vault team_meta = "TeamMeta"
debug_vault inbox = "Inbox"
debug_vault inbox_meta = "InboxMeta"
debug_vault organization_personal = "OrganizationPersonal"
debug_vault organization_admin = "OrganizationAdmin"
debug_vault organization_login_summary = "OrganizationLoginSummary"

unfoldable pub debug_authenticator : AuthenticatorType → String
debug_authenticator push = "Push"
debug_authenticator backup_code = "BackupCode"
debug_authenticator backup_os = "BackupOs"
debug_authenticator dummy = "Dummy"
debug_authenticator session_unlock = "SessionUnlock"
debug_authenticator webauthn = "Webauthn"
debug_authenticator organization_service = "OrganizationService"
