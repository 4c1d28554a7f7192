-- ===== src/Grpc/Wire.antt =====
-- The messages of crates/heyl-proto that crates/heyl-grpc/src/map.rs reads, with the fields it reads. The
-- build generates them; the numbers of their enums are a parameter.
use heyl.Prelude.{ℕ, String, Bool, Option, List}
use heyl.Prelude.Int.{ℤ}

pub data WireAuthenticatorType : Type 0 where
  wire_push wire_backup_code wire_backup_os wire_dummy : WireAuthenticatorType
  wire_session_unlock wire_webauthn wire_organization_service : WireAuthenticatorType
  wire_unknown_authenticator : WireAuthenticatorType

pub data WireVaultType : Type 0 where
  wire_meta wire_private wire_team wire_team_meta wire_inbox wire_inbox_meta : WireVaultType
  wire_organization_personal wire_organization_admin : WireVaultType
  wire_organization_login_summary wire_unknown_vault : WireVaultType

pub data WireSessionType : Type 0 where
  wire_unknown wire_self_unlocking_primary wire_self_unlocking_secondary : WireSessionType
  wire_with_backup_os wire_with_backup_code wire_connected : WireSessionType

-- `TryFrom<i32>` of the generated enums.
pub record Discriminants : Type 0 where
  pub authenticator_of : ℤ → Option WireAuthenticatorType
  pub vault_of : ℤ → Option WireVaultType

-- `prost_types::Timestamp`: an `i64` and an `i32`.
pub record WireTimestamp : Type 0 where
  pub seconds : ℤ
  pub nanos : ℤ

pub record WireProfileLock : Type 0 where
  pub authenticator_id : String
  pub profile_id : String
  pub profile_key_generation_id : String
  pub encrypted_storable_profile_seed : List ℕ
  pub encrypted_high_security_profile_seed : List ℕ

pub record WireVaultLock : Type 0 where
  pub locking_profile_id : String
  pub locking_profile_key_generation_id : String
  pub encrypted_storable_vault_key : List ℕ
  pub encrypted_high_security_vault_key : List ℕ
  pub encrypted_vault_message_private_key : List ℕ

pub record WireProfile : Type 0 where
  pub id : String
  pub key_generation_id : String
  pub authenticator_locks : List WireProfileLock
  pub high_security_identity_sig_pub_key : List ℕ
  pub storable_sig_pub_key : List ℕ
  pub high_security_vault_key_enc_pub_key : List ℕ
  pub storable_vault_key_enc_pub_key : List ℕ
  pub high_security_profile_seed_enc_pub_key : List ℕ
  pub storable_profile_seed_enc_pub_key : List ℕ
  pub high_security_vault_key_enc_pub_key_signature : List ℕ
  pub storable_vault_key_enc_pub_key_signature : List ℕ
  pub high_security_profile_seed_enc_pub_key_signature : List ℕ
  pub storable_profile_seed_enc_pub_key_signature : List ℕ
  pub storable_sig_pub_key_signature : List ℕ

pub record WireVault : Type 0 where
  pub id : String
  pub vault_type : ℤ
  pub generation_id : String
  pub commit_id : String
  pub profiles : List String
  pub associated_vault_id : String
  pub organization_id : String

pub record WireSession : Type 0 where
  pub id : String
  pub unlocked_until : Option WireTimestamp
  pub unlock_requested_at : Option WireTimestamp
  pub unlock_time_limit_minutes : ℕ
  pub client_settings : String

pub record WireUnlock : Type 0 where
  pub encrypted_secret : List ℕ
  pub authenticator_id : String

pub record WireOrganization : Type 0 where
  pub id : String
  pub name : String

pub record SyncUpdate : Type 0 where
  pub server_time : Option WireTimestamp
  pub token_refresh_needed : Bool
  pub client_outdated : Bool
  pub session_unlock : Option WireUnlock
  pub sessions : List WireSession
  pub vaults : List WireVault
  pub profiles : List WireProfile
  pub organizations : List WireOrganization

pub record WireChallengeAuthenticator : Type 0 where
  pub id : String
  pub authenticator_type : ℤ
  pub secret_info : String

pub record CreateChallengeResponse : Type 0 where
  pub user_id : String
  pub challenge : String
  pub authenticators : List WireChallengeAuthenticator

pub record AuthenticatorData : Type 0 where
  pub authenticator_type : ℤ
  pub secret_info : String
  pub secret_salt : List ℕ
  pub high_security_login_sig_pub_key : List ℕ
  pub high_security_identity_sig_pub_key : List ℕ
  pub storable_sig_pub_key : List ℕ
  pub high_security_profile_seed_enc_pub_key : List ℕ
  pub storable_profile_seed_enc_pub_key : List ℕ
  pub high_security_profile_seed_enc_pub_key_signature : List ℕ
  pub storable_profile_seed_enc_pub_key_signature : List ℕ
  pub storable_sig_pub_key_signature : List ℕ

pub record WireAuthenticator : Type 0 where
  pub id : String
  pub data_of : Option AuthenticatorData

pub record AccessToken : Type 0 where
  pub token : String
  pub expires_at : Option WireTimestamp

pub record CreateTokensResponse : Type 0 where
  pub access_token : Option AccessToken
  pub session_id : String
  pub sync_update : Option SyncUpdate

pub record WireCommit : Type 0 where
  pub id : String
  pub blob : List ℕ

pub record ListCommitsResponse : Type 0 where
  pub current_generation_id : String
  pub newer_commits : List WireCommit
  pub profile_lock : Option WireVaultLock
