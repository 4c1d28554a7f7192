-- ===== src/Domain/Sync.antt =====
-- crates/heyl-domain/src/sync.rs and locks.rs: the backend's view of the account, and its lookups. Keys
-- and ciphertexts are bytes, and a key generation is an opaque text.
use heyl.Prelude.{ℕ, String, Bool, Option, some, List, find, ◌==◌, ◌>>=◌}
use heyl.Domain.Ids.{Uuids, AuthenticatorId, ProfileId, SessionId, VaultId, CommitId, id_eq}
use heyl.Domain.Time.{Jiff}
use heyl.Domain.Kinds.{VaultType}

pub record Organization : Type 0 where
  pub id : String
  pub name : String

pub record Session (U : Uuids) (T : Jiff) : Type 0 where
  pub id : SessionId U
  pub unlocked_until : Option T.Instant
  pub unlock_requested_at : Option T.Instant
  pub unlock_time_limit_minutes : ℕ
  pub client_settings : String

pub record SessionUnlock (U : Uuids) : Type 0 where
  pub encrypted_secret : List ℕ
  pub authenticator_id : AuthenticatorId U

pub record VaultSummary (U : Uuids) : Type 0 where
  pub id : VaultId U
  pub vault_type : VaultType
  pub generation_id : String
  pub commit_id : Option (CommitId U)
  pub profile_ids : List (ProfileId U)
  pub associated_vault_id : Option (VaultId U)
  pub organization_id : Option String

pub record ProfileAuthenticatorLock (U : Uuids) : Type 0 where
  pub authenticator_id : AuthenticatorId U
  pub profile_id : ProfileId U
  pub profile_key_generation_id : String
  pub encrypted_storable_profile_seed : List ℕ
  pub encrypted_high_security_profile_seed : List ℕ

pub record VaultProfileLock (U : Uuids) : Type 0 where
  pub locking_profile_id : ProfileId U
  pub locking_profile_key_generation_id : String
  pub encrypted_storable_vault_key : List ℕ
  pub encrypted_high_security_vault_key : List ℕ
  pub encrypted_vault_message_private_key : Option (List ℕ)

pub record ProfilePublicKeys : Type 0 where
  pub high_security_identity_sig : Option (List ℕ)
  pub storable_sig : Option (List ℕ)
  pub high_security_vault_key_enc : Option (List ℕ)
  pub storable_vault_key_enc : Option (List ℕ)
  pub high_security_profile_seed_enc : Option (List ℕ)
  pub storable_profile_seed_enc : Option (List ℕ)
  pub high_security_vault_key_enc_signature : Option (List ℕ)
  pub storable_vault_key_enc_signature : Option (List ℕ)
  pub high_security_profile_seed_enc_signature : Option (List ℕ)
  pub storable_profile_seed_enc_signature : Option (List ℕ)
  pub storable_sig_signature : Option (List ℕ)

pub record Profile (U : Uuids) : Type 0 where
  pub id : ProfileId U
  pub key_generation_id : String
  pub authenticator_locks : List (ProfileAuthenticatorLock U)
  pub public_keys : ProfilePublicKeys

pub record Commit (U : Uuids) : Type 0 where
  pub id : CommitId U
  pub blob : List ℕ

pub record VaultCommits (U : Uuids) : Type 0 where
  pub current_generation_id : String
  pub commits : List (Commit U)
  pub profile_lock : Option (VaultProfileLock U)

pub record SyncSnapshot (U : Uuids) (T : Jiff) : Type 0 where
  pub server_time : Option T.Instant
  pub token_refresh_needed : Bool
  pub client_outdated : Bool
  pub session_unlock : Option (SessionUnlock U)
  pub sessions : List (Session U T)
  pub vaults : List (VaultSummary U)
  pub profiles : List (Profile U)
  pub organizations : List Organization

module _ {U : Uuids} {T : Jiff} where
  unfoldable pub profile : SyncSnapshot U T → ProfileId U → Option (Profile U)
  profile snapshot id = find (λ p. id_eq U p.id id) snapshot.profiles

  unfoldable pub session : SyncSnapshot U T → SessionId U → Option (Session U T)
  session snapshot id = find (λ s. id_eq U s.id id) snapshot.sessions

  unfoldable pub organization_name : SyncSnapshot U T → String → Option String
  organization_name snapshot id = find (λ o. o.id == id) snapshot.organizations >>= λ o. some o.name

unfoldable pub lock_for :
    {U : Uuids} → Profile U → AuthenticatorId U → Option (ProfileAuthenticatorLock U)
lock_for {U} profile authenticator =
    find (λ l. id_eq U l.authenticator_id authenticator) profile.authenticator_locks
