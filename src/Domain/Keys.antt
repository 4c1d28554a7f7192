-- ===== src/Domain/Keys.antt =====
-- crates/heyl-domain/src/keys.rs: the keys of an authenticator open the seeds of a profile, and these
-- the secrets of a vault. The primitives of crates/heyl-crypto are a parameter.
pub mod Chain
use heyl.Prelude.{ℕ, String, Bool, Option, none, some, List, ◌==◌, if◌then◌else◌, not}
use heyl.Prelude.Results.{Result, ok, err, map_err, ◌>>=◌}
use heyl.Domain.Ids.{Uuids, AuthenticatorId, ProfileId, id_eq}
use heyl.Domain.Error.{
  CryptoError, DomainError, crypto, no_lock_for_authenticator, key_generation_mismatch,
}
use heyl.Domain.Sync.{ProfileAuthenticatorLock, VaultProfileLock}

abbrev pub Bytes : Type 0
Bytes = List ℕ

-- The costs of Argon2id.
pub record RecoveryParams : Type 0 where
  pub memory_cost_kib : ℕ
  pub iterations : ℕ
  pub parallelism : ℕ

-- The primitives. Public keys, signatures and nonces are bytes.
pub record Crypto : Type 1 where
  pub SigningKey : Type 0
  pub EncryptionPrivateKey : Type 0
  pub SymKey : Type 0
  pub Seed : Type 0
  pub derive_signing : Bytes → Option Bytes → String → Result CryptoError SigningKey
  pub derive_encryption : Bytes → Option Bytes → String → Result CryptoError EncryptionPrivateKey
  pub open_box : EncryptionPrivateKey → Bytes → Result CryptoError Bytes
  pub seed_from_slice : Bytes → Result CryptoError Seed
  pub expose_secret : Seed → Bytes
  pub sym_key_from_slice : Bytes → Result CryptoError SymKey
  pub sym_decrypt : SymKey → Bytes → Result CryptoError Bytes
  pub sym_encrypt : SymKey → (nonce : Bytes) → Bytes → Bytes
  pub verifying_key : SigningKey → Bytes
  pub sign : SigningKey → (context : String) → Bytes → Bytes
  pub sign_unprefixed : SigningKey → Bytes → Bytes
  pub public_key : EncryptionPrivateKey → Bytes
  pub seal :
      (recipient : Bytes) → (ephemeral : EncryptionPrivateKey) → (nonce : Bytes) → Bytes → Bytes
  pub key_from_bytes : Bytes → EncryptionPrivateKey
  pub key_bytes : EncryptionPrivateKey → Bytes
  pub seed_from_bytes : Bytes → Seed
  pub hash_data : Bytes → Bytes
  pub argon2id : Bytes → (salt : Bytes) → RecoveryParams → Result CryptoError Bytes

-- The two tiers, which differ in the contexts that they derive with.
pub data Tier : Type 0 where
  storable high_security : Tier

unfoldable pub profile_vault_key_encryption : Tier → String
profile_vault_key_encryption storable = "salt-profile-storable-vault-key-encryption-key-"
profile_vault_key_encryption high_security = "salt-profile-high-security-vault-key-encryption-key-"

unfoldable pub profile_signing : Tier → String
profile_signing storable = "salt-profile-storable-signing-key-"
profile_signing high_security = "salt-profile-high-security-identity-signing-key-"

unfoldable pub profile_key_encryption : Tier → String
profile_key_encryption storable = "salt-profile-storable-profile-key-encryption-key-"
profile_key_encryption high_security = "salt-profile-high-security-profile-key-encryption-key-"

pub record AuthenticatorKeys (U : Uuids) (K : Crypto) : Type 0 where
  pub id : AuthenticatorId U
  pub identity_signing : K.SigningKey
  pub profile_seed_encryption : K.EncryptionPrivateKey

-- A profile's seed of one tier, and the two secrets of a vault: they are different types.
pub record ProfileSeed (K : Crypto) (t : Tier) : Type 0 where
  pub bytes : K.Seed

pub record VaultSecret (K : Crypto) : Type 0 where
  pub key : K.SymKey

pub record ProtectedSecret (K : Crypto) : Type 0 where
  pub key : K.SymKey

module _ (U : Uuids) (K : Crypto) where
  -- `?` on a cryptographic step.
  abbrev pub step : {A : Type 0} → Result CryptoError A → Result (DomainError U) A
  step r = map_err crypto r

  unfoldable pub session_encryption_key : Bytes → Result (DomainError U) K.EncryptionPrivateKey
  session_encryption_key seed = step (K.derive_encryption seed none "salt-session-encryption-key-")

  unfoldable pub derive :
      AuthenticatorId U → K.Seed → Bytes → Result (DomainError U) (AuthenticatorKeys U K)
  derive id seed secret_salt = do
    let secret = K.expose_secret seed
    signing ← step (K.derive_signing secret (some secret_salt) "salt-authenticator-signing-key-")
    encryption ←
        step (K.derive_encryption secret (some secret_salt) "salt-authenticator-encryption-key-")
    ok (record { id = id; identity_signing = signing; profile_seed_encryption = encryption })

  unfoldable pub check_lock :
      AuthenticatorKeys U K
      → ProfileAuthenticatorLock U
      → String
      → Result (DomainError U) (Unit {0})
  check_lock keys lock generation =
      if not (id_eq U lock.authenticator_id keys.id)
      then err (no_lock_for_authenticator keys.id)
      else if not (lock.profile_key_generation_id == generation)
      then err (key_generation_mismatch lock.profile_id generation lock.profile_key_generation_id)
      else ok tt

  unfoldable pub from_plaintext : {t : Tier} → Bytes → Result (DomainError U) (ProfileSeed K t)
  from_plaintext plaintext = do
    bytes ← step (K.seed_from_slice plaintext)
    ok (record { bytes = bytes })

  unfoldable pub unlock_storable_profile_seed :
      AuthenticatorKeys U K
      → ProfileAuthenticatorLock U
      → String
      → Result (DomainError U) (ProfileSeed K storable)
  unfolding check_lock from_plaintext
  unlock_storable_profile_seed keys lock generation = do
    _ ← check_lock keys lock generation
    plaintext ← step (K.open_box keys.profile_seed_encryption lock.encrypted_storable_profile_seed)
    from_plaintext plaintext

  unfoldable pub unlock_high_security_profile_seed :
      AuthenticatorKeys U K
      → ProfileAuthenticatorLock U
      → String
      → Result (DomainError U) (ProfileSeed K high_security)
  unfolding check_lock from_plaintext
  unlock_high_security_profile_seed keys lock generation = do
    _ ← check_lock keys lock generation
    plaintext ←
        step (K.open_box keys.profile_seed_encryption lock.encrypted_high_security_profile_seed)
    from_plaintext plaintext

  module _ {t : Tier} where
    unfoldable pub identity_signing_key : ProfileSeed K t → Result (DomainError U) K.SigningKey
    unfolding profile_signing
    identity_signing_key seed =
        step (K.derive_signing (K.expose_secret seed.bytes) none (profile_signing t))

    unfoldable pub vault_key_encryption_key :
        ProfileSeed K t → Result (DomainError U) K.EncryptionPrivateKey
    unfolding profile_vault_key_encryption
    vault_key_encryption_key seed =
        step
          (K.derive_encryption (K.expose_secret seed.bytes) none (profile_vault_key_encryption t))

    unfoldable pub profile_key_encryption_key :
        ProfileSeed K t → Result (DomainError U) K.EncryptionPrivateKey
    unfolding profile_key_encryption
    profile_key_encryption_key seed =
        step (K.derive_encryption (K.expose_secret seed.bytes) none (profile_key_encryption t))

  unfoldable pub check_generation :
      VaultProfileLock U → ProfileId U → String → Result (DomainError U) (Unit {0})
  check_generation lock profile_id generation =
      if lock.locking_profile_key_generation_id == generation
      then ok tt
      else err
          (key_generation_mismatch profile_id generation lock.locking_profile_key_generation_id)

  unfoldable pub unlock_vault :
      ProfileSeed K storable
      → VaultProfileLock U
      → ProfileId U
      → String
      → Result (DomainError U) (VaultSecret K)
  unfolding check_generation vault_key_encryption_key
  unlock_vault seed lock profile_id generation = do
    _ ← check_generation lock profile_id generation
    key ← vault_key_encryption_key seed
    plaintext ← step (K.open_box key lock.encrypted_storable_vault_key)
    secret ← step (K.sym_key_from_slice plaintext)
    ok (record { key = secret })

  unfoldable pub unlock_protected :
      ProfileSeed K high_security
      → VaultProfileLock U
      → ProfileId U
      → String
      → Result (DomainError U) (ProtectedSecret K)
  unfolding check_generation vault_key_encryption_key
  unlock_protected seed lock profile_id generation = do
    _ ← check_generation lock profile_id generation
    key ← vault_key_encryption_key seed
    plaintext ← step (K.open_box key lock.encrypted_high_security_vault_key)
    secret ← step (K.sym_key_from_slice plaintext)
    ok (record { key = secret })
