-- ===== src/App/Get/Vaults.antt =====
-- crates/heyl-app/src/get.rs: opening a vault, from its locks to its folded document.
pub mod Opening
use heyl.Prelude.{ℕ, String, Option, none, some, List, [], ◌∷◌}
use heyl.Prelude.Results.{Result, ok, err, ok_or, map_err, ◌>>=◌}
use heyl.Json.{Json}
use heyl.Domain.Ids.{Uuids, AuthenticatorId, VaultId}
use heyl.Domain.Time.{Jiff}
use heyl.Domain.Error.{CryptoError, DomainError}
use heyl.Domain.Keys.{
  Crypto, AuthenticatorKeys, VaultSecret, ProtectedSecret, unlock_storable_profile_seed,
  unlock_high_security_profile_seed, unlock_vault, unlock_protected,
}
use heyl.Domain.Sync.{
  SyncSnapshot, VaultSummary, VaultCommits, VaultProfileLock, Profile, ProfileAuthenticatorLock,
  Commit, profile, lock_for,
}
use heyl.Vault.Document.{VaultError, not_a_document, Codec, Document, decode, empty_document}
use heyl.Vault.Merge.{fold}
use heyl.App.Error.{AppError, ApiError, api, vault, vault_content, crypto_failure}
use heyl.App.Get.Fields.{Opener}
use heyl.App.Get.Search.{Opened}

-- The opener of sealed values under the secrets of a vault.
unfoldable pub opener_of :
    (K : Crypto) (base64_decode : String → Option (List ℕ)) (from_utf8_lossy : List ℕ → String)
    → Opener
opener_of K base64_decode from_utf8_lossy = record {
  Key = ProtectedSecret K;
  base64_decode = base64_decode;
  decrypt = λ secret blob. K.sym_decrypt secret.key blob;
  from_utf8_lossy = from_utf8_lossy;
}

module _ (J : Json) (C : Codec J) (U : Uuids) (T : Jiff) (K : Crypto) where
  unfoldable pub vault_err : VaultId U → String → AppError U
  vault_err id what = vault_content id (not_a_document what)

  -- One commit: decrypted and decoded.
  unfoldable pub read_commit :
      VaultId U → VaultSecret K → Commit U → Result (AppError U) (Document J)
  read_commit id secret commit = do
    plaintext ← map_err crypto_failure (K.sym_decrypt secret.key commit.blob)
    map_err (λ e. vault_content id e) (decode J C plaintext)

  unfoldable pub read_commits :
      VaultId U → VaultSecret K → List (Commit U) → Result (AppError U) (List (Document J))
  unfolding read_commit
  read_commits id secret [] = ok []
  read_commits id secret (commit ∷ rest) = do
    document ← read_commit id secret commit
    documents ← read_commits id secret rest
    ok (document ∷ documents)

  -- A vault without commits is an empty document.
  unfoldable pub fold_documents : VaultId U → List (Document J) → Result (AppError U) (Document J)
  fold_documents id [] = ok (empty_document J)
  fold_documents id (d ∷ ds) = map_err (λ e. vault_content id e) (fold J (d ∷ ds))

  module _ (sync : SyncSnapshot U T) (authenticator_id : AuthenticatorId U)
      (keys : AuthenticatorKeys U K)
      (list_commits : VaultId U → Result ApiError (VaultCommits U)) where
    -- The profile that locks the vault, and its lock for our authenticator.
    unfoldable pub find_locks :
        VaultId U
        → VaultProfileLock U
        → Result (AppError U) (Profile U × ProfileAuthenticatorLock U)
    unfolding vault_err
    find_locks id lock = do
      found ←
          ok_or (vault_err id "locking profile is not in the sync snapshot")
            (profile sync lock.locking_profile_id)
      profile_lock ←
          ok_or (vault_err id "no lock for our authenticator") (lock_for found authenticator_id)
      ok (found, profile_lock)

    -- The secrets of both tiers.
    unfoldable pub unlock_secrets :
        VaultId U
        → VaultProfileLock U
        → Profile U
        → ProfileAuthenticatorLock U
        → Result (AppError U) (VaultSecret K × ProtectedSecret K)
    unlock_secrets id lock found profile_lock = do
      let failed : DomainError U → AppError U = λ e. vault id e
      low ←
          map_err failed
            (unlock_storable_profile_seed U K keys profile_lock found.key_generation_id)
      high ←
          map_err failed
            (unlock_high_security_profile_seed U K keys profile_lock found.key_generation_id)
      secret ← map_err failed (unlock_vault U K low lock found.id found.key_generation_id)
      protected ← map_err failed (unlock_protected U K high lock found.id found.key_generation_id)
      ok (secret, protected)

    unfoldable pub read_document :
        VaultId U → VaultSecret K → List (Commit U) → Result (AppError U) (Document J)
    unfolding read_commits fold_documents
    read_document id secret commits = do
      documents ← read_commits id secret commits
      fold_documents id documents

    -- The document and the protected secret of a vault.
    unfoldable pub open_vault :
        VaultSummary U → Result (AppError U) (Document J × ProtectedSecret K)
    unfolding find_locks unlock_secrets read_document vault_err
    open_vault summary = do
      commits ← map_err api (list_commits summary.id)
      lock ←
          ok_or (vault_err summary.id "the backend returned no profile lock") commits.profile_lock
      locks ← find_locks summary.id lock
      secrets ← unlock_secrets summary.id lock locks.0 locks.1
      document ← read_document summary.id secrets.0 commits.commits
      ok (document, secrets.1)

    -- The same, as the search takes it.
    unfoldable pub opened_vault :
        (base64_decode : String → Option (List ℕ)) (from_utf8_lossy : List ℕ → String)
        → VaultSummary U
        → Result (AppError U) (Opened J (opener_of K base64_decode from_utf8_lossy))
    unfolding open_vault opener_of
    opened_vault base64_decode from_utf8_lossy summary = do
      found ← open_vault summary
      ok (record { document = found.0; protected = found.1 })
