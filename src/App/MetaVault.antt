-- ===== src/App/MetaVault.antt =====
-- crates/heyl-app/src/meta_vault.rs: the META vault, opened for reading and writing.
use heyl.Prelude.{Bool, true, false, Option, none, some, List, map, keep, find, get_last?}
use heyl.Prelude.Results.{ok, ok_or, map_err}
use heyl.Json.{Json}
use heyl.Domain.Ids.{Uuids, ProfileId, VaultId, CommitId}
use heyl.Domain.Time.{Jiff}
use heyl.Domain.Error.{DomainError}
use heyl.Domain.Kinds.{VaultType, meta}
use heyl.Domain.Keys.{Crypto, VaultSecret, unlock_storable_profile_seed, unlock_vault}
use heyl.Domain.Sync.{SyncSnapshot, VaultCommits, profile, lock_for}
use heyl.Vault.Document.{VaultError, Document, encode}
use heyl.Vault.Merge.{fold}
use heyl.App.Error.{no_meta_vault, vault, vault_content}
use heyl.App.Ports.{Ports, nonce}
use heyl.App.Action.{◌>>=◌, pure, Action, call, outside, look}
use heyl.App.Unlock.{Unlocked}
use heyl.App.Get.Vaults.{read_commits, vault_err}

unfoldable pub is_meta : VaultType → Bool
is_meta meta = true
is_meta _ = false

-- A decrypted META vault. The commit that it came from guards the write.
pub record MetaVault (U : Uuids) (K : Crypto) (J : Json) : Type 0 where
  pub id : VaultId U
  pub document : Document J
  pub latest_commit : CommitId U
  pub key : K.SymKey

unfoldable pub is_some : {A : Type 0} → Option A → Bool
is_some none = false
is_some (some a) = true

-- Which profiles this authenticator can open.
unfoldable pub unlockable_profiles :
    {U : Uuids} {T : Jiff} {K : Crypto} → SyncSnapshot U T → Unlocked U T K → List (ProfileId U)
unfolding is_some
unlockable_profiles sync session =
    map (λ p. p.id) (keep (λ p. is_some (lock_for p session.authenticator_id)) sync.profiles)

module _ {U : Uuids} {T : Jiff} {K : Crypto} {J : Json} (P : Ports U T K J) where
  -- The secret of the vault, through the storable tier.
  unfoldable pub meta_secret :
      Unlocked U T K → VaultId U → VaultCommits U → Action P (VaultSecret K)
  unfolding vault_err
  meta_secret session id commits = do
    lock ← pure (
        ok_or (vault_err J P.codec U T K id "the backend returned no profile lock")
          commits.profile_lock)
    found ← pure (
        ok_or (vault_err J P.codec U T K id "locking profile is not in the sync snapshot")
          (profile session.sync lock.locking_profile_id))
    profile_lock ← pure (
        ok_or (vault_err J P.codec U T K id "no lock for our authenticator")
          (lock_for found session.authenticator_id))
    storable ← pure (
        map_err (λ (e : DomainError U). vault id e)
          (unlock_storable_profile_seed U K session.keys profile_lock found.key_generation_id))
    pure (
        map_err (λ (e : DomainError U). vault id e)
          (unlock_vault U K storable lock found.id found.key_generation_id))

  -- The commits are deltas: the document is all of them, folded.
  unfoldable pub open_meta : Unlocked U T K → Action P (MetaVault U K J)
  unfolding is_meta call meta_secret vault_err
  open_meta session = do
    summary ← pure (ok_or no_meta_vault (find (λ v. is_meta v.vault_type) session.sync.vaults))
    commits ← call P (P.api.list_commits summary.id)
    secret ← meta_secret session summary.id commits
    latest ← pure (
        ok_or (vault_err J P.codec U T K summary.id "the META vault has no commits")
          (get_last? commits.commits))
    documents ← pure (read_commits J P.codec U T K summary.id secret commits.commits)
    document ← pure (map_err (λ (e : VaultError). vault_content summary.id e) (fold J documents))
    pure (
        ok (record {
          id = summary.id;
          document = document;
          latest_commit = latest.id;
          key = secret.key;
        }))

  -- The edited document, sealed and committed on top of the commit that was read.
  unfoldable pub commit : MetaVault U K J → Action P (CommitId U)
  unfolding call outside look nonce
  commit edited = do
    blob ←
        pure (
          map_err (λ (e : VaultError). vault_content edited.id e)
            (encode J P.codec edited.document))
    drawn ← outside P (nonce P)
    now ← look P P.clock.now
    call P (
        P.api.create_commit edited.id edited.latest_commit (K.sym_encrypt edited.key drawn blob)
          now)
