-- ===== src/App/Doctor/Vaults.antt =====
-- crates/heyl-app/src/doctor.rs: every vault, and the walk as a whole.
pub mod Walk
use heyl.Prelude.{
  ℕ, String, Bool, true, false, not, ◌&&◌, Option, none, some, List, [], ◌∷◌, ◌++◌, any, keep, find,
  get_last?, length, eqb, if◌then◌else◌,
}
use heyl.Prelude
use heyl.Prelude.Decimal.{print}
use heyl.Prelude.Results.{Result, ok, err, ok_or, map_err}
use heyl.Prelude.Results
use heyl.Json.{Json}
use heyl.Domain.Ids.{Uuids, ProfileId, VaultId, show, id_eq}
use heyl.Domain.Time.{Jiff}
use heyl.Domain.Error.{DomainError}
use heyl.Domain.Kinds.{is_supported, debug_vault}
use heyl.Domain.Keys.{
  Crypto, ProfileSeed, storable, high_security, VaultSecret, ProtectedSecret,
  unlock_storable_profile_seed, unlock_high_security_profile_seed, unlock_vault, unlock_protected,
  identity_signing_key, vault_key_encryption_key, profile_key_encryption_key,
}
use heyl.Domain.Authenticator.{AuthenticatorPublicKeys}
use heyl.Domain.Login.{login_signing_key}
use heyl.Domain.Sync.{
  SyncSnapshot, Profile, ProfilePublicKeys, ProfileAuthenticatorLock, VaultSummary, VaultCommits,
  VaultProfileLock, Commit, profile, lock_for,
}
use heyl.Vault.Document.{VaultError, not_a_document, Document, decode, content_keys}
use heyl.Vault.Document
use heyl.App.Error.{AppError, vault, vault_content, crypto_failure, no_unlockable_profile}
use heyl.App.Error.Display.{show_domain, show_error}
use heyl.App.Ports.{Ports}
use heyl.App.Action.{◌>>=◌, when_ok, when, pure, attempt, Action, call}
use heyl.App.Unlock.{Unlocked}
use heyl.App.Unlock
use heyl.App.Get.Vaults.{vault_err}
use Prim.Native.String.{◌++◌ as ◌+++◌}
use heyl.App.Doctor.{pass, fail, skip, Report, bare, with_detail, push}
use heyl.App.Doctor.Links.{check_authenticator_keys, check_profiles}

-- `report.name()` of a document's format.
unfoldable pub describe : {J : Json} → Document J → String
unfolding content_keys Document.name
describe {J} document =
    "both tiers unwrapped; commit decrypted ("
    +++ Document.name document.format
    +++ ", "
    +++ document.document_type
    +++ ", descriptor v"
    +++ print document.version
    +++ ", "
    +++ print (content_keys J document)
    +++ " content keys)"

module _ {U : Uuids} {T : Jiff} {K : Crypto} {J : Json} (P : Ports U T K J) where
  -- The newest commit, decrypted and decoded.
  unfoldable pub check_commit :
      VaultId U → VaultSecret K → Option (Commit U) → Result (AppError U) String
  unfolding describe
  check_commit id secret none = ok "both tiers unwrapped; vault has no commits to decrypt"
  check_commit id secret (some commit) =
      Results.◌>>=◌ (map_err crypto_failure (K.sym_decrypt secret.key commit.blob)) (λ plaintext.
        Results.◌>>=◌
          (map_err (λ (e : VaultError). vault_content id e) (decode J P.codec plaintext))
          (λ document. ok (describe document)))

  -- The profile that locks the vault, and its lock for our authenticator.
  unfoldable pub locking_profile :
      Unlocked U T K
      → VaultId U
      → List (ProfileId U)
      → VaultProfileLock U
      → Action P (Profile U × ProfileAuthenticatorLock U)
  unfolding vault_err
  locking_profile session id unlockable lock = do
    _ ← pure (
        if any (λ p. id_eq U p lock.locking_profile_id) unlockable
        then ok tt
        else err (vault_err J P.codec U T K id "locked to a profile we cannot unlock from"))
    found ← pure (
        ok_or (vault_err J P.codec U T K id "locking profile is not in the sync snapshot")
          (profile session.sync lock.locking_profile_id))
    profile_lock ← pure (
        ok_or (vault_err J P.codec U T K id "locking profile has no lock for our authenticator")
          (lock_for found session.authenticator_id))
    pure (ok (found, profile_lock))

  unfoldable pub open_vault : Unlocked U T K → VaultSummary U → List (ProfileId U) → Action P String
  unfolding call vault_err locking_profile check_commit
  open_vault session summary unlockable = do
    let failed : DomainError U → AppError U = λ e. vault summary.id e
    commits ← call P (P.api.list_commits summary.id)
    lock ← pure (
        ok_or (vault_err J P.codec U T K summary.id "the backend returned no profile lock")
          commits.profile_lock)
    locks ← locking_profile session summary.id unlockable lock
    let found = locks.0
    low ← pure (
        map_err failed
          (unlock_storable_profile_seed U K session.keys locks.1 found.key_generation_id))
    high ← pure (
        map_err failed
          (unlock_high_security_profile_seed U K session.keys locks.1 found.key_generation_id))
    secret ← pure (map_err failed (unlock_vault U K low lock found.id found.key_generation_id))
    _ ← pure (map_err failed (unlock_protected U K high lock found.id found.key_generation_id))
    pure (check_commit summary.id secret (get_last? commits.commits))

  unfoldable pub vault_name : VaultSummary U → String
  unfolding debug_vault
  vault_name v = "vault " +++ show U v.id +++ " (" +++ debug_vault v.vault_type +++ ")"

  -- One vault: a failure is a line of the report.
  unfoldable pub check_vault :
      Report → Unlocked U T K → VaultSummary U → List (ProfileId U) → Action P Report
  unfolding is_supported vault_name push with_detail attempt open_vault
  check_vault report session v unlockable =
      when (is_supported v.vault_type)
        (do
          outcome ← attempt (open_vault session v unlockable)
          when_ok outcome
              (λ detail. pure (ok (push report (with_detail (vault_name v) pass detail))))
              (λ e.
                pure (ok (push report (with_detail (vault_name v) fail (show_error P.debug e))))))
        (pure (
          ok (
            push report
              (with_detail (vault_name v) skip "organisation-side schema, out of scope for v1"))))

  unfoldable pub check_vaults :
      Report → Unlocked U T K → List (VaultSummary U) → List (ProfileId U) → Action P Report
  unfolding check_vault
  check_vaults report session [] unlockable = pure (ok report)
  check_vaults report session (v ∷ vs) unlockable = do
    report ← check_vault report session v unlockable
    check_vaults report session vs unlockable

  unfoldable pub run_with : Unlocked U T K → Action P Report
  unfolding push with_detail check_authenticator_keys check_profiles check_vaults
  run_with session = do
    let report = push [] (
        with_detail "session · unlock grant" pass
          ("seed recovered from authenticator " +++ show U session.authenticator_id))
    let report = check_authenticator_keys report session
    walked ← pure (check_profiles report session)
    check_vaults walked.0 session session.sync.vaults walked.1

  unfoldable pub run : Action P Report
  unfolding run_with Unlock.run
  run = do session ← Unlock.run P; run_with session
