-- ===== src/App/Get/Vaults/Opening.antt =====
-- What an opened vault rests on.
use heyl.Prelude.{ℕ, subst, ◌≡◌, refl, sym, ap, ◌∙◌, List, [], ◌∷◌, ◌⊎◌, inl, inr, some}
use heyl.Prelude.Results.{Result, ok, ok_or, map_err, >>=-eq-ok, map_err-eq-ok, ok_or-eq-ok, ok_inj}
use heyl.Json.{Json}
use heyl.Domain.Ids.{Uuids, AuthenticatorId, VaultId}
use heyl.Domain.Time.{Jiff}
use heyl.Domain.Error.{DomainError}
use heyl.Domain.Keys.{
  Crypto, AuthenticatorKeys, VaultSecret, ProtectedSecret, ProfileSeed, storable, high_security,
  unlock_storable_profile_seed, unlock_high_security_profile_seed, unlock_vault, unlock_protected,
}
use heyl.Domain.Sync.{
  SyncSnapshot, VaultSummary, VaultCommits, VaultProfileLock, Profile, ProfileAuthenticatorLock,
  Commit, profile, lock_for,
}
use heyl.Vault.Document.{Codec, Document, decode, empty_document}
use heyl.Vault.Merge.{fold}
use heyl.App.Error.{AppError, ApiError, api, vault, vault_content, crypto_failure}
use heyl.App.Get.Vaults.{
  read_commit, read_commits, fold_documents, find_locks, unlock_secrets, read_document, open_vault,
}

module _ (J : Json) (C : Codec J) (U : Uuids) (T : Jiff) (K : Crypto) where
  -- The documents are what the blobs of the commits decrypt and decode to, in the same order.
  abbrev pub AreDecoded : VaultSecret K → List (Commit U) → List (Document J) → Type 0
  AreDecoded secret [] [] = Unit
  AreDecoded secret [] (d ∷ ds) = ⊥
  AreDecoded secret (c ∷ cs) [] = ⊥
  AreDecoded secret (c ∷ cs) (d ∷ ds) =
      ((plaintext : List ℕ) × (K.sym_decrypt secret.key c.blob ≡ ok plaintext)
        × (decode J C plaintext ≡ ok d))
      × AreDecoded secret cs ds

  read_commits-AreDecoded :
      (id : VaultId U) (secret : VaultSecret K) (commits : List (Commit U))
      (documents : List (Document J))
      → read_commits J C U T K id secret commits ≡ ok documents
      → AreDecoded secret commits documents
  unfolding read_commits read_commit
  read_commits-AreDecoded id secret [] documents h = subst (AreDecoded secret []) (ok_inj h) tt
  read_commits-AreDecoded id secret (c ∷ cs) documents h =
      let (d, r, k) = >>=-eq-ok (read_commit J C U T K id secret c) _ h in
      let (ds, rs, m) = >>=-eq-ok (read_commits J C U T K id secret cs) _ k in
      let (plaintext, p, q) =
        >>=-eq-ok (map_err crypto_failure (K.sym_decrypt secret.key c.blob)) _ r in
      subst (AreDecoded secret (c ∷ cs)) (ok_inj m) (
        (plaintext, map_err-eq-ok crypto_failure _ p, map_err-eq-ok (λ e. vault_content id e) _ q),
        read_commits-AreDecoded id secret cs ds rs,
      )

  folded :
      (id : VaultId U) (documents : List (Document J)) (document : Document J)
      → fold_documents J C U T K id documents ≡ ok document
      → ((documents ≡ []) × (document ≡ empty_document J)) ⊎ (fold J documents ≡ ok document)
  unfolding fold_documents
  folded id [] document h = inl (refl, sym (ok_inj h))
  folded id (d ∷ ds) document h = inr (map_err-eq-ok (λ e. vault_content id e) _ h)

  module _ (sync : SyncSnapshot U T) (authenticator_id : AuthenticatorId U)
      (keys : AuthenticatorKeys U K)
      (list_commits : VaultId U → Result ApiError (VaultCommits U)) where
    find_locks-ok :
        (id : VaultId U) (lock : VaultProfileLock U) (found : Profile U)
        (profile_lock : ProfileAuthenticatorLock U)
        → find_locks J C U T K sync authenticator_id keys list_commits id lock
          ≡ ok (found, profile_lock)
        → (profile sync lock.locking_profile_id ≡ some found)
          × (lock_for found authenticator_id ≡ some profile_lock)
    unfolding find_locks
    find_locks-ok id lock found profile_lock h =
        let (other, f, k) = >>=-eq-ok (ok_or _ (profile sync lock.locking_profile_id)) _ h in
        let (own, p, m) = >>=-eq-ok (ok_or _ (lock_for other authenticator_id)) _ k in
        let both : (other ≡ found) × (own ≡ profile_lock) =
          (ap (λ r. r.0) (ok_inj m), ap (λ r. r.1) (ok_inj m)) in
        (
          ok_or-eq-ok _ _ other f ∙ ap some both.0,
          subst (λ r. lock_for r authenticator_id ≡ some profile_lock) both.0
              (ok_or-eq-ok _ _ own p ∙ ap some both.1),
        )

    -- The two seeds of the profile, and the secrets that they unwrap from the vault's lock.
    abbrev pub AreUnwrapped :
        VaultProfileLock U
        → Profile U
        → ProfileAuthenticatorLock U
        → VaultSecret K
        → ProtectedSecret K
        → Type 0
    AreUnwrapped lock found profile_lock secret protected =
        (low : ProfileSeed K storable) × (high : ProfileSeed K high_security)
        × (unlock_storable_profile_seed U K keys profile_lock found.key_generation_id ≡ ok low)
        × (unlock_high_security_profile_seed U K keys profile_lock found.key_generation_id
            ≡ ok high)
        × (unlock_vault U K low lock found.id found.key_generation_id ≡ ok secret)
        × (unlock_protected U K high lock found.id found.key_generation_id ≡ ok protected)

    unlock_secrets-AreUnwrapped :
        (id : VaultId U) (lock : VaultProfileLock U) (found : Profile U)
        (profile_lock : ProfileAuthenticatorLock U) (secret : VaultSecret K)
        (protected : ProtectedSecret K)
        → unlock_secrets J C U T K sync authenticator_id keys list_commits id lock found
            profile_lock
          ≡ ok (secret, protected)
        → AreUnwrapped lock found profile_lock secret protected
    unfolding unlock_secrets
    unlock_secrets-AreUnwrapped id lock found profile_lock secret protected h =
        let failed : DomainError U → AppError U = λ e. vault id e in
        let (low, l, k) =
          >>=-eq-ok
            (map_err failed
              (unlock_storable_profile_seed U K keys profile_lock found.key_generation_id))
            _ h in
        let (high, g, k) =
          >>=-eq-ok
            (map_err failed
              (unlock_high_security_profile_seed U K keys profile_lock found.key_generation_id))
            _ k in
        let (s, u, k) =
          >>=-eq-ok (map_err failed (unlock_vault U K low lock found.id found.key_generation_id)) _
            k in
        let (p, v, k) =
          >>=-eq-ok
            (map_err failed (unlock_protected U K high lock found.id found.key_generation_id)) _
            k in
        (
          low,
          high,
          map_err-eq-ok failed _ l,
          map_err-eq-ok failed _ g,
          map_err-eq-ok failed _ u ∙ ap ok (ap (λ r. r.0) (ok_inj k)),
          map_err-eq-ok failed _ v ∙ ap ok (ap (λ r. r.1) (ok_inj k)),
        )

    read_document-AreDecoded :
        (id : VaultId U) (secret : VaultSecret K) (commits : List (Commit U))
        (document : Document J)
        → read_document J C U T K sync authenticator_id keys list_commits id secret commits
          ≡ ok document
        → (documents : List (Document J)) × AreDecoded secret commits documents
          × (((documents ≡ []) × (document ≡ empty_document J)) ⊎ (fold J documents ≡ ok document))
    unfolding read_document
    read_document-AreDecoded id secret commits document h =
        let (documents, r, k) = >>=-eq-ok (read_commits J C U T K id secret commits) _ h in
        (
          documents,
          read_commits-AreDecoded id secret commits documents r,
          folded id documents document k,
        )

    -- A vault that opens has a lock for our authenticator in its locking profile. Its document is the
    -- fold of all its commits, or empty where it has none, decrypted with the vault's secret, which the
    -- storable seed of that profile unwraps; the protected secret is what the high-security seed unwraps.
    pub open_vault-fold :
        (summary : VaultSummary U) (document : Document J) (protected : ProtectedSecret K)
        → open_vault J C U T K sync authenticator_id keys list_commits summary
          ≡ ok (document, protected)
        → (commits : VaultCommits U) × (lock : VaultProfileLock U) × (found : Profile U)
          × (profile_lock : ProfileAuthenticatorLock U) × (secret : VaultSecret K)
          × (documents : List (Document J)) × (list_commits summary.id ≡ ok commits)
          × (commits.profile_lock ≡ some lock)
          × (profile sync lock.locking_profile_id ≡ some found)
          × (lock_for found authenticator_id ≡ some profile_lock)
          × AreUnwrapped lock found profile_lock secret protected
          × AreDecoded secret commits.commits documents
          × (((documents ≡ []) × (document ≡ empty_document J)) ⊎ (fold J documents ≡ ok document))
    unfolding open_vault
    open_vault-fold summary document protected h =
        let (commits, c, k) = >>=-eq-ok (map_err api (list_commits summary.id)) _ h in
        let (lock, l, k) = >>=-eq-ok (ok_or _ commits.profile_lock) _ k in
        let (locks, p, k) =
          >>=-eq-ok (find_locks J C U T K sync authenticator_id keys list_commits summary.id lock) _
            k in
        let (secrets, s, k) =
          >>=-eq-ok
            (unlock_secrets J C U T K sync authenticator_id keys list_commits summary.id lock
              locks.0 locks.1)
            _ k in
        let (result, d, k) =
          >>=-eq-ok
            (read_document J C U T K sync authenticator_id keys list_commits summary.id secrets.0
              commits.commits)
            _ k in
        let found = find_locks-ok summary.id lock locks.0 locks.1 p in
        let read =
          read_document-AreDecoded summary.id secrets.0 commits.commits document
            (d ∙ ap ok (ap (λ r. r.0) (ok_inj k))) in
        (
          commits,
          lock,
          locks.0,
          locks.1,
          secrets.0,
          read.0,
          map_err-eq-ok api _ c,
          ok_or-eq-ok _ _ _ l,
          found.0,
          found.1,
          unlock_secrets-AreUnwrapped summary.id lock locks.0 locks.1 secrets.0 protected
              (s ∙ ap ok (ap (λ p. (secrets.0, p)) (ap (λ r. r.1) (ok_inj k)))),
          read.1,
          read.2,
        )
