-- ===== src/App/Doctor/Links.antt =====
-- crates/heyl-app/src/doctor.rs: the links from the authenticator to the profiles.
use heyl.Prelude.{none, some, List, [], ◌∷◌, ◌++◌, find}
use heyl.Prelude.Results.{Result, ok, err}
use heyl.Domain.Ids.{Uuids, ProfileId, show, id_eq}
use heyl.Domain.Time.{Jiff}
use heyl.Domain.Error.{DomainError}
use heyl.Domain.Keys.{
  Crypto, ProfileSeed, storable, high_security, unlock_storable_profile_seed,
  unlock_high_security_profile_seed, identity_signing_key, vault_key_encryption_key,
  profile_key_encryption_key,
}
use heyl.Domain.Authenticator.{AuthenticatorPublicKeys}
use heyl.Domain.Login.{login_signing_key}
use heyl.Domain.Sync.{Profile, ProfileAuthenticatorLock, lock_for}
use heyl.App.Error.{AppError, no_unlockable_profile}
use heyl.App.Error.Display.{show_domain}
use heyl.App.Unlock.{Unlocked}
use Prim.Native.String.{◌++◌ as ◌+++◌}
use heyl.App.Doctor.{
  pass, fail, skip, Check, Report, bare, with_detail, compare_keys, push, compare_derived,
}

-- `result.map(f)`.
unfoldable pub map_ok : {E A C : Type 0} → (A → C) → Result E A → Result E C
map_ok f (ok a) = ok (f a)
map_ok f (err e) = err e

module _ {U : Uuids} {K : Crypto} where
  -- Links 3 to 8, each against its published key.
  unfoldable pub check_profile_keys :
      Report → Profile U → ProfileSeed K storable → ProfileSeed K high_security → Report
  unfolding compare_derived map_ok
  check_profile_keys report p low high =
      let published = p.public_keys in
      let id = show U p.id in
      let report =
        compare_derived report ("link 3 · profile " +++ id +++ " storable vault-key encryption")
          (map_ok K.public_key (vault_key_encryption_key U K low))
          published.storable_vault_key_enc in
      let report =
        compare_derived report
          ("link 4 · profile " +++ id +++ " high-security vault-key encryption")
          (map_ok K.public_key (vault_key_encryption_key U K high))
          published.high_security_vault_key_enc in
      let report =
        compare_derived report ("link 5 · profile " +++ id +++ " storable identity signing")
          (map_ok K.verifying_key (identity_signing_key U K low)) published.storable_sig in
      let report =
        compare_derived report ("link 6 · profile " +++ id +++ " high-security identity signing")
          (map_ok K.verifying_key (identity_signing_key U K high))
          published.high_security_identity_sig in
      let report =
        compare_derived report ("link 7 · profile " +++ id +++ " storable profile-key encryption")
          (map_ok K.public_key (profile_key_encryption_key U K low))
          published.storable_profile_seed_enc in
      compare_derived report
        ("link 8 · profile " +++ id +++ " high-security profile-key encryption")
        (map_ok K.public_key (profile_key_encryption_key U K high))
        published.high_security_profile_seed_enc

module _ {U : Uuids} {T : Jiff} {K : Crypto} where
  login_link : Unlocked U T K → AuthenticatorPublicKeys → Check
  unfolding login_signing_key compare_keys with_detail show_domain
  login_link session published = elim (login_signing_key U K session.seed) [
    | ok key ↦
        compare_keys "link 1 · authenticator login signing" (K.verifying_key key)
          published.login_sig
    | err e ↦ with_detail "link 1 · authenticator login signing" fail (show_domain e)
  ]

  -- Links 1 and 2.
  unfoldable pub check_authenticator_keys : Report → Unlocked U T K → Report
  unfolding push bare login_link compare_keys
  check_authenticator_keys report session =
      elim (find (λ a. id_eq U a.id session.authenticator_id) session.authenticators) [
        | none ↦ push report (bare "link 1 · authenticator login signing" skip)
        | some a ↦
            let published = a.public_keys in
            let identity = K.verifying_key session.keys.identity_signing in
            let report = push report (login_link session published) in
            let report = push report (
              compare_keys "link 2 · authenticator identity signing (high-security)" identity
                published.high_security_identity_sig) in
            push report (
              compare_keys "link 2 · authenticator identity signing (storable)" identity
                published.storable_sig)
      ]

  -- Both seeds, or why there are not both.
  unfoldable pub unwrap_both :
      Unlocked U T K
      → Profile U
      → ProfileAuthenticatorLock U
      → Result (DomainError U) (ProfileSeed K storable × ProfileSeed K high_security)
  unwrap_both session p lock =
      elim (unlock_storable_profile_seed U K session.keys lock p.key_generation_id) [
        | err e ↦ err e
        | ok low ↦
            elim (unlock_high_security_profile_seed U K session.keys lock p.key_generation_id) [
              | err e ↦ err e
              | ok high ↦ ok (low, high)
            ]
      ]

  -- One profile: the report, and its id where both seeds unwrap.
  unfoldable pub check_profile : Report → Unlocked U T K → Profile U → Report × List (ProfileId U)
  unfolding push bare with_detail unwrap_both check_profile_keys show_domain
  check_profile report session p = elim (lock_for p session.authenticator_id) [
    | none ↦ (
      push report (
          with_detail ("profile " +++ show U p.id +++ " · authenticator lock") skip
            "no lock for the authenticator that granted our unlock"),
      [],
    )
    | some lock ↦ elim (unwrap_both session p lock) [
      | ok seeds ↦ (
        check_profile_keys
            (push report (bare ("profile " +++ show U p.id +++ " · both seeds unwrapped") pass)) p
            seeds.0 seeds.1,
        p.id ∷ [],
      )
      | err e ↦ (
        push report
            (with_detail ("profile " +++ show U p.id +++ " · seed unwrap") fail (show_domain e)),
        [],
      )
    ]
  ]

  unfoldable pub walk_profiles :
      Report → Unlocked U T K → List (Profile U) → Report × List (ProfileId U)
  unfolding check_profile
  walk_profiles report session [] = (report, [])
  walk_profiles report session (p ∷ ps) =
      let one = check_profile report session p in
      let rest = walk_profiles one.0 session ps in (rest.0, one.1 ++ rest.1)

  unfoldable pub some_profile :
      Unlocked U T K
      → Report × List (ProfileId U)
      → Result (AppError U) (Report × List (ProfileId U))
  some_profile session (report, []) = err (no_unlockable_profile session.authenticator_id)
  some_profile session (report, id ∷ ids) = ok (report, id ∷ ids)

  unfoldable pub check_profiles :
      Report → Unlocked U T K → Result (AppError U) (Report × List (ProfileId U))
  unfolding walk_profiles some_profile
  check_profiles report session =
      some_profile session (walk_profiles report session session.sync.profiles)
