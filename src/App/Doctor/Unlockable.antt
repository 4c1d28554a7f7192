-- ===== src/App/Doctor/Unlockable.antt =====
-- crates/heyl-app/src/doctor.rs: which profiles the session can unlock.
use heyl.Prelude.{
  ◌≡◌, ◌⊎◌, refl, ap, some, inl, inr, List, [], ◌∷◌, ◌++◌, All, In, Option-cases, subst,
}
use heyl.Prelude.Results.{ok, err, Result-cases}
use heyl.Domain.Ids.{Uuids, ProfileId}
use heyl.Domain.Time.{Jiff}
use heyl.Domain.Error.{DomainError}
use heyl.Domain.Keys.{
  Crypto, ProfileSeed, storable, high_security, unlock_storable_profile_seed,
  unlock_high_security_profile_seed,
}
use heyl.Domain.Sync.{Profile, ProfileAuthenticatorLock, lock_for}
use heyl.App.Error.{no_unlockable_profile}
use heyl.App.Unlock.{Unlocked}
use heyl.App.Doctor.{Report}
use heyl.App.Doctor.Links.{unwrap_both, check_profile, walk_profiles, some_profile, check_profiles}

module _ {U : Uuids} {T : Jiff} {K : Crypto} where
  -- Both seeds of the profile unwrap with a lock.
  abbrev AreUnwrapped :
      Unlocked U T K
      → Profile U
      → ProfileAuthenticatorLock U
      → ProfileSeed K storable × ProfileSeed K high_security
      → Type 0
  AreUnwrapped session p lock seeds =
      (unlock_storable_profile_seed U K session.keys lock p.key_generation_id ≡ ok seeds.0)
      × (unlock_high_security_profile_seed U K session.keys lock p.key_generation_id ≡ ok seeds.1)

  -- The profile has a lock for the session's authenticator, and both its seeds unwrap with it.
  abbrev pub CanUnlock : Unlocked U T K → Profile U → Type 0
  CanUnlock session p =
      (lock : ProfileAuthenticatorLock U) × (lock_for p session.authenticator_id ≡ some lock)
      × (seeds : ProfileSeed K storable × ProfileSeed K high_security) × AreUnwrapped session p lock
          seeds

  unwrap_both-cases :
      (session : Unlocked U T K) (p : Profile U) (lock : ProfileAuthenticatorLock U)
      → ((seeds : ProfileSeed K storable × ProfileSeed K high_security) × (unwrap_both session p
              lock
            ≡ ok seeds)
          × AreUnwrapped session p lock seeds)
        ⊎ ((e : DomainError U) × (unwrap_both session p lock ≡ err e)
            × ((seeds : ProfileSeed K storable × ProfileSeed K high_security)
                → ¬ AreUnwrapped session p lock seeds))
  unfolding unwrap_both
  unwrap_both-cases session p lock =
      elim (Result-cases (unlock_storable_profile_seed U K session.keys lock p.key_generation_id)) [
        | inr (e, f) ↦ inr (e, rw (unwrap_both, f) refl, λ seeds h. (let g = h.0 in cc))
        | inl (low, l) ↦
            elim (Result-cases
              (unlock_high_security_profile_seed U K session.keys lock p.key_generation_id)) [
                | inr (e, f) ↦ inr (e, rw (unwrap_both, l, f) refl, λ seeds h. (let g = h.1 in cc))
                | inl (high, h) ↦ inl ((low, high), rw (unwrap_both, l, h) refl, (l, h))
              ]
      ]

  -- A profile is counted just where the session can unlock it.
  abbrev Counts : Unlocked U T K → Profile U → List (ProfileId U) → Type 0
  Counts session p ids =
      (CanUnlock session p × (ids ≡ p.id ∷ [])) ⊎ ((¬ CanUnlock session p) × (ids ≡ []))

  check_profile-Counts :
      (report : Report) (session : Unlocked U T K) (p : Profile U)
      → Counts session p (check_profile report session p).1
  unfolding check_profile
  check_profile-Counts report session p =
      elim (Option-cases (lock_for p session.authenticator_id)) [
        | inl e ↦ inr (λ can. (let g = can.1 in cc), rw (check_profile, e) refl)
        | inr (lock, e) ↦ elim (unwrap_both-cases session p lock) [
          | inl (seeds, f, h) ↦ inl ((lock, e, seeds, h), rw (check_profile, e, f) refl)
          | inr (why, f, h) ↦ inr (
            λ can.
                let (other, g, seeds, got) = can in
                let same : other ≡ lock = cc in
                h seeds (subst (λ l. AreUnwrapped session p l seeds) same got),
            rw (check_profile, e, f) refl,
          )
        ]
      ]

  -- The walk counts a profile that the session can unlock, or there is none.
  walk_profiles-cases :
      (report : Report) (session : Unlocked U T K) (ps : List (Profile U))
      → (All (λ p. ¬ CanUnlock session p) ps × ((walk_profiles report session ps).1 ≡ []))
        ⊎ ((p : Profile U) × In p ps
            × CanUnlock session p
            × ((id : ProfileId U) × (ids : List (ProfileId U)) × ((walk_profiles report session
                    ps).1
                  ≡ id ∷ ids)))
  unfolding walk_profiles
  walk_profiles-cases report session [] = inl (tt, refl)
  walk_profiles-cases report session (p ∷ ps) =
      let counts = check_profile-Counts report session p in
      let rest = walk_profiles-cases (check_profile report session p).0 session ps in
      let others = (walk_profiles (check_profile report session p).0 session ps).1 in
      elim counts [
        | inl (can, e) ↦ inr (p, inl refl, can, (p.id, others, ap (λ l. l ++ others) e))
        | inr (cannot, e) ↦ elim rest [
          | inl (none_left, f) ↦ inl ((cannot, none_left), rw (e, f) refl)
          | inr (q, among, can, (id, ids, f)) ↦ inr (q, inr among, can, (id, ids, rw (e, f) refl))
        ]
      ]

  pub check_profiles-cases :
      (report : Report) (session : Unlocked U T K)
      → (All (λ p. ¬ CanUnlock session p) session.sync.profiles
          × (check_profiles report session ≡ err (no_unlockable_profile session.authenticator_id)))
        ⊎ ((p : Profile U) × In p session.sync.profiles
            × CanUnlock session p
            × ((walked : Report × List (ProfileId U)) × (check_profiles report session
                  ≡ ok walked)))
  unfolding check_profiles some_profile
  check_profiles-cases report session =
      let walked = walk_profiles report session session.sync.profiles in
      elim (walk_profiles-cases report session session.sync.profiles) [
        | inl (cannot, e) ↦ inl (cannot, ap (λ ids. some_profile session (walked.0, ids)) e)
        | inr (p, among, can, (id, ids, e)) ↦
            inr (p, among, can, (_, ap (λ ids. some_profile session (walked.0, ids)) e))
      ]
