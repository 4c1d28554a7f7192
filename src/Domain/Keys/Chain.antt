-- ===== src/Domain/Keys/Chain.antt =====
-- The checks before any decryption, and what a seed or a secret is opened from.
use heyl.Prelude.{◌≡◌, ◌≢◌, String, true, false, arith, ◌==◌, eq_iff, Bool-cases, inl, inr}
use heyl.Prelude.Results.{ok, err, >>=-eq-ok}
use heyl.Domain.Ids.{Uuids, ProfileId, id_eq, id_eq_refl, id_eq_sound}
use heyl.Domain.Error.{key_generation_mismatch}
use heyl.Domain.Sync.{ProfileAuthenticatorLock, VaultProfileLock}
use heyl.Domain.Keys.{
  Crypto, AuthenticatorKeys, ProfileSeed, storable, high_security, check_lock,
  unlock_storable_profile_seed, unlock_high_security_profile_seed, check_generation, unlock_vault,
  unlock_protected,
}

different : {a b : String} → a ≢ b → a == b ≡ false
different {a} {b} d = ground (arith, eq_iff a b)

module _ (U : Uuids) (K : Crypto) where
  checked :
      (keys : AuthenticatorKeys U K) (lock : ProfileAuthenticatorLock U) (generation : String)
      {u : Unit {0}}
      → check_lock U K keys lock generation ≡ ok u
      → (lock.authenticator_id ≡ keys.id) × (lock.profile_key_generation_id ≡ generation)
  unfolding check_lock
  checked keys lock generation h = elim (Bool-cases (id_eq U lock.authenticator_id keys.id)) [
    | inr f ↦ let r = (rw (check_lock, f) at h) in ground arith
    | inl e ↦ elim (Bool-cases (lock.profile_key_generation_id == generation)) [
      | inr f ↦ let r = (rw (check_lock, e, f) at h) in ground arith
      | inl g ↦ (
        id_eq_sound U lock.authenticator_id keys.id e,
        (eq_iff lock.profile_key_generation_id generation).0 g,
      )
    ]
  ]

  -- A lock written at another generation of the profile is refused before anything is decrypted, by
  -- both tiers and with the two generations in the error.
  stale_profile_lock :
      (keys : AuthenticatorKeys U K) (lock : ProfileAuthenticatorLock U) (generation : String)
      → lock.authenticator_id ≡ keys.id
      → lock.profile_key_generation_id ≢ generation
      → (unlock_storable_profile_seed U K keys lock generation
          ≡ err (key_generation_mismatch lock.profile_id generation lock.profile_key_generation_id))
        × (unlock_high_security_profile_seed U K keys lock generation
            ≡ err
                (key_generation_mismatch lock.profile_id generation lock.profile_key_generation_id))
  unfolding unlock_storable_profile_seed unlock_high_security_profile_seed check_lock
  stale_profile_lock keys lock generation a g =
      let same : id_eq U lock.authenticator_id keys.id ≡ true = rw a (id_eq_refl U keys.id) in
      let stale : lock.profile_key_generation_id == generation ≡ false = different g in
      (rw (same, stale), rw (same, stale))

  -- A seed of either tier is only had with the authenticator of the lock and at its generation.
  pub unlock_profile_seed-checks :
      (keys : AuthenticatorKeys U K) (lock : ProfileAuthenticatorLock U) (generation : String)
      → ((seed : ProfileSeed K storable)
          → unlock_storable_profile_seed U K keys lock generation ≡ ok seed
          → (lock.authenticator_id ≡ keys.id) × (lock.profile_key_generation_id ≡ generation))
        × ((seed : ProfileSeed K high_security)
            → unlock_high_security_profile_seed U K keys lock generation ≡ ok seed
            → (lock.authenticator_id ≡ keys.id) × (lock.profile_key_generation_id ≡ generation))
  unfolding unlock_storable_profile_seed unlock_high_security_profile_seed
  unlock_profile_seed-checks keys lock generation = (
    λ seed h. checked keys lock generation (>>=-eq-ok (check_lock U K keys lock generation) _ h).1,
    λ seed h. checked keys lock generation (>>=-eq-ok (check_lock U K keys lock generation) _ h).1,
  )

  -- A vault lock written at another generation is refused before any key is derived, by both tiers.
  stale_vault_lock :
      (low : ProfileSeed K storable) (high : ProfileSeed K high_security)
      (lock : VaultProfileLock U) (profile_id : ProfileId U) (generation : String)
      → lock.locking_profile_key_generation_id ≢ generation
      → (unlock_vault U K low lock profile_id generation
          ≡ err (
              key_generation_mismatch profile_id generation lock.locking_profile_key_generation_id))
        × (unlock_protected U K high lock profile_id generation
            ≡ err (
                key_generation_mismatch profile_id generation
                  lock.locking_profile_key_generation_id))
  unfolding unlock_vault unlock_protected check_generation
  stale_vault_lock low high lock profile_id generation g =
      let stale : lock.locking_profile_key_generation_id == generation ≡ false = different g in
      (rw stale, rw stale)
