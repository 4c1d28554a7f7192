-- ===== src/Grpc/Map.antt =====
-- crates/heyl-grpc/src/map.rs: wire messages read as the domain's types. `{:?}` of a text is a parameter.
pub mod Snapshot
pub mod Answers
pub mod Clock
pub mod Readings
pub mod Failures
use heyl.Prelude.{
  ℕ, suc, ◌+◌, ◌-◌, ◌*◌, ◌/◌, ◌%◌, String, Bool, true, false, Option, none, some, List, [], ◌∷◌,
  if◌then◌else◌, ltb, leb, eqb, length, ◌==◌,
}
use heyl.Prelude.Int.{ℤ, pos, negsuc, abs}
use heyl.Prelude.Results.{Result, ok, err, map_err, to_option, ◌>>=◌}
use Prim.Native.String.{◌++◌}
use heyl.Domain.Ids.{Uuids, IdKind, TypedId, ProfileId, parse, show, id_eq}
use heyl.Domain.Time.{Jiff}
use heyl.Domain.Kinds.{
  VaultType, meta, private_vault, team, team_meta, inbox, inbox_meta, organization_personal,
  organization_admin, organization_login_summary, is_supported, AuthenticatorType, push,
  backup_code, backup_os, dummy, session_unlock, webauthn, organization_service, SessionType,
  unspecified, self_unlocking_primary, self_unlocking_secondary, with_backup_os, with_backup_code,
  connected,
}
use heyl.Domain.Sync.{ProfileAuthenticatorLock, VaultProfileLock}
use heyl.Crypto.Boxes.{public_from_slice}
use heyl.App.Error.{ApiError, malformed_response}
use heyl.Grpc.Wire.{
  WireAuthenticatorType, wire_push, wire_backup_code, wire_backup_os, wire_dummy,
  wire_session_unlock, wire_webauthn, wire_organization_service, wire_unknown_authenticator,
  WireVaultType, wire_meta, wire_private, wire_team, wire_team_meta, wire_inbox, wire_inbox_meta,
  wire_organization_personal, wire_organization_admin, wire_organization_login_summary,
  wire_unknown_vault, WireSessionType, wire_unknown, wire_self_unlocking_primary,
  wire_self_unlocking_secondary, wire_with_backup_os, wire_with_backup_code, wire_connected,
  Discriminants, WireTimestamp, WireProfileLock, WireVaultLock,
}

-- `Option::and_then`.
abbrev pub and_then : {A B : Type 0} → Option A → (A → Option B) → Option B
and_then none f = none
and_then (some a) f = f a

abbrev pub is_empty : List ℕ → Bool
is_empty [] = true
is_empty (b ∷ bytes) = false

module _ (U : Uuids) (debug : String → String) {k : IdKind} where
  -- The macro `id!`.
  unfoldable pub required_id : String → (what : String) → Result ApiError (TypedId U k)
  required_id value what =
      map_err (λ e. malformed_response (what ++ " is not a UUID: " ++ debug value)) (parse U value)

  -- The macro `opt_id!`: an empty text is an absent identifier.
  unfoldable pub optional_id : String → (what : String) → Result ApiError (Option (TypedId U k))
  unfolding required_id
  optional_id value what =
      if value == "" then ok none else (do id ← required_id value what; ok (some id))

-- Keys of 32 bytes and signatures of 64; anything else is not published.
unfoldable pub opt_verifying_key : List ℕ → Option (List ℕ)
opt_verifying_key bytes =
    if is_empty bytes then none else if eqb (length bytes) 32 then some bytes else none

unfoldable pub opt_encryption_key : List ℕ → Option (List ℕ)
unfolding public_from_slice
opt_encryption_key bytes = if is_empty bytes then none else to_option (public_from_slice bytes)

unfoldable pub opt_signature : List ℕ → Option (List ℕ)
opt_signature bytes =
    if is_empty bytes then none else if eqb (length bytes) 64 then some bytes else none

-- `div_euclid(1000)` and `rem_euclid(1000)`.
abbrev pub div_euclid_1000 : ℤ → ℤ
div_euclid_1000 (pos n) = pos (n / 1000)
div_euclid_1000 (negsuc n) = negsuc (n / 1000)

abbrev pub rem_euclid_1000 : ℤ → ℕ
rem_euclid_1000 (pos n) = n % 1000
rem_euclid_1000 (negsuc n) = 999 - n % 1000

-- The number -n.
abbrev pub minus : ℕ → ℤ
minus n = if eqb n 0 then pos 0 else negsuc (n - 1)

-- `/ 1_000_000`, which truncates toward zero.
abbrev pub div_million : ℤ → ℤ
div_million (pos n) = pos (n / 1_000_000)
div_million (negsuc n) = minus (abs (negsuc n) / 1_000_000)

abbrev pub times_1000 : ℤ → ℤ
times_1000 (pos n) = pos (n * 1000)
times_1000 (negsuc n) = negsuc (n * 1000 + 999)

infixl 6 ◌+ℤ◌
abbrev pub ◌+ℤ◌ : ℤ → ℤ → ℤ
pos a +ℤ pos b = pos (a + b)
pos a +ℤ negsuc b = if ltb b a then pos (a - (b + 1)) else negsuc (b - a)
negsuc a +ℤ pos b = if ltb a b then pos (b - (a + 1)) else negsuc (a - b)
negsuc a +ℤ negsuc b = negsuc (a + b + 1)

abbrev pub i64_bound : ℕ
i64_bound = 9_223_372_036_854_775_808

-- Whether an `i64` holds the number.
abbrev pub fits_i64 : ℤ → Bool
fits_i64 (pos n) = ltb n i64_bound
fits_i64 (negsuc n) = ltb n i64_bound

unfoldable pub checked : ℤ → Option ℤ
checked i = if fits_i64 i then some i else none

module _ (T : Jiff) where
  unfoldable pub timestamp_to_proto : T.Instant → WireTimestamp
  timestamp_to_proto ts =
      let millis = T.as_millisecond ts in
      record { seconds = div_euclid_1000 millis; nanos = pos (rem_euclid_1000 millis * 1_000_000) }

  unfoldable pub timestamp : WireTimestamp → Option T.Instant
  unfolding checked
  timestamp ts =
      and_then (checked (times_1000 ts.seconds))
        (λ whole. and_then (checked (whole +ℤ div_million ts.nanos)) T.from_millisecond)

module _ (D : Discriminants) where
  domain_authenticator : WireAuthenticatorType → Option AuthenticatorType
  domain_authenticator wire_push = some push
  domain_authenticator wire_backup_code = some backup_code
  domain_authenticator wire_backup_os = some backup_os
  domain_authenticator wire_dummy = some dummy
  domain_authenticator wire_session_unlock = some session_unlock
  domain_authenticator wire_webauthn = some webauthn
  domain_authenticator wire_organization_service = some organization_service
  domain_authenticator wire_unknown_authenticator = none

  unfoldable pub authenticator_type : ℤ → Option AuthenticatorType
  unfolding domain_authenticator
  authenticator_type value = and_then (D.authenticator_of value) domain_authenticator

  domain_vault : WireVaultType → Option VaultType
  domain_vault wire_meta = some meta
  domain_vault wire_private = some private_vault
  domain_vault wire_team = some team
  domain_vault wire_team_meta = some team_meta
  domain_vault wire_inbox = some inbox
  domain_vault wire_inbox_meta = some inbox_meta
  domain_vault wire_organization_personal = some organization_personal
  domain_vault wire_organization_admin = some organization_admin
  domain_vault wire_organization_login_summary = some organization_login_summary
  domain_vault wire_unknown_vault = none

  unfoldable pub vault_type : ℤ → Option VaultType
  unfolding domain_vault
  vault_type value = and_then (D.vault_of value) domain_vault

  unfoldable pub vault_type_is_supported : ℤ → Bool
  unfolding vault_type is_supported
  vault_type_is_supported value = elim (vault_type value) [ none ↦ false | some t ↦ is_supported t ]

unfoldable pub session_type : SessionType → WireSessionType
session_type unspecified = wire_unknown
session_type self_unlocking_primary = wire_self_unlocking_primary
session_type self_unlocking_secondary = wire_self_unlocking_secondary
session_type with_backup_os = wire_with_backup_os
session_type with_backup_code = wire_with_backup_code
session_type connected = wire_connected

module _ (U : Uuids) (debug : String → String) where
  -- A lock that names no profile belongs to the one it came with.
  unfoldable pub stated_profile :
      (owner : ProfileId U) → Option (ProfileId U) → Result ApiError (ProfileId U)
  stated_profile owner none = ok owner
  stated_profile owner (some stated) =
      if id_eq U stated owner
      then ok stated
      else err (
          malformed_response (
            "ProfileAuthenticatorLock.profile_id "
            ++ show U stated
            ++ " does not match the profile "
            ++ show U owner
            ++ " it was sent under"))

  unfoldable pub profile_authenticator_lock :
      WireProfileLock
      → ProfileId U
      → (owner_generation : String) → Result ApiError (ProfileAuthenticatorLock U)
  unfolding optional_id required_id stated_profile
  profile_authenticator_lock lock owner owner_generation = do
    stated ← optional_id U debug lock.profile_id "ProfileAuthenticatorLock.profile_id"
    profile_id ← stated_profile owner stated
    authenticator_id ←
        required_id U debug lock.authenticator_id "ProfileAuthenticatorLock.authenticator_id"
    ok (record {
      authenticator_id = authenticator_id;
      profile_id = profile_id;
      profile_key_generation_id =
          if lock.profile_key_generation_id == ""
          then owner_generation
          else lock.profile_key_generation_id;
      encrypted_storable_profile_seed = lock.encrypted_storable_profile_seed;
      encrypted_high_security_profile_seed = lock.encrypted_high_security_profile_seed;
    })

  unfoldable pub vault_profile_lock : WireVaultLock → Result ApiError (VaultProfileLock U)
  unfolding required_id
  vault_profile_lock lock = do
    locking_profile_id ←
        required_id U debug lock.locking_profile_id "VaultProfileLock.locking_profile_id"
    ok (record {
      locking_profile_id = locking_profile_id;
      locking_profile_key_generation_id = lock.locking_profile_key_generation_id;
      encrypted_storable_vault_key = lock.encrypted_storable_vault_key;
      encrypted_high_security_vault_key = lock.encrypted_high_security_vault_key;
      encrypted_vault_message_private_key =
          if is_empty lock.encrypted_vault_message_private_key
          then none
          else some lock.encrypted_vault_message_private_key;
    })
