-- ===== src/App/Unlock.antt =====
-- crates/heyl-app/src/unlock.rs: recovering the seed with a stored token. An action passes the keychain
-- and the backend on, and ends with a value or an error.
pub mod Tokens
pub mod Ensure
use heyl.Prelude.{
  ℕ, String, Bool, true, false, Option, none, some, List, find, if◌then◌else◌, eqb, length,
}
use heyl.Prelude.Trim.{trim}
use heyl.Prelude.Results.{Result, ok, err, ok_or, map_err}
use heyl.Prelude.Results
use heyl.Domain.Ids.{Uuids, AuthenticatorId, id_eq}
use heyl.Domain.Time.{Jiff}
use heyl.Domain.Error.{DomainError}
use heyl.Domain.Keys.{Crypto, AuthenticatorKeys, derive}
use heyl.Domain.Authenticator.{Authenticator}
use heyl.Domain.Sync.{SyncSnapshot}
use heyl.App.Error.{
  AppError, ApiError, PortError, malformed, api, port, domain, unlock_required,
  unlock_undecryptable, unknown_granting_authenticator, no_secret_salt,
}
use heyl.App.Slots.{
  StoredSecret, access_token, session_private_key, SecretKey, default_slot, Slot, slot_key,
}
use heyl.Json.{Json}
use heyl.App.Ports.{Ports}
use heyl.App.Action.{◌>>=◌, pure, World, Action, read_item, write_item, use_token, call}

pub record Unlocked (U : Uuids) (T : Jiff) (K : Crypto) : Type 0 where
  pub sync : SyncSnapshot U T
  pub authenticators : List (Authenticator U)
  pub authenticator_id : AuthenticatorId U
  pub seed : K.Seed
  pub keys : AuthenticatorKeys U K

module _ (U : Uuids) where
  unfoldable pub secret_salt :
      List (Authenticator U) → AuthenticatorId U → Result (AppError U) (List ℕ)
  secret_salt authenticators id = elim (find (λ a. id_eq U a.id id) authenticators) [
    | none ↦ err (unknown_granting_authenticator id)
    | some a ↦ ok_or (no_secret_salt id) a.secret_salt
  ]

module _ {U : Uuids} {T : Jiff} {K : Crypto} {J : Json} (P : Ports U T K J) where
  -- 32 bytes in base64.
  unfoldable pub decode_key : String → Result PortError K.EncryptionPrivateKey
  decode_key encoded = elim (P.base64.standard_decode (trim encoded)) [
    | none ↦ err (malformed "session_priv_key")
    | some bytes ↦
        if eqb (length bytes) 32
        then ok (K.key_from_bytes bytes)
        else err (malformed "session_priv_key")
  ]

  -- A token that is due is replaced, and the account is fetched again.
  unfoldable pub refresh_if_needed : SyncSnapshot U T → Action P (SyncSnapshot U T)
  unfolding call write_item use_token
  refresh_if_needed sync =
      if sync.token_refresh_needed
      then (do
        refreshed ← call P P.api.refresh_token
        _ ← write_item P (default_slot access_token) refreshed
        _ ← use_token P refreshed
        call P P.api.sync)
      else pure (ok sync)

  unfoldable pub open_grant : K.EncryptionPrivateKey → SyncSnapshot U T → Action P (Unlocked U T K)
  unfolding call
  open_grant session_key sync = do
    grant ← pure (ok_or unlock_required sync.session_unlock)
    plaintext ←
        pure (map_err (λ _. unlock_undecryptable) (K.open_box session_key grant.encrypted_secret))
    seed ← pure (map_err (λ _. unlock_undecryptable) (K.seed_from_slice plaintext))
    authenticators ← call P P.api.list_authenticators
    salt ← pure (secret_salt U authenticators grant.authenticator_id)
    keys ← pure (map_err domain (derive U K grant.authenticator_id seed salt))
    pure (
        ok (record {
          sync = sync;
          authenticators = authenticators;
          authenticator_id = grant.authenticator_id;
          seed = seed;
          keys = keys;
        }))

  unfoldable pub run_in :
      (token_key private_key : StoredSecret → SecretKey) → Action P (Unlocked U T K)
  unfolding read_item use_token call decode_key refresh_if_needed open_grant
  run_in token_key private_key = do
    token ← read_item P (token_key access_token)
    encoded ← read_item P (private_key session_private_key)
    session_key ← pure (map_err port (decode_key encoded))
    _ ← use_token P token
    sync ← call P P.api.sync
    sync ← refresh_if_needed sync
    open_grant session_key sync

  unfoldable pub run : Action P (Unlocked U T K)
  unfolding run_in
  run = run_in default_slot default_slot

  unfoldable pub run_for : Slot → Action P (Unlocked U T K)
  unfolding run_in
  run_for slot = run_in (λ _. slot_key slot access_token) (λ _. slot_key slot session_private_key)
