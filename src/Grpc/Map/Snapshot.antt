-- ===== src/Grpc/Map/Snapshot.antt =====
-- crates/heyl-grpc/src/map.rs: the backend's view of the account, read out of `SyncUpdate`.
use heyl.Prelude.{String, Option, none, some, List, [], ◌∷◌, map, if◌then◌else◌, ◌==◌}
use heyl.Prelude.Results.{Result, ok, ◌>>=◌}
use heyl.Domain.Ids.{Uuids}
use heyl.Domain.Time.{Jiff}
use heyl.Domain.Sync.{Profile, VaultSummary, Session, SessionUnlock, SyncSnapshot, Organization}
use heyl.App.Error.{ApiError}
use heyl.Grpc.Wire.{
  Discriminants, WireProfile, WireVault, WireSession, WireUnlock, WireOrganization, SyncUpdate,
}
use heyl.Grpc.Map.{
  and_then, required_id, optional_id, opt_verifying_key, opt_encryption_key, opt_signature,
  timestamp, vault_type, profile_authenticator_lock,
}

module _ {E A B : Type 0} where
  -- `map(f).collect::<Result<_, _>>()`, which stops at the first failure.
  unfoldable pub collect : (A → Result E B) → List A → Result E (List B)
  collect f [] = ok []
  collect f (x ∷ xs) = do b ← f x; rest ← collect f xs; ok (b ∷ rest)

  -- The same over `filter_map(|x| f(x).transpose())`.
  unfoldable pub collect_some : (A → Result E (Option B)) → List A → Result E (List B)
  collect_some f [] = ok []
  collect_some f (x ∷ xs) = do
    o ← f x
    rest ← collect_some f xs
    ok (elim o [ none ↦ rest | some b ↦ b ∷ rest ])

  -- `let Some(kind) = ... else { return Ok(None) }`.
  abbrev pub or_dropped : Option A → (A → Result E (Option B)) → Result E (Option B)
  or_dropped none f = ok none
  or_dropped (some a) f = f a

  -- `as_ref().map(f).transpose()`.
  unfoldable pub transpose : (A → Result E B) → Option A → Result E (Option B)
  transpose f none = ok none
  transpose f (some a) = do b ← f a; ok (some b)

module _ (U : Uuids) (debug : String → String) where
  unfoldable pub profile : WireProfile → Result ApiError (Profile U)
  unfolding required_id collect profile_authenticator_lock opt_verifying_key opt_encryption_key
      opt_signature
  profile p = do
    id ← required_id U debug p.id "SyncUpdateProfile.id"
    authenticator_locks ←
        collect (λ l. profile_authenticator_lock U debug l id p.key_generation_id)
          p.authenticator_locks
    ok (record {
      id = id;
      key_generation_id = p.key_generation_id;
      authenticator_locks = authenticator_locks;
      public_keys = record {
        high_security_identity_sig = opt_verifying_key p.high_security_identity_sig_pub_key;
        storable_sig = opt_verifying_key p.storable_sig_pub_key;
        high_security_vault_key_enc = opt_encryption_key p.high_security_vault_key_enc_pub_key;
        storable_vault_key_enc = opt_encryption_key p.storable_vault_key_enc_pub_key;
        high_security_profile_seed_enc =
            opt_encryption_key p.high_security_profile_seed_enc_pub_key;
        storable_profile_seed_enc = opt_encryption_key p.storable_profile_seed_enc_pub_key;
        high_security_vault_key_enc_signature =
            opt_signature p.high_security_vault_key_enc_pub_key_signature;
        storable_vault_key_enc_signature = opt_signature p.storable_vault_key_enc_pub_key_signature;
        high_security_profile_seed_enc_signature =
            opt_signature p.high_security_profile_seed_enc_pub_key_signature;
        storable_profile_seed_enc_signature =
            opt_signature p.storable_profile_seed_enc_pub_key_signature;
        storable_sig_signature = opt_signature p.storable_sig_pub_key_signature;
      };
    })

  unfoldable pub unlock : WireUnlock → Result ApiError (SessionUnlock U)
  unfolding required_id
  unlock s = do
    authenticator_id ←
        required_id U debug s.authenticator_id "SyncUpdate.SessionUnlock.authenticator_id"
    ok (record { encrypted_secret = s.encrypted_secret; authenticator_id = authenticator_id })

module _ (U : Uuids) (debug : String → String) (D : Discriminants) where
  -- A vault of a type without a name is dropped.
  unfoldable pub vault : WireVault → Result ApiError (Option (VaultSummary U))
  unfolding required_id optional_id collect
  vault v = or_dropped (vault_type D v.vault_type) (λ kind. do
    id ← required_id U debug v.id "SyncUpdate.Vault.id"
    commit_id ← optional_id U debug v.commit_id "SyncUpdate.Vault.commit_id"
    profile_ids ← collect (λ p. required_id U debug p "SyncUpdate.Vault.Profile.id") v.profiles
    associated_vault_id ←
        optional_id U debug v.associated_vault_id "SyncUpdate.Vault.associated_vault_id"
    ok (
        some (record {
          id = id;
          vault_type = kind;
          generation_id = v.generation_id;
          commit_id = commit_id;
          profile_ids = profile_ids;
          associated_vault_id = associated_vault_id;
          organization_id = if v.organization_id == "" then none else some v.organization_id;
        })))

abbrev organization : WireOrganization → Organization
organization o = record { id = o.id; name = o.name }

module _ (U : Uuids) (debug : String → String) (T : Jiff) where
  unfoldable pub session : WireSession → Result ApiError (Session U T)
  unfolding required_id timestamp
  session s = do
    id ← required_id U debug s.id "SyncUpdate.Session.id"
    ok (record {
      id = id;
      unlocked_until = and_then s.unlocked_until (timestamp T);
      unlock_requested_at = and_then s.unlock_requested_at (timestamp T);
      unlock_time_limit_minutes = s.unlock_time_limit_minutes;
      client_settings = s.client_settings;
    })

module _ (U : Uuids) (debug : String → String) (D : Discriminants) (T : Jiff) where
  unfoldable pub sync_update : SyncUpdate → Result ApiError (SyncSnapshot U T)
  unfolding timestamp transpose unlock collect session collect_some vault profile
  sync_update u = do
    session_unlock ← transpose (unlock U debug) u.session_unlock
    sessions ← collect (session U debug T) u.sessions
    vaults ← collect_some (vault U debug D) u.vaults
    profiles ← collect (profile U debug) u.profiles
    ok (record {
      server_time = and_then u.server_time (timestamp T);
      token_refresh_needed = u.token_refresh_needed;
      client_outdated = u.client_outdated;
      session_unlock = session_unlock;
      sessions = sessions;
      vaults = vaults;
      profiles = profiles;
      organizations = map organization u.organizations;
    })
