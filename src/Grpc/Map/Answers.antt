-- ===== src/Grpc/Map/Answers.antt =====
-- crates/heyl-grpc/src/map.rs: challenges, authenticators, tokens and commits.
use heyl.Prelude.{String, Option, none, some, [], if◌then◌else◌, false}
use heyl.Prelude.Results.{Result, ok, ok_or, map_err, ◌>>=◌}
use heyl.Base64.{Base64}
use heyl.Domain.Ids.{Uuids}
use heyl.Domain.Time.{Jiff}
use heyl.Domain.Authenticator.{Authenticator}
use heyl.Domain.Authenticator.SecretInfo.{Readers, parse_secret}
use heyl.Domain.Login.{Challenge, Tokens}
use heyl.Domain.Sync.{SyncSnapshot, Commit, VaultCommits}
use heyl.Crypto.Boxes.{try_from_slice}
use heyl.App.Error.{ApiError, malformed_response}
use heyl.App.Error.Display.{show_domain}
use heyl.Grpc.Wire.{
  Discriminants, WireChallengeAuthenticator, CreateChallengeResponse, WireAuthenticator,
  CreateTokensResponse, WireCommit, ListCommitsResponse,
}
use heyl.Grpc.Map.{
  and_then, is_empty, required_id, opt_verifying_key, opt_encryption_key, opt_signature, timestamp,
  authenticator_type, vault_profile_lock,
}
use heyl.Grpc.Map.Snapshot.{collect, collect_some, or_dropped, transpose, sync_update}

module _ (U : Uuids) (debug : String → String) (D : Discriminants) (b64 : Base64)
    (R : Readers) where
  -- An authenticator of a type without a name is dropped.
  unfoldable pub challenge_authenticator :
      WireChallengeAuthenticator → Result ApiError (Option (Authenticator U))
  unfolding authenticator_type required_id parse_secret show_domain
  challenge_authenticator a = or_dropped (authenticator_type D a.authenticator_type) (λ kind. do
    id ← required_id U debug a.id "CreateChallengeResponse.Authenticator.id"
    secret ←
        map_err (λ e. malformed_response (show_domain e)) (parse_secret U b64 R kind a.secret_info)
    ok (
        some (record {
          id = id;
          authenticator_type = kind;
          secret = secret;
          secret_salt = none;
          public_keys = record {
            login_sig = none;
            high_security_identity_sig = none;
            storable_sig = none;
            high_security_profile_seed_enc = none;
            storable_profile_seed_enc = none;
            high_security_profile_seed_enc_signature = none;
            storable_profile_seed_enc_signature = none;
            storable_sig_signature = none;
          };
        })))

  unfoldable pub challenge : CreateChallengeResponse → Result ApiError (Challenge U)
  unfolding collect_some challenge_authenticator
  challenge r = do
    authenticators ← collect_some challenge_authenticator r.authenticators
    ok (record { user_id = r.user_id; challenge = r.challenge; authenticators = authenticators })

  unfoldable pub authenticator : WireAuthenticator → Result ApiError (Option (Authenticator U))
  unfolding authenticator_type required_id parse_secret show_domain transpose try_from_slice
      opt_verifying_key opt_encryption_key opt_signature
  authenticator a = do
    data_of ← ok_or (malformed_response "Authenticator.data") a.data_of
    or_dropped (authenticator_type D data_of.authenticator_type) (λ kind. do
      id ← required_id U debug a.id "Authenticator.id"
      secret ←
          map_err (λ e. malformed_response (show_domain e))
            (parse_secret U b64 R kind data_of.secret_info)
      secret_salt ←
          map_err (λ e. malformed_response "Authenticator.secret_salt is not 32 bytes")
            (transpose (try_from_slice 32)
              (if is_empty data_of.secret_salt then none else some data_of.secret_salt))
      ok (
          some (record {
            id = id;
            authenticator_type = kind;
            secret = secret;
            secret_salt = secret_salt;
            public_keys = record {
              login_sig = opt_verifying_key data_of.high_security_login_sig_pub_key;
              high_security_identity_sig =
                  opt_verifying_key data_of.high_security_identity_sig_pub_key;
              storable_sig = opt_verifying_key data_of.storable_sig_pub_key;
              high_security_profile_seed_enc =
                  opt_encryption_key data_of.high_security_profile_seed_enc_pub_key;
              storable_profile_seed_enc =
                  opt_encryption_key data_of.storable_profile_seed_enc_pub_key;
              high_security_profile_seed_enc_signature =
                  opt_signature data_of.high_security_profile_seed_enc_pub_key_signature;
              storable_profile_seed_enc_signature =
                  opt_signature data_of.storable_profile_seed_enc_pub_key_signature;
              storable_sig_signature = opt_signature data_of.storable_sig_pub_key_signature;
            };
          })))

-- `SyncSnapshot::default()`.
abbrev pub no_snapshot : {U : Uuids} {T : Jiff} → SyncSnapshot U T
no_snapshot = record {
  server_time = none;
  token_refresh_needed = false;
  client_outdated = false;
  session_unlock = none;
  sessions = [];
  vaults = [];
  profiles = [];
  organizations = [];
}

module _ (U : Uuids) (debug : String → String) (D : Discriminants) (T : Jiff) where
  unfoldable pub tokens : CreateTokensResponse → Result ApiError (Tokens U T)
  unfolding required_id timestamp transpose sync_update
  tokens r = do
    token ← ok_or (malformed_response "CreateTokensResponse.access_token") r.access_token
    session_id ← required_id U debug r.session_id "CreateTokensResponse.session_id"
    sync ← transpose (sync_update U debug D T) r.sync_update
    ok (record {
      access_token = token.token;
      expires_at = and_then token.expires_at (timestamp T);
      session_id = session_id;
      sync = elim sync [ none ↦ no_snapshot | some snapshot ↦ snapshot ];
    })

module _ (U : Uuids) (debug : String → String) where
  unfoldable pub commit : WireCommit → Result ApiError (Commit U)
  unfolding required_id
  commit c = do
    id ← required_id U debug c.id "ListCommitsResponse.Commit.id"
    ok (record { id = id; blob = c.blob })

  unfoldable pub vault_commits : ListCommitsResponse → Result ApiError (VaultCommits U)
  unfolding collect commit transpose vault_profile_lock
  vault_commits r = do
    commits ← collect commit r.newer_commits
    profile_lock ← transpose (vault_profile_lock U debug) r.profile_lock
    ok (record {
      current_generation_id = r.current_generation_id;
      commits = commits;
      profile_lock = profile_lock;
    })
