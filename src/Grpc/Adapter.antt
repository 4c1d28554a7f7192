-- ===== src/Grpc/Adapter.antt =====
-- crates/heyl-grpc/src/domain.rs: `DomainApi`, the port of the use cases over the raw API. Its state is
-- the context behind the lock and the state of the raw API.
pub mod Sent
pub mod Calls
use heyl.Prelude.{ℕ, ◌*◌, String, Bool, true, false, Option, none, some, List, [], if◌then◌else◌}
use heyl.Prelude.Int.{pos}
use heyl.Prelude.Results.{Result, ok, err, ok_or, map_err, ◌>>=◌}
use heyl.Base64.{Base64}
use heyl.Domain.Ids.{Uuids, AuthenticatorId, SessionId, VaultId, CommitId, parse, show}
use heyl.Domain.Time.{Jiff}
use heyl.Domain.Kinds.{SessionType, with_backup_code}
use heyl.Domain.Authenticator.{Authenticator}
use heyl.Domain.Authenticator.SecretInfo.{Readers}
use heyl.Domain.Login.{Challenge, Tokens}
use heyl.Domain.Sync.{SyncSnapshot, VaultCommits}
use heyl.App.Error.{ApiError, malformed_response}
use heyl.App.Ports.{Call, HeylApi, SessionUnlockGrant, LongPollChallenge, SessionUpdate}
use heyl.Grpc.Request.{ClientContext, request, as_client_type, with_token, client_type_recovery}
use heyl.Grpc.Wire.{Discriminants}
use heyl.Grpc.Rpc.{
  HeyloginApi, Encoding, CreateTokensRequest, WireGrant, LongPollResponse, AuthenticatorReply,
  encrypted_secret_reply, EncryptedSecretReply,
}
use heyl.Grpc.Map.{session_type, timestamp_to_proto, div_euclid_1000, rem_euclid_1000}
use heyl.Grpc.Map.Snapshot.{collect_some, sync_update}
use heyl.Grpc.Map.Answers.{challenge, tokens, authenticator, vault_commits}
use heyl.Grpc.Retry.{retrying_read}

-- `DomainApi`.
pub record State (V : Type 0) : Type 0 where
  pub context : ClientContext
  pub outside : V

module _ {V R A : Type 0} where
  -- A call with the context's metadata, whose answer is then read.
  unfoldable pub answered : (ClientContext → Call V R) → (R → Result ApiError A) → Call (State V) A
  answered call read w =
      let done = call w.context w.outside in (record w { outside = done.0 }, done.1 >>= read)

unfoldable pub is_backup_code : SessionType → Bool
is_backup_code with_backup_code = true
is_backup_code _ = false

-- The client type is another for a recovery.
unfoldable pub tokens_context : SessionType → ClientContext → ClientContext
unfolding is_backup_code as_client_type
tokens_context kind context =
    if is_backup_code kind then as_client_type context client_type_recovery else context

module _ (T : Jiff) where
  unfoldable pub wire_grant : SessionUnlockGrant T → WireGrant
  wire_grant u = record {
    encrypted_secret = u.encrypted_secret;
    expires_at = some (record {
      seconds = div_euclid_1000 (T.as_millisecond u.expires_at);
      nanos = pos (rem_euclid_1000 (T.as_millisecond u.expires_at) * 1_000_000);
    });
    single_use = false;
  }

-- The reply of the phone: an encrypted secret, or nothing that helps.
unfoldable pub secret_of : Option AuthenticatorReply → Result ApiError EncryptedSecretReply
secret_of none = err (malformed_response "authenticator_reply is not an AuthenticatorReply")
secret_of (some reply) = elim reply.reply_oneof [
  | some (encrypted_secret_reply secret) ↦ ok secret
  | other ↦ err (malformed_response "authenticator_reply carries no encrypted secret")
]

module _ (U : Uuids) (E : Encoding) where
  unfoldable pub long_poll_challenge : LongPollResponse → Result ApiError (LongPollChallenge U)
  unfolding secret_of
  long_poll_challenge response = do
    found ←
        ok_or (malformed_response "CreateLongPollChannelChallengeResponse.authenticator")
          response.authenticator
    secret ← secret_of (E.decode_reply response.authenticator_reply)
    authenticator_id ←
        map_err (λ e. malformed_response "long-poll authenticator id is not a UUID")
          (parse U found.id)
    ok (record {
      user_id = response.user_id;
      challenge = response.challenge;
      authenticator_id = authenticator_id;
      encrypted_secret = secret.encrypted_secret;
      registration = secret.registration;
    })

module _ (U : Uuids) (debug : String → String) (D : Discriminants) (b64 : Base64)
    (R : Readers) where
  unfoldable pub read_authenticators :
      List heyl.Grpc.Wire.WireAuthenticator → Result ApiError (List (Authenticator U))
  unfolding collect_some authenticator
  read_authenticators = collect_some (authenticator U debug D b64 R)

module _ {V : Type 0} (U : Uuids) (debug : String → String) (D : Discriminants) (T : Jiff)
    (b64 : Base64) (R : Readers) (E : Encoding) (api : HeyloginApi V)
    (sleep_millis : ℕ → V → V) where
  -- `tokio::time::sleep`, which leaves the context alone.
  unfoldable pub pause : ℕ → State V → State V
  pause millis w = record w { outside = sleep_millis millis w.outside }

  -- One attempt.
  unfoldable pub ask_challenge : (email : String) → Call (State V) (Challenge U)
  unfolding answered request challenge
  ask_challenge email =
      answered (λ c. api.credential_create_challenge (request c (record { email = email })))
        (challenge U debug D b64 R)

  unfoldable pub create_challenge : (email : String) → Call (State V) (Challenge U)
  unfolding retrying_read pause ask_challenge
  create_challenge email = retrying_read pause (ask_challenge email)

  unfoldable pub create_tokens :
      AuthenticatorId U
      → (challenge : String) (response : List ℕ) → SessionType
      → Option (SessionUnlockGrant T)
      → Call (State V) (Tokens U T)
  unfolding answered request tokens_context tokens session_type wire_grant
  create_tokens id challenge response kind grant =
      let message : CreateTokensRequest = record {
        authenticator_id = show U id;
        challenge = challenge;
        response = response;
        session_unlock = elim grant [ none ↦ none | some u ↦ some (wire_grant T u) ];
        session_type = E.session_number (session_type kind);
      } in
      answered (λ c. api.credential_create_tokens (request (tokens_context kind c) message))
        (tokens U debug D T)

  unfoldable pub refresh_token : Call (State V) String
  unfolding answered request
  refresh_token =
      answered (λ c. api.credential_refresh_token (request c tt))
        (λ response. do
          token ←
              ok_or (malformed_response "RefreshTokenResponse.new_access_token")
                response.new_access_token
          ok token.token)

  -- One attempt.
  unfoldable pub ask_sync : Call (State V) (SyncSnapshot U T)
  unfolding answered request sync_update
  ask_sync =
      answered (λ c. api.sync_sync (request c tt))
        (λ response. do
          update ← ok_or (malformed_response "SyncResponse.sync_update") response.sync_update
          sync_update U debug D T update)

  unfoldable pub sync : Call (State V) (SyncSnapshot U T)
  unfolding retrying_read pause ask_sync
  sync = retrying_read pause (ask_sync)

  -- One attempt.
  unfoldable pub ask_authenticators : Call (State V) (List (Authenticator U))
  unfolding answered request read_authenticators
  ask_authenticators =
      answered (λ c. api.authenticator_list (request c tt))
        (λ response. read_authenticators U debug D b64 R response.authenticators)

  unfoldable pub list_authenticators : Call (State V) (List (Authenticator U))
  unfolding retrying_read pause ask_authenticators
  list_authenticators = retrying_read pause (ask_authenticators)

  unfoldable pub create_long_poll_channel_challenge :
      (public_key_hash : String) → Call (State V) (LongPollChallenge U)
  unfolding answered request long_poll_challenge
  create_long_poll_channel_challenge public_key_hash =
      answered
        (λ c.
          api.credential_create_long_poll_channel_challenge
            (request c (record { public_key_hash = public_key_hash })))
        (long_poll_challenge U E)

  unfoldable pub update_session : SessionId U → SessionUpdate → Call (State V) (Unit {0})
  unfolding answered request
  update_session session update =
      answered
        (λ c. api.session_update (
          request c (record {
            session_id = show U session;
            fields_to_update = [];
            client_settings = update.client_settings;
            unlock_time_limit_minutes = update.unlock_time_limit_minutes;
          })))
        ok

  unfoldable pub request_session_unlock : (source : String) → Call (State V) (Unit {0})
  unfolding answered request
  request_session_unlock source =
      answered (λ c. api.session_request_session_unlock (request c (record { source = source }))) ok

  unfoldable pub delete_session_unlock : SessionId U → Call (State V) (Unit {0})
  unfolding answered request
  delete_session_unlock session =
      answered
        (λ c.
          api.session_delete_session_unlock
            (request c (record { session_id = show U session; only_pending_request = false })))
        ok

  unfoldable pub delete_session : SessionId U → Call (State V) (Unit {0})
  unfolding answered request
  delete_session session =
      answered
        (λ c. api.session_delete_session (request c (record { session_id = show U session }))) ok

  unfoldable pub create_commit :
      VaultId U → CommitId U → (blob : List ℕ) → T.Instant → Call (State V) (CommitId U)
  unfolding answered request timestamp_to_proto
  create_commit vault latest_commit blob update_time =
      answered
        (λ c. api.vault_create_commit (
          request c (record {
            vault_id = show U vault;
            latest_commit_id = show U latest_commit;
            new_commit_blob = blob;
            update_time = some (timestamp_to_proto T update_time);
          })))
        (λ response.
          map_err (λ e. malformed_response "CreateCommitResponse.commit_id is not a UUID")
            (parse U response.commit_id))

  -- One attempt.
  unfoldable pub ask_commits : VaultId U → Call (State V) (VaultCommits U)
  unfolding answered request vault_commits
  ask_commits vault =
      answered
        (λ c.
          api.vault_list_commits
            (request c (record { vault_id = show U vault; force_locks = true })))
        (vault_commits U debug)

  unfoldable pub list_commits : VaultId U → Call (State V) (VaultCommits U)
  unfolding retrying_read pause ask_commits
  list_commits vault = retrying_read pause (ask_commits vault)

  abbrev pub domain_api : HeylApi U T (State V)
  domain_api = record {
    set_access_token = λ token w. record w { context = with_token w.context token };
    create_challenge = create_challenge;
    create_tokens = create_tokens;
    refresh_token = refresh_token;
    sync = sync;
    list_authenticators = list_authenticators;
    create_long_poll_channel_challenge = create_long_poll_channel_challenge;
    update_session = update_session;
    request_session_unlock = request_session_unlock;
    delete_session_unlock = delete_session_unlock;
    delete_session = delete_session;
    create_commit = create_commit;
    list_commits = list_commits;
  }
