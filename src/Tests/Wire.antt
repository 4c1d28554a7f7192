-- ===== src/Tests/Wire.antt =====
-- Runs of the readings of the backend's answers.
use heyl.Prelude.{ℕ, List, suc, ◌≤◌, ◌≡◌, refl, arith, String, false, none, some, [], ◌∷◌}
use heyl.Prelude.Int.{pos}
use heyl.Prelude.Results.{ok, err}
use heyl.Domain.Authenticator.SecretInfo.{Readers}
use heyl.Domain.Sync.{SyncSnapshot}
use heyl.Domain.Kinds.{with_backup_code}
use heyl.App.Error.{transport}
use heyl.App.Ports.{Call}
use heyl.Grpc.Request.{ClientContext, Request, client_type_cli}
use heyl.Grpc.Rpc.{HeyloginApi, Encoding}
use heyl.Grpc.Adapter.{State}
use heyl.Grpc.Adapter.Sent.{headers, Logs, Write, mint, snapshot, IsSent}
use heyl.Grpc.Adapter.Calls.{presented, write, read, write-once, read-bounded}
use heyl.Grpc.Wire.{
  Discriminants, wire_push, wire_private, SyncUpdate, WireProfile, CreateTokensResponse,
  CreateChallengeResponse, WireAuthenticator, ListCommitsResponse,
}
use heyl.Grpc.Map.{
  checked, timestamp, timestamp_to_proto, required_id, optional_id, stated_profile,
  profile_authenticator_lock, opt_verifying_key, opt_encryption_key, opt_signature,
}
use heyl.Grpc.Map.Snapshot.{sync_update, collect, collect_some, transpose, profile}
use heyl.Grpc.Map.Answers.{tokens, challenge, authenticator, vault_commits}
use heyl.Grpc.Map.Clock.{timestamp-timestamp_to_proto}
use heyl.Grpc.Map.Readings.{IsReading, Pairwise, sync_update-profiles}
use heyl.Grpc.Map.Failures.{IsRead}
use heyl.Grpc.Map.Failures.Outcome.{readings-IsRead}
use heyl.Tests.Samples.{tags, noon, tag_discrete, ash, birch, ash_text, birch_text}
use heyl.Tests.Host.{armor}

abbrev quoted : String → String
quoted s = s

abbrev numbers : Discriminants
numbers = record { authenticator_of = λ i. some wire_push; vault_of = λ i. some wire_private }

-- A profile with a lock that names neither its profile nor its generation.
abbrev wire_profile : WireProfile
wire_profile = record {
  id = ash_text;
  key_generation_id = "g1";
  authenticator_locks =
      record {
        authenticator_id = birch_text;
        profile_id = "";
        profile_key_generation_id = "";
        encrypted_storable_profile_seed = 1 ∷ [];
        encrypted_high_security_profile_seed = 2 ∷ [];
      }
      ∷ [];
  high_security_identity_sig_pub_key = [];
  storable_sig_pub_key = [];
  high_security_vault_key_enc_pub_key = [];
  storable_vault_key_enc_pub_key = [];
  high_security_profile_seed_enc_pub_key = [];
  storable_profile_seed_enc_pub_key = 1 ∷ [];
  high_security_vault_key_enc_pub_key_signature = [];
  storable_vault_key_enc_pub_key_signature = [];
  high_security_profile_seed_enc_pub_key_signature = [];
  storable_profile_seed_enc_pub_key_signature = [];
  storable_sig_pub_key_signature = [];
}

abbrev wire_update : SyncUpdate
wire_update = record {
  server_time = some (record { seconds = pos 5; nanos = pos 250_000_000 });
  token_refresh_needed = false;
  client_outdated = false;
  session_unlock = none;
  sessions = [];
  vaults = [];
  profiles = wire_profile ∷ [];
  organizations = [];
}

abbrev wire_tokens : CreateTokensResponse
wire_tokens = record { access_token = none; session_id = ""; sync_update = none }

abbrev wire_challenge : CreateChallengeResponse
wire_challenge = record {
  user_id = "user";
  challenge = "AAAA";
  authenticators = record { id = "not one"; authenticator_type = pos 2; secret_info = "" } ∷ [];
}

abbrev wire_authenticator : WireAuthenticator
wire_authenticator = record { id = ash_text; data_of = none }

abbrev wire_commits : ListCommitsResponse
wire_commits = record {
  current_generation_id = "g1";
  newer_commits = record { id = birch_text; blob = [] } ∷ [];
  profile_lock = none;
}

abbrev no_readers : Readers
no_readers = record { recovery_from_str = λ s. none; dummy_from_str = λ s. none }

abbrev read_update : SyncSnapshot tags noon
read_update = record {
  server_time = some 5250;
  token_refresh_needed = false;
  client_outdated = false;
  session_unlock = none;
  sessions = [];
  vaults = [];
  profiles =
      record {
        id = record { uuid = ash };
        key_generation_id = "g1";
        authenticator_locks =
            record {
              authenticator_id = record { uuid = birch };
              profile_id = record { uuid = ash };
              profile_key_generation_id = "g1";
              encrypted_storable_profile_seed = 1 ∷ [];
              encrypted_high_security_profile_seed = 2 ∷ [];
            }
            ∷ [];
        public_keys = record {
          high_security_identity_sig = none;
          storable_sig = none;
          high_security_vault_key_enc = none;
          storable_vault_key_enc = none;
          high_security_profile_seed_enc = none;
          storable_profile_seed_enc = none;
          high_security_vault_key_enc_signature = none;
          storable_vault_key_enc_signature = none;
          high_security_profile_seed_enc_signature = none;
          storable_profile_seed_enc_signature = none;
          storable_sig_signature = none;
        };
      }
      ∷ [];
  organizations = [];
}

update_reads : sync_update tags quoted numbers noon wire_update ≡ ok read_update
unfolding sync_update timestamp required_id optional_id stated_profile profile_authenticator_lock
    profile collect collect_some transpose opt_verifying_key opt_encryption_key opt_signature
    checked tag_discrete
update_reads = refl

sync_update-profiles_example : Pairwise (IsReading tags) wire_update.profiles read_update.profiles
sync_update-profiles_example =
    sync_update-profiles tags quoted numbers noon wire_update read_update update_reads

timestamp-timestamp_to_proto_example : timestamp noon (timestamp_to_proto noon 5250) ≡ some 5250
timestamp-timestamp_to_proto_example = timestamp-timestamp_to_proto noon 5250 (omega arith)

readings-IsRead_example :
    IsRead (sync_update tags quoted numbers noon wire_update)
    × IsRead (tokens tags quoted numbers noon wire_tokens)
    × IsRead (challenge tags quoted numbers armor no_readers wire_challenge)
    × IsRead (authenticator tags quoted numbers armor no_readers wire_authenticator)
    × IsRead (vault_commits tags quoted wire_commits)
readings-IsRead_example =
    readings-IsRead tags quoted numbers noon armor no_readers wire_update wire_tokens wire_challenge
      wire_authenticator wire_commits

abbrev cli : ClientContext
cli = record {
  client_id = "c1";
  client_type = client_type_cli;
  client_version = "0.0.0";
  user_agent = "heyl";
  access_token = some "t1";
}

-- A raw API whose calls are logged and then cut off.
abbrev cut : {M R : Type 0} → Request M → Call (List ClientContext) R
cut r log = (headers r ∷ log, err (transport "cut"))

abbrev broken_api : HeyloginApi (List ClientContext)
broken_api = record {
  credential_create_challenge = cut;
  credential_create_tokens = cut;
  credential_refresh_token = cut;
  sync_sync = cut;
  authenticator_list = cut;
  credential_create_long_poll_channel_challenge = cut;
  session_update = cut;
  session_request_session_unlock = cut;
  session_delete_session_unlock = cut;
  session_delete_session = cut;
  vault_create_commit = cut;
  vault_list_commits = cut;
}

abbrev no_wait : ℕ → List ClientContext → List ClientContext
no_wait n log = log

abbrev the_log : List ClientContext → List ClientContext
the_log log = log

broken_api-Logs : Logs broken_api no_wait the_log
broken_api-Logs = record {
  challenges = λ r v. refl;
  mints = λ r v. refl;
  renews = λ r v. refl;
  syncs = λ r v. refl;
  lists = λ r v. refl;
  polls = λ r v. refl;
  updates = λ r v. refl;
  asks = λ r v. refl;
  locks = λ r v. refl;
  deletes = λ r v. refl;
  commits = λ r v. refl;
  reads = λ r v. refl;
  waits = λ n v. refl;
}

abbrev encoding : Encoding
encoding = record { session_number = λ kind. pos 4; decode_reply = λ bytes. none }

abbrev before : State (List ClientContext)
before = record { context = cli; outside = [] }

abbrev recovering : Write tags noon
recovering = mint (record { uuid = ash }) "AAAA" [] with_backup_code none

abbrev written : State (List ClientContext)
written =
    write tags quoted numbers noon armor no_readers encoding broken_api no_wait recovering before

-- The call that recovers presents the other client type.
write-once_example : (written.context ≡ cli) × (written.outside ≡ presented recovering cli ∷ [])
write-once_example =
    write-once tags quoted numbers noon armor no_readers encoding broken_api no_wait the_log
      broken_api-Logs recovering before

-- A read that is cut off each time.
read-bounded_example :
    (n : ℕ) × (n ≤ 3)
    × IsSent the_log cli
        (suc n)
        before
        (read tags quoted numbers noon armor no_readers encoding broken_api no_wait snapshot before)
read-bounded_example =
    read-bounded tags quoted numbers noon armor no_readers encoding broken_api no_wait the_log
      broken_api-Logs snapshot before
