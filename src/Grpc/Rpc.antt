-- ===== src/Grpc/Rpc.antt =====
-- The generated trait `HeyloginApi` of crates/heyl-grpc, with the calls that domain.rs makes. Of each
-- request stand the fields that domain.rs sets, of each response those that it reads.
use heyl.Prelude.{ℕ, String, Bool, Option, List}
use heyl.Prelude.Int.{ℤ}
use heyl.App.Ports.{Call}
use heyl.Grpc.Request.{Request}
use heyl.Grpc.Wire.{
  WireTimestamp, WireSessionType, CreateChallengeResponse, CreateTokensResponse, SyncUpdate,
  WireAuthenticator, ListCommitsResponse, AccessToken,
}

pub record CreateChallengeRequest : Type 0 where
  pub email : String

pub record WireGrant : Type 0 where
  pub encrypted_secret : List ℕ
  pub expires_at : Option WireTimestamp
  pub single_use : Bool

pub record CreateTokensRequest : Type 0 where
  pub authenticator_id : String
  pub challenge : String
  pub response : List ℕ
  pub session_unlock : Option WireGrant
  pub session_type : ℤ

pub record RefreshTokenResponse : Type 0 where
  pub new_access_token : Option AccessToken

pub record SyncResponse : Type 0 where
  pub sync_update : Option SyncUpdate

pub record ListAuthenticatorsResponse : Type 0 where
  pub authenticators : List WireAuthenticator

pub record LongPollRequest : Type 0 where
  pub public_key_hash : String

pub record LongPollAuthenticator : Type 0 where
  pub id : String

pub record LongPollResponse : Type 0 where
  pub authenticator : Option LongPollAuthenticator
  pub authenticator_reply : List ℕ
  pub user_id : String
  pub challenge : String

pub record EncryptedSecretReply : Type 0 where
  pub encrypted_secret : List ℕ
  pub registration : Bool

pub data ReplyOneof : Type 0 where
  encrypted_secret_reply : EncryptedSecretReply → ReplyOneof
  another_reply : ReplyOneof

pub record AuthenticatorReply : Type 0 where
  pub reply_oneof : Option ReplyOneof

pub record UpdateSessionRequest : Type 0 where
  pub session_id : String
  pub fields_to_update : List String
  pub client_settings : Option String
  pub unlock_time_limit_minutes : Option ℕ

pub record RequestUnlockRequest : Type 0 where
  pub source : String

pub record DeleteUnlockRequest : Type 0 where
  pub session_id : String
  pub only_pending_request : Bool

pub record DeleteSessionRequest : Type 0 where
  pub session_id : String

pub record CreateCommitRequest : Type 0 where
  pub vault_id : String
  pub latest_commit_id : String
  pub new_commit_blob : List ℕ
  pub update_time : Option WireTimestamp

pub record CreateCommitResponse : Type 0 where
  pub commit_id : String

pub record ListCommitsRequest : Type 0 where
  pub vault_id : String
  pub force_locks : Bool

-- A call of the raw API is a function of its request and of the state `V` of what is behind it.
pub record HeyloginApi (V : Type 0) : Type 0 where
  pub credential_create_challenge : Request CreateChallengeRequest → Call V CreateChallengeResponse
  pub credential_create_tokens : Request CreateTokensRequest → Call V CreateTokensResponse
  pub credential_refresh_token : Request (Unit {0}) → Call V RefreshTokenResponse
  pub sync_sync : Request (Unit {0}) → Call V SyncResponse
  pub authenticator_list : Request (Unit {0}) → Call V ListAuthenticatorsResponse
  pub credential_create_long_poll_channel_challenge :
      Request LongPollRequest → Call V LongPollResponse
  pub session_update : Request UpdateSessionRequest → Call V (Unit {0})
  pub session_request_session_unlock : Request RequestUnlockRequest → Call V (Unit {0})
  pub session_delete_session_unlock : Request DeleteUnlockRequest → Call V (Unit {0})
  pub session_delete_session : Request DeleteSessionRequest → Call V (Unit {0})
  pub vault_create_commit : Request CreateCommitRequest → Call V CreateCommitResponse
  pub vault_list_commits : Request ListCommitsRequest → Call V ListCommitsResponse

-- `prost`: the number of a session type, and the decoding of an `AuthenticatorReply`.
pub record Encoding : Type 0 where
  pub session_number : WireSessionType → ℤ
  pub decode_reply : List ℕ → Option AuthenticatorReply
