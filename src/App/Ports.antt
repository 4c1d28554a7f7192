-- ===== src/App/Ports.antt =====
-- crates/heyl-ports: what the use cases ask of the outside. A port acts on one state `W`, in which the
-- backend, the terminal, the clock and the randomness stand; the keychain keeps a state of its own.
use heyl.Prelude.{ℕ, String, Bool, Option, List}
use heyl.Prelude.Results.{Result}
use heyl.Json.{Json}
use heyl.Base64.{Base64}
use heyl.Domain.Ids.{Uuids, AuthenticatorId, SessionId, VaultId, CommitId}
use heyl.Domain.Time.{Jiff}
use heyl.Domain.Session.{SessionMetadata, HeylClientSettings, JsonText}
use heyl.Domain.Kinds.{SessionType}
use heyl.Domain.Keys.{Crypto}
use heyl.Domain.Authenticator.{Authenticator}
use heyl.Domain.Login.{Challenge, Tokens}
use heyl.Domain.Sync.{SyncSnapshot, VaultCommits}
use heyl.Vault.Document.{Codec}
use heyl.App.Error.{ApiError, PortError}
use heyl.App.Slots.{SecretStore}

pub record SessionUnlockGrant (T : Jiff) : Type 0 where
  pub encrypted_secret : List ℕ
  pub expires_at : T.Instant

-- What a phone answered a pairing channel with.
pub record LongPollChallenge (U : Uuids) : Type 0 where
  pub user_id : String
  pub challenge : String
  pub authenticator_id : AuthenticatorId U
  pub encrypted_secret : List ℕ
  pub registration : Bool

pub record SessionUpdate : Type 0 where
  pub unlock_time_limit_minutes : Option ℕ
  pub client_settings : Option String

pub data QrStyle : Type 0 where
  utf8 ascii hidden : QrStyle

-- A call of the backend changes its state, and fails or answers.
abbrev pub Call : Type 0 → Type 0 → Type 0
Call W A = W → W × Result ApiError A

pub record HeylApi (U : Uuids) (T : Jiff) (W : Type 0) : Type 0 where
  pub set_access_token : Option String → W → W
  pub create_challenge : (email : String) → Call W (Challenge U)
  pub create_tokens :
      AuthenticatorId U
      → (challenge : String) (response : List ℕ) → SessionType
      → Option (SessionUnlockGrant T)
      → Call W (Tokens U T)
  pub refresh_token : Call W String
  pub sync : Call W (SyncSnapshot U T)
  pub list_authenticators : Call W (List (Authenticator U))
  pub create_long_poll_channel_challenge : (public_key_hash : String) → Call W (LongPollChallenge U)
  pub update_session : SessionId U → SessionUpdate → Call W (Unit {0})
  pub request_session_unlock : (source : String) → Call W (Unit {0})
  pub delete_session_unlock : SessionId U → Call W (Unit {0})
  pub delete_session : SessionId U → Call W (Unit {0})
  pub create_commit : VaultId U → CommitId U → (blob : List ℕ) → T.Instant → Call W (CommitId U)
  pub list_commits : VaultId U → Call W (VaultCommits U)

pub record Terminal (W : Type 0) : Type 0 where
  pub is_interactive : W → Bool
  pub prompt_line : String → W → W × Result PortError String
  pub prompt_hidden : String → W → W × Result PortError String
  pub read_line : W → W × Result PortError String
  pub note : String → W → W
  pub render_qr : String → QrStyle → W → W × Bool

pub record Clock (T : Jiff) (W : Type 0) : Type 0 where
  pub now : W → T.Instant
  pub next_unlock_deadline : W → T.Instant
  pub sleep_millis : ℕ → W → W

-- `fill(out)`, by the length of what it fills.
pub record RandomSource (W : Type 0) : Type 0 where
  pub fill : ℕ → W → W × List ℕ

-- The ports, and the crates outside the repository that the use cases call. What a derived
-- deserializer reads out of a JSON array is the two `from_seq`, and `debug` is the form `{:?}` of a text.
pub record Ports (U : Uuids) (T : Jiff) (K : Crypto) (J : Json) : Type 1 where
  pub codec : Codec J
  pub text : JsonText J
  pub base64 : Base64
  pub as_bytes : String → List ℕ
  pub debug : String → String
  pub settings_from_seq : J.Value → Option HeylClientSettings
  pub metadata_from_seq : J.Value → Option (SessionMetadata U T)
  pub store : SecretStore
  pub Outside : Type 0
  pub api : HeylApi U T Outside
  pub terminal : Terminal Outside
  pub clock : Clock T Outside
  pub random : RandomSource Outside

module _ {U : Uuids} {T : Jiff} {K : Crypto} {J : Json} (P : Ports U T K J) where
  unfoldable pub nonce : P.Outside → P.Outside × List ℕ
  nonce = P.random.fill 24

  unfoldable pub ephemeral_key : P.Outside → P.Outside × K.EncryptionPrivateKey
  ephemeral_key w = let (w, bytes) = P.random.fill 32 w in (w, K.key_from_bytes bytes)

  unfoldable pub random_seed : P.Outside → P.Outside × List ℕ
  random_seed = P.random.fill 32
