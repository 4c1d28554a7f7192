-- ===== src/App/Session/Create.antt =====
-- crates/heyl-app/src/session/lifecycle.rs: pairing a new session, registering it, and storing its
-- credentials. `none` is a search for a free name that does not end.
pub mod Steps
pub mod Complete
use heyl.Prelude.{
  ℕ, zero, suc, ◌+◌, ◌*◌, String, Bool, true, false, not, ◌&&◌, Option, none, some, List, map, find,
  ltb, leb, eqb, if◌then◌else◌,
}
use heyl.Prelude
use heyl.Prelude.Results.{ok, err, ok_or, map_err}
use heyl.Json.{Json}
use heyl.Domain.Ids.{Uuids, SessionId, AuthenticatorId, show, id_eq}
use heyl.Domain.Time.{Jiff}
use heyl.Domain.Session.{SessionPolicy}
use heyl.Domain.Keys.{Crypto, session_encryption_key, derive}
use heyl.Domain.Authenticator.{Authenticator}
use heyl.Domain.Login.{Tokens}
use heyl.Domain.Sync.{SyncSnapshot, Session, session}
use heyl.Vault.Document.{VaultError}
use heyl.Vault.Meta.{disambiguate, upsert_session}
use heyl.App.Error.{
  AppError, ApiError, permission_denied, slot_exists, crypto_failure, unlock_undecryptable, domain,
  signature_rejected, api, no_secret_salt, vault_content,
}
use heyl.App.Slots.{
  StoredSecret, access_token, session_private_key, session_id, Slot, slot_name, slot_key,
  default_display,
}
use heyl.App.Ports.{Ports, Call, LongPollChallenge, SessionUnlockGrant, QrStyle, random_seed}
use heyl.App.Action.{
  ◌>>=◌, when_some, when_ok, when, pure, attempt, Action, write_item, use_token, call, note,
  outside, look,
}
use heyl.App.Unlock.{Unlocked}
use heyl.App.MetaVault.{MetaVault, open_meta, commit}
use heyl.App.Session.{
  own_session_type, exists, index_add, metadata, write_policy, self_grant, respond, pair_url,
  show_pairing,
}

pub record Created (U : Uuids) (T : Jiff) : Type 0 where
  pub id : SessionId U
  pub display : String
  pub unlocked_until : Option T.Instant

-- A refused signature, told apart from the other failures of `CreateTokens`.
unfoldable pub token_error : {U : Uuids} → ApiError → AppError U
token_error (permission_denied code) = signature_rejected
token_error other = api other

module _ {U : Uuids} {T : Jiff} where
  -- `sync.session(id).and_then(|s| s.unlocked_until)`.
  unfoldable pub unlocked_until : SyncSnapshot U T → SessionId U → Option T.Instant
  unlocked_until sync id = Prelude.◌>>=◌ (session sync id) (λ s. s.unlocked_until)

-- `find(..).and_then(|a| a.secret_salt)`.
unfoldable pub salt_of : {U : Uuids} → List (Authenticator U) → AuthenticatorId U → Option (List ℕ)
salt_of {U} authenticators id =
    Prelude.◌>>=◌ (find (λ a. id_eq U a.id id) authenticators) (λ a. a.secret_salt)

module _ {U : Uuids} {T : Jiff} {K : Crypto} {J : Json} (P : Ports U T K J) where
  unfoldable pub store : Slot → StoredSecret → String → Action P (Unit {0})
  unfolding write_item
  store slot secret value = write_item P (slot_key slot secret) value

  -- `CreateTokens`, with the errors that a login tells apart.
  unfoldable pub create_tokens : Call P.Outside (Tokens U T) → Action P (Tokens U T)
  create_tokens f w = let done = f w.1 in ((w.0, done.0), map_err token_error done.1)

  unfoldable pub pairing_hash : List ℕ → String
  pairing_hash public = P.base64.standard_encode (K.hash_data public)

  unfoldable pub encode_key : K.EncryptionPrivateKey → String
  encode_key key = P.base64.standard_encode (K.key_bytes key)

  unfoldable pub unlocked_at_creation : SessionId U → Action P (Option T.Instant)
  unfolding attempt call unlocked_until
  unlocked_at_creation id = do
    answer ← attempt (call P P.api.sync)
    when_ok answer (λ sync. pure (ok (unlocked_until sync id))) (λ e. pure (ok none))

  -- The account, fetched with the new token, and the keys that the phone's seed gives.
  unfoldable pub paired_session : K.Seed → LongPollChallenge U → Action P (Unlocked U T K)
  unfolding call salt_of
  paired_session seed challenge = do
    sync ← call P P.api.sync
    authenticators ← call P P.api.list_authenticators
    salt ← pure (
        ok_or (no_secret_salt challenge.authenticator_id)
          (salt_of authenticators challenge.authenticator_id))
    keys ← pure (map_err domain (derive U K challenge.authenticator_id seed salt))
    pure (
        ok (record {
          sync = sync;
          authenticators = authenticators;
          authenticator_id = challenge.authenticator_id;
          seed = K.seed_from_bytes (K.expose_secret seed);
          keys = keys;
        }))

  -- The entry of the device list, under a name that no live device has.
  unfoldable pub publish :
      Unlocked U T K
      → MetaVault U K J
      → K.EncryptionPrivateKey
      → SessionId U
      → String
      → Action P (Unit {0})
  unfolding look metadata commit
  publish session meta session_key id display = do
    now ← look P P.clock.now
    let edited = upsert_session J U T meta.document id (metadata P session session_key display now)
    _ ← pure (map_err (λ (e : VaultError). vault_content meta.id e) edited.1)
    _ ← commit P (record meta { document = edited.0 })
    pure (ok tt)

  wanted_name : Slot → Option String → String
  wanted_name slot none = default_display slot
  wanted_name slot (some name) = name

  unfoldable pub register :
      Slot
      → Option String
      → K.Seed
      → K.EncryptionPrivateKey
      → LongPollChallenge U
      → SessionId U
      → Action P (Option String)
  unfolding paired_session open_meta publish wanted_name
  register slot display seed session_key challenge id = do
    session ← paired_session seed challenge
    meta ← open_meta P session
    let live = map (λ (s : Session U T). s.id) session.sync.sessions
    let free = disambiguate J U T P.metadata_from_seq (wanted_name slot display) meta.document live
    when_some free
        (λ display. do _ ← publish session meta session_key id display; pure (ok (some display)))
        (pure (ok none))

  -- The phone's answer to the pairing code: the seed, and the challenge to sign.
  unfoldable pub pair :
      QrStyle
      → (announce : String → P.Outside → P.Outside) → Action P (K.Seed × LongPollChallenge U)
  unfolding outside random_seed show_pairing pair_url note call pairing_hash
  pair style announce = do
    bytes ← outside P (random_seed P)
    pairing_key ← pure (
        map_err crypto_failure
          (K.derive_encryption bytes none "salt-long-poll-login-encryption-key-"))
    let public = K.public_key pairing_key
    let url = pair_url P public
    _ ← show_pairing P url style
    _ ← outside P (λ w. (announce url w, tt))
    _ ← note P "waiting for the swipe…"
    challenge ← call P (P.api.create_long_poll_channel_challenge (pairing_hash public))
    plaintext ←
        pure
          (map_err (λ _. unlock_undecryptable) (K.open_box pairing_key challenge.encrypted_secret))
    seed ← pure (map_err (λ _. unlock_undecryptable) (K.seed_from_slice plaintext))
    pure (ok (seed, challenge))

  unfoldable pub grant_if :
      Bool → K.EncryptionPrivateKey → K.Seed → Action P (Option (SessionUnlockGrant T))
  unfolding self_grant
  grant_if wanted session_key seed =
      when wanted (do grant ← self_grant P session_key seed; pure (ok (some grant)))
        (pure (ok none))

  -- The key first: a token without its key is useless.
  unfoldable pub store_credentials :
      Slot → K.EncryptionPrivateKey → SessionId U → String → Action P (Unit {0})
  unfolding store encode_key
  store_credentials slot session_key id token = do
    _ ← store slot session_private_key (encode_key session_key)
    _ ← store slot session_id (show U id)
    store slot access_token token

  -- What `create` does once the slot is known to be free.
  unfoldable pub create_session :
      Slot
      → Option String
      → SessionPolicy
      → (unlock_now : Bool) → QrStyle
      → (announce : String → P.Outside → P.Outside) → Action P (Option (Created U T))
  unfolding pair outside random_seed respond grant_if create_tokens store_credentials use_token
      register write_policy index_add unlocked_at_creation
  create_session slot display policy unlock_now style announce = do
    paired ← pair style announce
    let seed = paired.0
    let challenge = paired.1
    bytes ← outside P (random_seed P)
    session_key ← pure (map_err domain (session_encryption_key U K bytes))
    response ← respond P seed challenge.challenge
    grant ← grant_if (unlock_now && not challenge.registration) session_key seed
    tokens ← create_tokens (
        P.api.create_tokens challenge.authenticator_id challenge.challenge response own_session_type
          grant)
    _ ← store_credentials slot session_key tokens.session_id tokens.access_token
    _ ← use_token P tokens.access_token
    registered ← register slot display seed session_key challenge tokens.session_id
    when_some registered
        (λ display. do
          _ ← write_policy P tokens.session_id policy ""
          _ ← index_add P slot
          until ← unlocked_at_creation tokens.session_id
          pure (
              ok (
                some
                  (record { id = tokens.session_id; display = display; unlocked_until = until }))))
        (pure (ok none))

  unfoldable pub create :
      Slot
      → Option String
      → SessionPolicy
      → (unlock_now : Bool) → QrStyle
      → (announce : String → P.Outside → P.Outside) → Action P (Option (Created U T))
  unfolding exists create_session
  create slot display policy unlock_now style announce w =
      when (exists P slot w) (pure (err (slot_exists (slot_name slot))))
        (create_session slot display policy unlock_now style announce) w
