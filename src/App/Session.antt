-- ===== src/App/Session.antt =====
-- crates/heyl-app/src/session/mod.rs: the index of the slots, the credentials of a slot, and what a
-- session publishes about itself.
pub mod Create
pub mod Wait
pub mod Remove
pub mod Settings
pub mod Keychain
pub mod Index
use heyl.Prelude.{
  ℕ, String, Bool, true, false, not, Option, none, some, List, [], ◌∷◌, ◌++◌, any, keep, map,
  filter_map, ◌==◌, if◌then◌else◌, eqb, length,
}
use heyl.Prelude
use heyl.Prelude.Results.{Result, ok, err, ok_or, map_err, to_option}
use heyl.Json.{Json}
use heyl.Domain.Ids.{Uuids, SessionId, parse, show}
use heyl.Domain.Time.{Jiff}
use heyl.Domain.Session.{SessionMetadata, SessionPolicy, icon_cli, to_client_settings}
use heyl.Domain.Kinds.{SessionType, connected}
use heyl.Domain.Keys.{Crypto}
use heyl.Domain.Login.{sign_challenge, ChallengeEncoding}
use heyl.App.Error.{PortError, malformed_slot, domain, port}
use heyl.App.Slots.{
  StoredSecret, access_token, session_private_key, session_id, slot_index, session_secrets,
  SecretKey, default_slot, Slot, slot_name, slot_key,
}
use heyl.App.Ports.{Ports, SessionUnlockGrant, SessionUpdate, QrStyle, ephemeral_key, nonce}
use heyl.App.Action.{
  ◌>>=◌, when, pure, attempt, Action, World, read_item, write_item, delete_item, use_token, call,
  note, outside, look,
}
use heyl.App.Unlock.{Unlocked, decode_key}
use Prim.Native.String.{◌++◌ as ◌+++◌}

-- The session type of every session that heyl makes.
abbrev pub own_session_type : SessionType
own_session_type = connected

unfoldable pub contains : List String → String → Bool
contains names name = any (λ n. n == name) names

unfoldable pub names_or_empty : Option (List String) → List String
names_or_empty none = []
names_or_empty (some names) = names

-- `serde_json::from_str::<Vec<String>>`, on the value tree.
unfoldable pub texts : (J : Json) → List J.Value → Option (List String)
texts J [] = some []
texts J (v ∷ vs) = elim (J.as_str v) [
  | none ↦ none
  | some s ↦ elim (texts J vs) [ none ↦ none | some rest ↦ some (s ∷ rest) ]
]

-- `Result::is_ok`.
unfoldable pub is_ok : {E A : Type 0} → Result E A → Bool
is_ok (ok a) = true
is_ok (err e) = false

pub record Adopted (U : Uuids) (K : Crypto) : Type 0 where
  pub id : SessionId U
  pub session_key : K.EncryptionPrivateKey

module _ {U : Uuids} {T : Jiff} {K : Crypto} {J : Json} (P : Ports U T K J) where
  -- An index that cannot be read is no slots.
  unfoldable pub parse_index : String → List String
  unfolding texts names_or_empty
  parse_index json =
      names_or_empty (Prelude.◌>>=◌ (Prelude.◌>>=◌ (P.text.from_str json) J.as_array) (texts J))

  unfoldable pub read_index : Result PortError String → List String
  read_index (ok json) = parse_index json
  read_index (err e) = []

  unfoldable pub slots : World P → List String
  unfolding parse_index read_index
  slots w = read_index (P.store.get w.0 (default_slot slot_index))

  unfoldable pub write_index : List String → Action P (Unit {0})
  unfolding write_item
  write_index names = do
    json ← pure (
        ok_or (malformed_slot "index" "slot index does not serialize")
          (P.text.to_string (J.array (map J.string names))))
    write_item P (default_slot slot_index) json

  unfoldable pub index_add : Slot → Action P (Unit {0})
  unfolding slots contains slot_name write_index
  index_add slot w =
      let names = slots w in
      when (contains names (slot_name slot)) (pure (ok tt))
        (write_index (names ++ slot_name slot ∷ [])) w

  unfoldable pub index_remove : Slot → Action P (Unit {0})
  unfolding slots slot_name write_index
  index_remove slot w = write_index (keep (λ n. not (n == slot_name slot)) (slots w)) w

  -- A slot's credentials, adopted for this invocation.
  unfoldable pub adopt : Slot → Action P (Adopted U K)
  unfolding read_item decode_key use_token slot_name
  adopt slot = do
    token ← read_item P (slot_key slot access_token)
    id ← read_item P (slot_key slot session_id)
    encoded ← read_item P (slot_key slot session_private_key)
    session_key ← pure (map_err port (decode_key P encoded))
    _ ← use_token P token
    session ← pure (
        ok_or (malformed_slot (slot_name slot) "session_id is not a UUID") (to_option (parse U id)))
    pure (ok (record { id = session; session_key = session_key }))

  unfoldable pub exists : Slot → World P → Bool
  unfolding is_ok
  exists slot w = is_ok (P.store.get w.0 (slot_key slot access_token))

  -- `for secret in ..` of `forget`.
  unfoldable pub forget_all : Slot → List StoredSecret → Action P (Unit {0})
  unfolding delete_item
  forget_all slot [] = pure (ok tt)
  forget_all slot (secret ∷ secrets) = do
    _ ← delete_item P (slot_key slot secret)
    forget_all slot secrets

  unfoldable pub forget : Slot → Action P (Unit {0})
  unfolding forget_all
  forget slot = forget_all slot session_secrets

  unfoldable pub metadata :
      Unlocked U T K → K.EncryptionPrivateKey → String → T.Instant → SessionMetadata U T
  metadata session session_key description now =
      let public = K.public_key session_key in
      let signature =
        K.sign session.keys.identity_signing "salt-session-encryption-key-signature-" public in
      record {
        description = some description;
        icon_type = some icon_cli;
        is_self_unlocking = false;
        enc_pub_key = P.base64.standard_encode public;
        enc_pub_key_signature = P.base64.standard_encode signature;
        signing_auth_id = session.authenticator_id;
        creation_time = now;
        edit_time = now;
        is_deleted = false;
        update_time = now;
      }

  unfoldable pub write_policy : SessionId U → SessionPolicy → String → Action P (Unit {0})
  unfolding call
  write_policy session policy existing_client_settings = do
    client_settings ← pure (
        ok_or (malformed_slot (show U session) "policy does not serialize")
          (to_client_settings J P.text policy existing_client_settings))
    call P (
        P.api.update_session session (record {
          unlock_time_limit_minutes = some policy.timeout_minutes;
          client_settings = some client_settings;
        }))

  -- The self-grant: the seed, sealed to the session's own key.
  unfoldable pub self_grant : K.EncryptionPrivateKey → K.Seed → Action P (SessionUnlockGrant T)
  unfolding outside look ephemeral_key nonce
  self_grant session_key seed = do
    ephemeral ← outside P (ephemeral_key P)
    drawn ← outside P (nonce P)
    expires ← look P P.clock.next_unlock_deadline
    pure (
        ok (record {
          encrypted_secret =
              K.seal (K.public_key session_key) ephemeral drawn (K.expose_secret seed);
          expires_at = expires;
        }))

  unfoldable pub respond : K.Seed → String → Action P (List ℕ)
  respond seed challenge = pure (
      map_err domain (sign_challenge U K P.base64 P.as_bytes seed challenge ChallengeEncoding.utf8))

  unfoldable pub pair_url : List ℕ → String
  pair_url public = "https://heylogin.app/qr/#" +++ P.base64.url_safe_no_pad_encode public

  unfoldable pub show_pairing : String → QrStyle → Action P (Unit {0})
  unfolding note outside
  show_pairing url style = do
    _ ← note P "scan this with the heylogin app:"
    drawn ← outside P (P.terminal.render_qr url style)
    _ ← when drawn (pure (ok tt)) (note P "(no terminal to draw on)")
    note P url
