-- ===== src/Domain/Session.antt =====
-- crates/heyl-domain/src/session.rs: what a session publishes about itself, and its policy.
pub mod Policy
pub mod Metadata
use heyl.Prelude.{
  ℕ, ◌≡◌, String, Bool, true, false, Option, none, some, [], ◌∷◌, ◌||◌, ◌&&◌, not, if◌then◌else◌,
  ◌>>=◌,
}
use heyl.Prelude.Results.{to_option}
use heyl.Json.{Json, member_bool, value_get}
use heyl.Domain.Ids.{Uuids, AuthenticatorId, parse, show}
use heyl.Domain.Time.{Jiff}
use heyl.Domain.Time

abbrev pub icon_cli : String
icon_cli = "cli"

abbrev pub min_timeout_minutes : ℕ
min_timeout_minutes = 1

abbrev pub default_timeout_minutes : ℕ
default_timeout_minutes = 480

abbrev pub server_unlock_cap_hours : ℕ
server_unlock_cap_hours = 30

-- A session's entry in the META vault.
pub record SessionMetadata (U : Uuids) (T : Jiff) : Type 0 where
  pub description : Option String
  pub icon_type : Option String
  pub is_self_unlocking : Bool
  pub enc_pub_key : String
  pub enc_pub_key_signature : String
  pub signing_auth_id : AuthenticatorId U
  pub creation_time : T.Instant
  pub edit_time : T.Instant
  pub is_deleted : Bool
  pub update_time : T.Instant

pub record SessionPolicy : Type 0 where
  pub timeout_minutes : ℕ
  pub strict : Bool
  pub auto_extend : Bool

abbrev pub default_policy : SessionPolicy
default_policy = record {
  timeout_minutes = default_timeout_minutes;
  strict = false;
  auto_extend = false;
}

pub record HeylClientSettings : Type 0 where
  pub strict : Bool
  pub auto_extend : Bool

abbrev pub default_settings : HeylClientSettings
default_settings = record { strict = false; auto_extend = false }

module _ (J : Json) (U : Uuids) (T : Jiff) where
  -- An optional text: a missing key and a null read as nothing.
  read_text? : Option J.Value → Option (Option String)
  read_text? none = some none
  read_text? (some v) = if J.is_null v then some none else (J.as_str v >>= λ s. some (some s))

  read_id : Option J.Value → Option (AuthenticatorId U)
  read_id v = v >>= J.as_str >>= (λ s. to_option (parse U s))

  read_time : Option J.Value → Option T.Instant
  read_time v = v >>= J.as_str >>= (λ s. to_option (Time.parse T s))

  -- The derived `Deserialize` on an object; unknown keys are ignored.
  unfoldable pub metadata_of_map : J.Map → Option (SessionMetadata U T)
  unfolding read_text? read_id read_time
  metadata_of_map m = do
    description ← read_text? (J.get m "description")
    icon_type ← read_text? (J.get m "iconType")
    is_self_unlocking ← J.get m "isSelfUnlocking" >>= J.as_bool
    enc_pub_key ← J.get m "encPubKey" >>= J.as_str
    enc_pub_key_signature ← J.get m "encPubKeySignature" >>= J.as_str
    signing_auth_id ← read_id (J.get m "signingAuthId")
    creation_time ← read_time (J.get m "creationTime")
    edit_time ← read_time (J.get m "editTime")
    is_deleted ← J.get m "isDeleted" >>= J.as_bool
    update_time ← read_time (J.get m "updateTime")
    some (record {
      description = description;
      icon_type = icon_type;
      is_self_unlocking = is_self_unlocking;
      enc_pub_key = enc_pub_key;
      enc_pub_key_signature = enc_pub_key_signature;
      signing_auth_id = signing_auth_id;
      creation_time = creation_time;
      edit_time = edit_time;
      is_deleted = is_deleted;
      update_time = update_time;
    })

  -- An optional text is left out where there is none.
  write_text? : J.Map → String → Option String → J.Map
  write_text? m k none = m
  write_text? m k (some s) = J.insert m k (J.string s)

  -- The derived `Serialize`, in the order of the fields.
  unfoldable pub metadata_map : SessionMetadata U T → J.Map
  unfolding write_text?
  metadata_map e =
      let m = write_text? J.new "description" e.description in
      let m = write_text? m "iconType" e.icon_type in
      let m = J.insert m "isSelfUnlocking" (J.boolean e.is_self_unlocking) in
      let m = J.insert m "encPubKey" (J.string e.enc_pub_key) in
      let m = J.insert m "encPubKeySignature" (J.string e.enc_pub_key_signature) in
      let m = J.insert m "signingAuthId" (J.string (show U e.signing_auth_id)) in
      let m = J.insert m "creationTime" (J.string (Time.display T e.creation_time)) in
      let m = J.insert m "editTime" (J.string (Time.display T e.edit_time)) in
      let m = J.insert m "isDeleted" (J.boolean e.is_deleted) in
      J.insert m "updateTime" (J.string (Time.display T e.update_time))

-- `serde_json::{from_str, to_string}`.
pub record JsonText (J : Json) : Type 0 where
  pub from_str : String → Option J.Value
  pub to_string : J.Value → Option String

module _ (J : Json) where
  -- A flag with a default: missing is false, and anything but a Boolean is an error.
  read_flag : Option J.Value → Option Bool
  read_flag none = some false
  read_flag (some v) = J.as_bool v

  unfoldable pub settings_of_map : J.Map → Option HeylClientSettings
  unfolding read_flag
  settings_of_map m = do
    strict ← read_flag (J.get m "strict")
    auto_extend ← read_flag (J.get m "autoExtend")
    some (record { strict = strict; auto_extend = auto_extend })

  -- A flag that is not set is left out.
  write_flag : J.Map → String → Bool → J.Map
  write_flag m k false = m
  write_flag m k true = J.insert m k (J.boolean true)

  unfoldable pub settings_map : HeylClientSettings → J.Map
  unfolding write_flag
  settings_map s = write_flag (write_flag J.new "strict" s.strict) "autoExtend" s.auto_extend

  or_default : Option HeylClientSettings → HeylClientSettings
  or_default none = default_settings
  or_default (some s) = s

  or_new : Option J.Map → J.Map
  or_new none = J.new
  or_new (some m) = m

module _ (J : Json) (X : JsonText J) (from_seq : J.Value → Option HeylClientSettings) where
  -- `from_seq` is the positional form that derived code reads out of anything but an object.
  read_settings : J.Value → Option HeylClientSettings
  read_settings v = elim (J.as_object v) [ none ↦ from_seq v | some m ↦ settings_of_map J m ]

  -- Anything that cannot be read is taken as absent.
  unfoldable pub from_wire : ℕ → String → SessionPolicy
  unfolding read_settings or_default
  from_wire timeout_minutes client_settings =
      let parsed = X.from_str client_settings >>= (λ v. value_get J v "heyl") >>= read_settings in
      let ours = or_default J parsed in
      record {
        timeout_minutes = timeout_minutes;
        strict = ours.strict;
        auto_extend = ours.auto_extend;
      }

module _ (J : Json) (X : JsonText J) where
  -- The object that a policy is written into: what was there, if that was an object.
  unfoldable pub existing_settings : String → J.Map
  unfolding or_new
  existing_settings existing = or_new J (X.from_str existing >>= J.as_object)

  -- Our key holds the flags that are set, and is removed where none is.
  unfoldable pub settings_root : SessionPolicy → String → J.Map
  unfolding existing_settings
  settings_root p existing =
      let root = existing_settings existing in
      let ours = settings_map J (record { strict = p.strict; auto_extend = p.auto_extend }) in
      elim (J.entries ours) [
        | [] ↦ J.remove root "heyl"
        | entry ∷ rest ↦ J.insert root "heyl" (J.object ours)
      ]

  unfoldable pub to_client_settings : SessionPolicy → String → Option String
  unfolding settings_root
  to_client_settings p existing = X.to_string (J.object (settings_root p existing))
