-- ===== src/Tests/Devices.antt =====
-- The device list of one account, and the settings text of a session.
use heyl.Prelude.{
  filter_map, ℕ, ◌≡◌, ◌≢◌, refl, ap, String, true, false, Option, none, some, [], ◌∷◌, In, length,
  ◌<◌, arith, ◌==◌, if◌then◌else◌,
}
use heyl.Json.Sample.{Tree, Fields, obj, text, flag, field, end, sample}
use heyl.Domain.Ids.{SessionId}
use heyl.Domain.Time.{display}
use heyl.Domain.Time
use heyl.Prelude.Decimal.{print}
use heyl.Domain.Session.{
  SessionMetadata, SessionPolicy, JsonText, metadata_of_map, metadata_map, to_client_settings,
}
use heyl.Vault.Document.{Document, snappy}
use heyl.Vault.Merge.Elements.{element_at}
use heyl.Vault.Meta.{
  session_of_entry, metadata_of_value, taken_names, sessions, disambiguate, upsert_session,
  tombstone_session, set_description,
}
use heyl.Vault.Meta.Registry.{entry_of}
use heyl.Vault.Meta.Devices.{edits_elsewhere}
use heyl.Vault.Meta.Names.{disambiguate_fresh}
use heyl.Tests.Samples.{tags, noon, ash, birch, cedar, tag_discrete, ash_text, birch_text}

abbrev our_id : SessionId tags
our_id = record { uuid = ash }

abbrev other_id : SessionId tags
other_id = record { uuid = birch }

abbrev laptop : SessionMetadata tags noon
laptop = record {
  description = some "heyl CLI";
  icon_type = some "cli";
  is_self_unlocking = false;
  enc_pub_key = "AAAA";
  enc_pub_key_signature = "BBBB";
  signing_auth_id = record { uuid = cedar };
  creation_time = 0;
  edit_time = 0;
  is_deleted = false;
  update_time = 0;
}

-- The positional form reads nothing here.
abbrev no_seq : Tree → Option (SessionMetadata tags noon)
no_seq v = none

abbrev meta_of : Fields → Document sample
meta_of content = record { format = snappy; document_type = "meta"; version = 2; content = content }

abbrev no_devices : Document sample
no_devices = meta_of end

abbrev devices : Document sample
devices =
    meta_of
      (field "sessions" (obj (field ash_text (obj (metadata_map sample tags noon laptop)) end)) end)

our_entry :
    entry_of sample tags noon devices our_id devices ≡ some (metadata_map sample tags noon laptop)
unfolding element_at
our_entry = refl

no_entry : entry_of sample tags noon no_devices our_id no_devices ≡ none
unfolding element_at
no_entry = refl

edits_elsewhere_example :
    ((entry : SessionMetadata tags noon)
      → element_at sample
          (upsert_session sample tags noon devices other_id entry).0.content
          "sessions"
          ash_text
        ≡ element_at sample devices.content "sessions" ash_text)
    × ((now : ℕ)
        → element_at sample
            (tombstone_session sample tags noon devices other_id now).0.content
            "sessions"
            ash_text
          ≡ element_at sample devices.content "sessions" ash_text)
    × ((description : String) (now : ℕ)
        → element_at sample
            (set_description sample tags noon devices other_id description now).0.content
            "sessions"
            ash_text
          ≡ element_at sample devices.content "sessions" ash_text)
edits_elsewhere_example =
    edits_elsewhere sample tags noon devices other_id "sessions" ash_text (λ h. text_apart h.1)
  where
    text_apart : ash_text ≢ birch_text
    text_apart e = let clash : true ≡ false = ap (λ s. s == ash_text) e in cc

-- One live device has the name, so the next one gets a number.
one_taken : taken_names sample tags noon no_seq devices (our_id ∷ []) ≡ "heyl CLI" ∷ []
unfolding taken_names sessions metadata_map metadata_of_map session_of_entry metadata_of_value
    Time.parse display print filter_map tag_discrete
one_taken = refl

few_names : length (taken_names sample tags noon no_seq devices (our_id ∷ [])) < 4294967294
few_names = omega (arith, ap length one_taken)

disambiguate_fresh_example :
    (name : String) × (disambiguate sample tags noon no_seq "heyl CLI" devices (our_id ∷ [])
      ≡ some name)
    × ¬ In name (taken_names sample tags noon no_seq devices (our_id ∷ []))
    × (¬ In "heyl CLI" (taken_names sample tags noon no_seq devices (our_id ∷ []))
        → name ≡ "heyl CLI")
disambiguate_fresh_example =
    disambiguate_fresh sample tags noon no_seq "heyl CLI" devices (our_id ∷ []) few_names

-- The settings of a session that another program wrote a key into.
abbrev settings_text : String
settings_text = "{\"theme\":\"dark\"}"

abbrev settings_tree : Tree
settings_tree = obj (field "theme" (text "dark") end)

abbrev strict_policy : SessionPolicy
strict_policy = record { timeout_minutes = 30; strict = true; auto_extend = false }

abbrev written_text : String
written_text = "{\"theme\":\"dark\",\"heyl\":{\"strict\":true}}"

abbrev written_tree : Tree
written_tree =
    obj (field "theme" (text "dark") (field "heyl" (obj (field "strict" (flag true) end)) end))

abbrev sample_from_str : String → Option Tree
sample_from_str s =
    if s == settings_text
    then some settings_tree
    else if s == written_text
    then some written_tree
    else none

abbrev json_text : JsonText sample
json_text = record { from_str = sample_from_str; to_string = λ v. some written_text }

written : to_client_settings sample json_text strict_policy settings_text ≡ some written_text
unfolding to_client_settings
written = refl
