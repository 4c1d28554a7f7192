-- ===== src/Cli/Output.antt =====
-- crates/heyl-cli/src/output.rs: the formats, and what the session commands print. A command prints a
-- list of lines, on standard output and on standard error.
pub mod Shapes
pub mod Logins
pub mod Reports
pub mod Printing
pub mod Contents
pub mod Parts
pub mod Sessions
pub mod Reported
pub mod Documents
use heyl.Prelude.{
  ℕ, zero, suc, ◌-◌, ◌%◌, ◌/◌, String, Bool, true, false, not, Option, none, some, List, [], ◌∷◌,
  ◌++◌, map, if◌then◌else◌, eqb, length,
}
use heyl.Prelude.Codes.{codes}
use heyl.Prelude.Decimal.{print}
use heyl.Prelude.Results.{Result, ok, err}
use heyl.Json.{Json}
use heyl.Domain.Ids.{Uuids, show}
use heyl.Domain.Time.{Jiff, display}
use heyl.Domain.Session.{SessionPolicy}
use heyl.App.Settings.{
  Setting, display_name, timeout, strict, auto_extend, SettingValue, minutes, toggle, locked, human,
  name,
}
use heyl.App.Get.Fields.{join}
use heyl.App.Slots.{Slot, slot_name}
use heyl.App.Ports.{QrStyle}
use heyl.App.Ports
use heyl.App.Session.Create.{Created}
use heyl.App.Session.Remove.{Removed}
use heyl.App.Session.Settings.{SlotStatus}
use Prim.Native.String.{◌++◌ as ◌+++◌}

pub data Format : Type 0 where
  prose compact pretty : Format

-- A line on standard output, a line on standard error, and a text on standard output with nothing after.
pub data Printed : Type 0 where
  out_line err_line out_text : String → Printed

-- `serde_json::{to_string, to_string_pretty}`, an error by its message.
pub record Rendering (J : Json) : Type 0 where
  pub to_string : J.Value → Result String String
  pub to_string_pretty : J.Value → Result String String

unfoldable pub is_json : Format → Bool
is_json prose = false
is_json compact = true
is_json pretty = true

pub data Qr : Type 0 where
  utf8_blocks ascii_blocks url_only : Qr

unfoldable pub qr_style : Qr → QrStyle
qr_style utf8_blocks = Ports.utf8
qr_style ascii_blocks = Ports.ascii
qr_style url_only = Ports.hidden

-- `{:<n}`.
unfoldable pub spaces : ℕ → String
spaces zero = ""
spaces (suc n) = " " +++ spaces n

unfoldable pub pad : ℕ → String → String
unfolding spaces
pad n s = s +++ spaces (n - length (codes s))

unfoldable pub describe_policy : SessionPolicy → String
unfolding join
describe_policy policy = join (
    (if eqb (policy.timeout_minutes % 60) 0
        then "timeout " +++ print (policy.timeout_minutes / 60) +++ "h"
        else "timeout " +++ print policy.timeout_minutes +++ "m")
      ∷ (if policy.strict then "strict" ∷ [] else [])
    ++ (if policy.auto_extend then "auto-extend" ∷ [] else []))

unfoldable pub setting_key : Setting → String
setting_key display_name = "displayName"
setting_key timeout = "timeoutMinutes"
setting_key strict = "strict"
setting_key auto_extend = "autoExtend"

-- A removal that could not do everything says so.
unfoldable pub removed_line : Slot → Removed → String
unfolding slot_name
removed_line slot removed =
    if removed.tombstoned
    then if removed.deleted
      then "Removed " +++ slot_name slot +++ "."
      else "Tombstoned "
        +++ slot_name slot
        +++ " and forgot its keys, but the backend session is still there."
    else if removed.deleted
    then "Deleted "
      +++ slot_name slot
      +++ " and forgot its keys, but could not tombstone its device entry — it will keep appearing in the heylogin app until you remove it there."
    else "Forgot " +++ slot_name slot +++ "'s keys locally; nothing else could be cleaned up."

module _ (J : Json) (R : Rendering J) where
  unfoldable pub render : Format → J.Value → Result String String
  render pretty document = R.to_string_pretty document
  render _ document = R.to_string document

  unfoldable pub printed : Result String String → List Printed
  printed (ok text) = out_line text ∷ []
  printed (err e) = err_line ("heyl: could not render the output as JSON: " +++ e) ∷ []

  unfoldable pub emit : Format → J.Value → List Printed
  unfolding render printed
  emit format document = printed (render format document)

  -- A document under a JSON format, and the prose else.
  unfoldable pub document_or : Format → J.Value → List Printed → List Printed
  unfolding is_json emit
  document_or format document lines = if is_json format then emit format document else lines

module _ (J : Json) where
  unfoldable pub insert_all : J.Map → List (String × J.Value) → J.Map
  insert_all m [] = m
  insert_all m ((k, v) ∷ entries) = insert_all (J.insert m k v) entries

  -- `json!({..})`: the entries in the order in which they are written.
  unfoldable pub json_object : List (String × J.Value) → J.Value
  unfolding insert_all
  json_object entries = J.object (insert_all J.new entries)

  unfoldable pub or_null : Option J.Value → J.Value
  or_null none = J.null
  or_null (some v) = v

  unfoldable pub policy_document : SessionPolicy → J.Value
  unfolding json_object
  policy_document policy = json_object (
      ("timeoutMinutes", J.number policy.timeout_minutes)
      ∷ ("strict", J.boolean policy.strict)
      ∷ ("autoExtend", J.boolean policy.auto_extend)
      ∷ [])

  unfoldable pub value_document : SettingValue → J.Value
  value_document (minutes m) = J.number m
  value_document (toggle b) = J.boolean b
  value_document locked = J.null

unfoldable pub map_some : {A B : Type 0} → (A → B) → Option A → Option B
map_some f none = none
map_some f (some a) = some (f a)

module _ (J : Json) (R : Rendering J) (U : Uuids) (T : Jiff) (debug : String → String) where
  unfoldable pub when_document : Option T.Instant → J.Value
  unfolding or_null display map_some
  when_document until = or_null J (map_some (λ t. J.string (display T t)) until)

  unfoldable pub pairing_url : String → Format → List Printed
  unfolding document_or json_object
  pairing_url url format =
      document_or J R format (json_object J (("pairingUrl", J.string url) ∷ [])) []

  unlocked_line : Option T.Instant → String
  unfolding display
  unlocked_line (some until) = "Unlocked until " +++ display T until +++ "."
  unlocked_line none = "Locked. The first command that needs a secret will ask your phone."

  unfoldable pub created_lines : Slot → Created U T → SessionPolicy → List String
  unfolding slot_name describe_policy unlocked_line
  created_lines slot created policy =
      ("Paired "
        +++ slot_name slot
        +++ " as "
        +++ debug created.display
        +++ " — the name your phone will show.")
      ∷ ("Session " +++ show U created.id +++ ".")
      ∷ ("Policy: " +++ describe_policy policy +++ ".")
      ∷ unlocked_line created.unlocked_until
      ∷ []

  unfoldable pub session_created : Slot → Created U T → SessionPolicy → Format → List Printed
  unfolding document_or json_object policy_document when_document created_lines slot_name
  session_created slot created policy format =
      document_or J R format
        (json_object J (
          ("slot", J.string (slot_name slot))
          ∷ ("sessionId", J.string (show U created.id))
          ∷ ("display", J.string created.display)
          ∷ ("policy", policy_document J policy)
          ∷ ("unlockedUntil", when_document created.unlocked_until)
          ∷ []))
        (map err_line (created_lines slot created policy))

  unfoldable pub session_unlocked : Slot → T.Instant → Format → List Printed
  unfolding document_or json_object display slot_name
  session_unlocked slot until format =
      document_or J R format
        (json_object J (
          ("slot", J.string (slot_name slot)) ∷ ("unlockedUntil", J.string (display T until)) ∷ []))
        (err_line (slot_name slot +++ " is unlocked until " +++ display T until +++ ".") ∷ [])

  unfoldable pub session_locked : Slot → Format → List Printed
  unfolding document_or json_object slot_name
  session_locked slot format =
      document_or J R format
        (json_object J (("slot", J.string (slot_name slot)) ∷ ("locked", J.boolean true) ∷ []))
        (err_line ("heyl: " +++ slot_name slot +++ " is locked") ∷ [])

  unfoldable pub session_set : Slot → Setting → String → Format → List Printed
  unfolding document_or json_object slot_name name
  session_set slot setting value format =
      document_or J R format
        (json_object J (
          ("slot", J.string (slot_name slot))
          ∷ ("key", J.string (name setting))
          ∷ ("value", J.string value)
          ∷ []))
        (err_line ("heyl: " +++ slot_name slot +++ "." +++ name setting +++ " = " +++ value) ∷ [])

  unfoldable pub session_settings : Slot → List (Setting × SettingValue) → Format → List Printed
  unfolding document_or json_object slot_name setting_key value_document human name
  session_settings slot values format =
      document_or J R format
        (json_object J (
          ("slot", J.string (slot_name slot))
          ∷ (
            "settings",
            json_object J (map (λ kv. (setting_key kv.0, value_document J kv.1)) values),
          )
          ∷ []))
        (map (λ kv. out_line (name kv.0 +++ "=" +++ human kv.1)) values)

  unfoldable pub session_removed : Slot → Removed → Format → List Printed
  unfolding document_or json_object slot_name removed_line
  session_removed slot removed format =
      document_or J R format
        (json_object J (
          ("slot", J.string (slot_name slot))
          ∷ ("tombstoned", J.boolean removed.tombstoned)
          ∷ ("deleted", J.boolean removed.deleted)
          ∷ []))
        (err_line (removed_line slot removed) ∷ [])

  unfoldable pub status_document : SlotStatus T → J.Value
  unfolding json_object when_document policy_document or_null map_some
  status_document status = json_object J (
      ("slot", J.string status.slot)
      ∷ ("known", J.boolean status.known)
      ∷ ("unlockedUntil", when_document status.unlocked_until)
      ∷ ("unlockRequested", J.boolean status.unlock_requested)
      ∷ ("policy", or_null J (map_some (policy_document J) status.policy))
      ∷ [])

  locked_state : Option T.Instant → Bool → String
  unfolding display
  locked_state (some until) requested = "unlocked until " +++ display T until
  locked_state none requested = if requested then "locked, request pending" else "locked"

  policy_text : Option SessionPolicy → String
  unfolding describe_policy
  policy_text none = "—"
  policy_text (some policy) = describe_policy policy

  row : SlotStatus T → String
  unfolding locked_state policy_text pad
  row status =
      let state =
        if not status.known
        then "gone"
        else locked_state status.unlocked_until status.unlock_requested in
      pad 16 status.slot +++ "  " +++ pad 24 state +++ "  " +++ policy_text status.policy

  unfoldable pub table : List (SlotStatus T) → List String
  unfolding pad row
  table statuses = (pad 16 "SLOT" +++ "  " +++ pad 24 "STATE" +++ "  POLICY") ∷ map row statuses

  rows : List (SlotStatus T) → List Printed
  unfolding table
  rows [] = err_line "No sessions on this machine. `heyl session create` pairs one." ∷ []
  rows (status ∷ statuses) = map out_line (table (status ∷ statuses))

  unfoldable pub session_list : List (SlotStatus T) → Format → List Printed
  unfolding document_or status_document rows
  session_list statuses format =
      document_or J R format (J.array (map status_document statuses)) (rows statuses)
