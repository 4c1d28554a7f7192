-- ===== src/Cli/Output/Contents.antt =====
-- crates/heyl-cli/src/output.rs: what the documents of the reports have to hold.
use heyl.Prelude.{String, true, Option, List, [], ◌∷◌, map}
use heyl.Json.{Json}
use heyl.Domain.Ids.{Uuids, show}
use heyl.Domain.Kinds.{debug_authenticator}
use heyl.Domain.Time.{Jiff, display}
use heyl.Domain.Session.{SessionPolicy}
use heyl.App.Settings.{
  Setting, display_name, timeout, strict, auto_extend, SettingValue, minutes, toggle, locked, name,
}
use heyl.App.Slots.{Slot, slot_name}
use heyl.App.Session.Create.{Created}
use heyl.App.Session.Remove.{Removed}
use heyl.App.Session.Settings.{SlotStatus}
use heyl.App.Recovery.{RecoveryOutcome, Disconnectable}
use heyl.App.Doctor.{Outcome, pass, fail, skip, Check, Report, count_of}
use heyl.Cli.Output.Shapes.{Shape, Text, Count, Flag, Null, OrNull, Members, Items, written}

abbrev pub key_of : Setting → String
key_of display_name = "displayName"
key_of timeout = "timeoutMinutes"
key_of strict = "strict"
key_of auto_extend = "autoExtend"

abbrev pub outcome_text : Outcome → String
outcome_text pass = "pass"
outcome_text fail = "fail"
outcome_text skip = "skip"

module _ (J : Json) where
  -- The members of each kind of document, by key and content.
  abbrev pub policy_shapes : SessionPolicy → List (String × Shape J)
  policy_shapes policy =
      ("timeoutMinutes", Count J policy.timeout_minutes)
      ∷ ("strict", Flag J policy.strict)
      ∷ ("autoExtend", Flag J policy.auto_extend)
      ∷ []

  abbrev pub Policy : SessionPolicy → Shape J
  Policy policy = Members J (policy_shapes policy)

  abbrev pub ValueOf : SettingValue → Shape J
  ValueOf (minutes m) = Count J m
  ValueOf (toggle b) = Flag J b
  ValueOf locked = Null J

  abbrev pub check_shapes : Check → List (String × Shape J)
  check_shapes c =
      ("name", Text J c.name)
      ∷ ("outcome", Text J (outcome_text c.outcome))
      ∷ ("detail", OrNull J (Text J) c.detail)
      ∷ []

  abbrev pub setting_shape : Setting × SettingValue → String × Shape J
  setting_shape kv = (key_of kv.0, ValueOf kv.1)

  abbrev pub report_shapes : Report → List (String × Shape J)
  report_shapes report =
      ("checks", Items J (map (λ c. Members J (check_shapes c)) report))
      ∷ (
        "summary",
        Members J (
            ("passed", Count J (count_of pass report))
            ∷ ("failed", Count J (count_of fail report))
            ∷ ("skipped", Count J (count_of skip report))
            ∷ []),
      )
      ∷ []

module _ (J : Json) (U : Uuids) (T : Jiff) where
  abbrev pub Until : Option T.Instant → Shape J
  Until until = OrNull J (λ t. Text J (display T t)) until

  abbrev pub created_shapes : Slot → Created U T → SessionPolicy → List (String × Shape J)
  created_shapes slot created policy =
      ("slot", Text J (slot_name slot))
      ∷ ("sessionId", Text J (show U created.id))
      ∷ ("display", Text J created.display)
      ∷ ("policy", Policy J policy)
      ∷ ("unlockedUntil", Until created.unlocked_until)
      ∷ []

  abbrev pub url_shapes : String → List (String × Shape J)
  url_shapes url = ("pairingUrl", Text J url) ∷ []

  abbrev pub unlocked_shapes : Slot → T.Instant → List (String × Shape J)
  unlocked_shapes slot until =
      ("slot", Text J (slot_name slot)) ∷ ("unlockedUntil", Text J (display T until)) ∷ []

  abbrev pub locked_shapes : Slot → List (String × Shape J)
  locked_shapes slot = ("slot", Text J (slot_name slot)) ∷ ("locked", Flag J true) ∷ []

  abbrev pub set_shapes : Slot → Setting → String → List (String × Shape J)
  set_shapes slot setting value =
      ("slot", Text J (slot_name slot))
      ∷ ("key", Text J (name setting))
      ∷ ("value", Text J value)
      ∷ []

  -- Where a setting stands twice, the last value counts.
  abbrev pub settings_shapes : Slot → List (Setting × SettingValue) → List (String × Shape J)
  settings_shapes slot values =
      ("slot", Text J (slot_name slot))
      ∷ ("settings", Members J (written [] (map (setting_shape J) values)))
      ∷ []

  abbrev pub removed_shapes : Slot → Removed → List (String × Shape J)
  removed_shapes slot removed =
      ("slot", Text J (slot_name slot))
      ∷ ("tombstoned", Flag J removed.tombstoned)
      ∷ ("deleted", Flag J removed.deleted)
      ∷ []

  abbrev pub status_shapes : SlotStatus T → List (String × Shape J)
  status_shapes status =
      ("slot", Text J status.slot)
      ∷ ("known", Flag J status.known)
      ∷ ("unlockedUntil", Until status.unlocked_until)
      ∷ ("unlockRequested", Flag J status.unlock_requested)
      ∷ ("policy", OrNull J (Policy J) status.policy)
      ∷ []

  abbrev pub disconnected_shapes : Disconnectable U → List (String × Shape J)
  disconnected_shapes d =
      ("id", Text J (show U d.id)) ∷ ("kind", Text J (debug_authenticator d.kind)) ∷ []

  abbrev pub recovery_shapes : RecoveryOutcome U T → List (String × Shape J)
  recovery_shapes outcome =
      ("userId", Text J outcome.user_id)
      ∷ ("sessionId", Text J (show U outcome.session_id))
      ∷ ("unlockedUntil", Until outcome.unlocked_until)
      ∷ (
        "disconnected",
        Items J (map (λ d. Members J (disconnected_shapes d)) outcome.disconnected),
      )
      ∷ []
