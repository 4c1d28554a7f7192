-- ===== src/Cli/Output/Sessions.antt =====
-- crates/heyl-cli/src/output.rs: the reports of the session commands.
use heyl.Prelude.{◌≡◌, refl, String, true, List, [], ◌∷◌, map}
use heyl.Json.{Json}
use heyl.Domain.Ids.{Uuids}
use heyl.Domain.Time.{Jiff, display}
use heyl.Domain.Session.{SessionPolicy}
use heyl.App.Settings.{Setting, SettingValue, name}
use heyl.App.Slots.{Slot, slot_name}
use heyl.App.Session.Create.{Created}
use heyl.App.Session.Remove.{Removed}
use heyl.App.Session.Settings.{SlotStatus}
use heyl.Cli.Output.{
  Format, Rendering, is_json, json_object, value_document, setting_key, status_document,
  session_created, session_unlocked, session_locked, session_set, session_settings, session_removed,
  session_list, pairing_url,
}
use heyl.Cli.Output.Shapes.{Members, Items, map-Each, json_object-Members}
use heyl.Cli.Output.Printing.{IsPrinted, Renders, document_or-IsPrinted}
use heyl.Cli.Output.Contents.{
  setting_shape, url_shapes, created_shapes, unlocked_shapes, locked_shapes, set_shapes,
  settings_shapes, removed_shapes, status_shapes,
}
use heyl.Cli.Output.Parts.{
  value_document-ValueOf, setting_key_lem, created-Members, status_document-Members,
}
use heyl.Cli.Output.Shapes.{Entries}

module _ (J : Json) (R : Rendering J) (U : Uuids) (T : Jiff) (debug : String → String)
    (format : Format) (json : is_json format ≡ true) (renders : Renders J R) where
  pub pairing_url-IsPrinted :
      (url : String)
      → IsPrinted J R format
          (Members J (url_shapes J U T url))
          (pairing_url J R U T debug url format)
  unfolding pairing_url
  pairing_url-IsPrinted url = document_or-IsPrinted J R format _ _ _ json renders (
      json_object-Members J (url_shapes J U T url) (("pairingUrl", J.string url) ∷ [])
        (refl, refl, tt))

  pub session_created-IsPrinted :
      (slot : Slot) (created : Created U T) (policy : SessionPolicy)
      → IsPrinted J R format
          (Members J (created_shapes J U T slot created policy))
          (session_created J R U T debug slot created policy format)
  unfolding session_created
  session_created-IsPrinted slot created policy =
      document_or-IsPrinted J R format _ _ _ json renders
        (created-Members J R U T debug slot created policy)

  pub session_unlocked-IsPrinted :
      (slot : Slot) (until : T.Instant)
      → IsPrinted J R format
          (Members J (unlocked_shapes J U T slot until))
          (session_unlocked J R U T debug slot until format)
  unfolding session_unlocked
  session_unlocked-IsPrinted slot until = document_or-IsPrinted J R format _ _ _ json renders (
      json_object-Members J (unlocked_shapes J U T slot until)
        (("slot", J.string (slot_name slot)) ∷ ("unlockedUntil", J.string (display T until)) ∷ [])
        (refl, refl, (refl, refl, tt)))

  pub session_locked-IsPrinted :
      (slot : Slot)
      → IsPrinted J R format
          (Members J (locked_shapes J U T slot))
          (session_locked J R U T debug slot format)
  unfolding session_locked
  session_locked-IsPrinted slot = document_or-IsPrinted J R format _ _ _ json renders (
      json_object-Members J (locked_shapes J U T slot)
        (("slot", J.string (slot_name slot)) ∷ ("locked", J.boolean true) ∷ [])
        (refl, refl, (refl, refl, tt)))

  pub session_set-IsPrinted :
      (slot : Slot) (setting : Setting) (value : String)
      → IsPrinted J R format
          (Members J (set_shapes J U T slot setting value))
          (session_set J R U T debug slot setting value format)
  unfolding session_set
  session_set-IsPrinted slot setting value = document_or-IsPrinted J R format _ _ _ json renders (
      json_object-Members J (set_shapes J U T slot setting value)
        (("slot", J.string (slot_name slot))
          ∷ ("key", J.string (name setting))
          ∷ ("value", J.string value)
          ∷ [])
        (refl, refl, (refl, refl, (refl, refl, tt))))

  settings-Entries :
      (values : List (Setting × SettingValue))
      → Entries J
          (map (setting_shape J) values)
          (map (λ kv. (setting_key kv.0, value_document J kv.1)) values)
  settings-Entries [] = tt
  settings-Entries ((setting, value) ∷ values) =
      (setting_key_lem J setting, value_document-ValueOf J value, settings-Entries values)

  pub session_settings-IsPrinted :
      (slot : Slot) (values : List (Setting × SettingValue))
      → IsPrinted J R format
          (Members J (settings_shapes J U T slot values))
          (session_settings J R U T debug slot values format)
  unfolding session_settings
  session_settings-IsPrinted slot values = document_or-IsPrinted J R format _ _ _ json renders (
      json_object-Members J (settings_shapes J U T slot values)
        (("slot", J.string (slot_name slot))
          ∷ (
            "settings",
            json_object J (map (λ kv. (setting_key kv.0, value_document J kv.1)) values),
          )
          ∷ [])
        (
          refl,
          refl,
          (
            refl,
            json_object-Members J (map (setting_shape J) values)
                (map (λ kv. (setting_key kv.0, value_document J kv.1)) values)
                (settings-Entries values),
            tt,
          ),
        ))

  pub session_removed-IsPrinted :
      (slot : Slot) (removed : Removed)
      → IsPrinted J R format
          (Members J (removed_shapes J U T slot removed))
          (session_removed J R U T debug slot removed format)
  unfolding session_removed
  session_removed-IsPrinted slot removed = document_or-IsPrinted J R format _ _ _ json renders (
      json_object-Members J (removed_shapes J U T slot removed)
        (("slot", J.string (slot_name slot))
          ∷ ("tombstoned", J.boolean removed.tombstoned)
          ∷ ("deleted", J.boolean removed.deleted)
          ∷ [])
        (refl, refl, (refl, refl, (refl, refl, tt))))

  pub session_list-IsPrinted :
      (statuses : List (SlotStatus T))
      → IsPrinted J R format
          (Items J (map (λ s. Members J (status_shapes J U T s)) statuses))
          (session_list J R U T debug statuses format)
  unfolding session_list
  session_list-IsPrinted statuses = document_or-IsPrinted J R format _ _ _ json renders (
    _,
    refl,
    map-Each J (λ s. Members J (status_shapes J U T s)) (status_document J R U T debug)
        (status_document-Members J R U T debug) statuses,
  )
