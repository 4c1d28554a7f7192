-- ===== src/Domain/Session/Metadata.antt =====
-- A session's entry in the META vault, written and read back.
use heyl.Prelude.{◌≡◌, String, Option, none, some}
use heyl.Prelude.Results.{ok}
use heyl.Json.{Json, get-insert, get-new}
use heyl.Domain.Ids.{Uuids}
use heyl.Domain.Time.{Jiff, display}
use heyl.Domain.Time
use heyl.Domain.Session.{SessionMetadata, metadata_of_map, metadata_map}

module _ (J : Json) (U : Uuids) (T : Jiff) where
  -- The three times have their text for a spelling: they are whole milliseconds.
  abbrev pub HasPlainTimes : SessionMetadata U T → Type 0
  HasPlainTimes e =
      (Time.parse T (display T e.creation_time) ≡ ok e.creation_time)
      × (Time.parse T (display T e.edit_time) ≡ ok e.edit_time)
      × (Time.parse T (display T e.update_time) ≡ ok e.update_time)

  -- Session metadata that was written reads back, where its times are whole milliseconds.
  pub metadata_of_map-metadata_map :
      (e : SessionMetadata U T)
      → HasPlainTimes e
      → metadata_of_map J U T (metadata_map J U T e) ≡ some e
  unfolding metadata_of_map metadata_map
  metadata_of_map-metadata_map e h = by_texts e.description e.icon_type
    where
      by_texts :
          (a b : Option String)
          → metadata_of_map J U T (metadata_map J U T (record e { description = a; icon_type = b }))
            ≡ some (record e { description = a; icon_type = b })
      by_texts none none = simp (
        get-insert J,
        get-new J,
        J.as_str-string,
        J.as_bool-boolean,
        U.parse_str-to_string,
        h.0,
        h.1,
        h.2,
      )
      by_texts none (some b) = simp (
        get-insert J,
        get-new J,
        J.as_str-string,
        J.as_bool-boolean,
        J.is_null-string,
        U.parse_str-to_string,
        h.0,
        h.1,
        h.2,
      )
      by_texts (some a) none = simp (
        get-insert J,
        get-new J,
        J.as_str-string,
        J.as_bool-boolean,
        J.is_null-string,
        U.parse_str-to_string,
        h.0,
        h.1,
        h.2,
      )
      by_texts (some a) (some b) = simp (
        get-insert J,
        J.as_str-string,
        J.as_bool-boolean,
        J.is_null-string,
        U.parse_str-to_string,
        h.0,
        h.1,
        h.2,
      )
