-- ===== src/Vault/Meta.antt =====
-- crates/heyl-vault/src/meta.rs: the device list in the META vault. An operation hands back the
-- document that it leaves behind, on the error paths too.
pub mod Registry
pub mod Names
pub mod Devices
pub mod Upsert
use heyl.Prelude.{
  ℕ, zero, suc, ◌+◌, ◌%◌, String, Bool, true, false, Option, none, some, List, [], ◌∷◌, ◌>>=◌, not,
  ◌&&◌, filter_map, keep, any, find, length, ◌==◌, if◌then◌else◌,
}
use heyl.Prelude.Decimal.{print}
use heyl.Prelude.Results.{Result, ok, err, ok_or, to_option}
use heyl.Json.{Json}
use heyl.Domain.Ids.{Uuids, SessionId, parse, show, id_eq}
use heyl.Domain.Time.{Jiff, display}
use heyl.Domain.Session.{SessionMetadata, metadata_of_map, metadata_map}
use heyl.Vault.Document.{VaultError, not_a_document, Document}
use Prim.Native.String.{◌++◌}

abbrev pub meta_document_type : String
meta_document_type = "meta"

unfoldable pub numbered : String → ℕ → String
numbered description counter = description ++ " (" ++ print counter ++ ")"

-- The loop on fuel; the counter is a `u32`.
unfoldable pub disambiguate_from : String → List String → ℕ → ℕ → String → Option String
disambiguate_from description taken zero counter candidate =
    if any (λ used. used == candidate) taken then none else some candidate
disambiguate_from description taken (suc fuel) counter candidate =
    let counter = (counter + 1) % 4294967296 in
    let rest = disambiguate_from description taken fuel counter (numbered description counter) in
    if any (λ used. used == candidate) taken then rest else some candidate

module _ (J : Json) where
  -- `content.entry("sessions").or_insert_with(..)`.
  unfoldable pub sessions_entry : J.Map → J.Map
  sessions_entry content = elim (J.get content "sessions") [
    | none ↦ J.insert content "sessions" (J.object J.new)
    | some present ↦ content
  ]

  -- The document with the entry made, and the map in it.
  unfoldable pub sessions_mut : Document J → Document J × Result VaultError J.Map
  unfolding sessions_entry
  sessions_mut document =
      let content = sessions_entry document.content in
      (
        record document { content = content },
        ok_or (not_a_document "`content.sessions` is not an object")
            (J.get content "sessions" >>= J.as_object),
      )

  -- The write through the reference to the map.
  unfoldable pub put_sessions : Document J → J.Map → Document J
  put_sessions document map = record document {
    content = J.insert document.content "sessions" (J.object map);
  }

module _ (J : Json) (U : Uuids) (T : Jiff) (from_seq : J.Value → Option (SessionMetadata U T)) where
  -- `from_value`: an object by its keys, anything else by the positional form.
  unfoldable pub metadata_of_value : J.Value → Option (SessionMetadata U T)
  metadata_of_value v = elim (J.as_object v) [
    | none ↦ from_seq v
    | some m ↦ metadata_of_map J U T m
  ]

  unfoldable pub session_of_entry : String × J.Value → Option (SessionId U × SessionMetadata U T)
  session_of_entry (id, entry) = do
    id ← to_option (parse U id)
    entry ← metadata_of_value entry
    some (id, entry)

  sessions_of_map : Option J.Map → List (SessionId U × SessionMetadata U T)
  sessions_of_map none = []
  sessions_of_map (some map) = filter_map session_of_entry (J.entries map)

  -- Entries that do not parse are skipped.
  unfoldable pub sessions : Document J → List (SessionId U × SessionMetadata U T)
  unfolding sessions_of_map
  sessions document = sessions_of_map (J.get document.content "sessions" >>= J.as_object)

  unfoldable pub session : Document J → SessionId U → Option (SessionMetadata U T)
  session document id =
      find (λ found. id_eq U found.0 id) (sessions document) >>= λ found. some found.1

  -- The names of the devices that are live and not tombstoned.
  unfoldable pub taken_names : Document J → List (SessionId U) → List String
  taken_names document live =
      filter_map (λ found. found.1.description)
        (keep (λ found. not found.1.is_deleted && any (λ id. id_eq U id found.0) live)
          (sessions document))

  unfoldable pub disambiguate : String → Document J → List (SessionId U) → Option String
  unfolding taken_names
  disambiguate description document live =
      let taken = taken_names document live in
      disambiguate_from description taken (suc (length taken)) 1 description

module _ (J : Json) (U : Uuids) (T : Jiff) where
  unfoldable pub upsert_session :
      Document J → SessionId U → SessionMetadata U T → Document J × Result VaultError Unit
  unfolding sessions_mut put_sessions
  upsert_session document id entry =
      let value = J.object (metadata_map J U T entry) in
      let reached = sessions_mut J document in
      elim reached.1 [
        | err e ↦ (reached.0, err e)
        | ok map ↦ (put_sessions J reached.0 (J.insert map (show U id) value), ok tt)
      ]

  -- Both times move together.
  unfoldable pub stamp : J.Map → T.Instant → J.Map
  stamp entry now =
      let entry = J.insert entry "editTime" (J.string (display T now)) in
      J.insert entry "updateTime" (J.string (display T now))

  -- `sessions_mut(document)?.get_mut(id).and_then(as_object_mut).ok_or(..)?`, and a write through the
  -- reference.
  unfoldable pub edit_entry :
      String → (J.Map → J.Map) → Document J → SessionId U → Document J × Result VaultError Unit
  unfolding sessions_mut put_sessions
  edit_entry missing edit document id =
      let reached = sessions_mut J document in
      elim reached.1 [
        | err e ↦ (reached.0, err e)
        | ok map ↦ elim (J.get map (show U id) >>= J.as_object) [
          | none ↦ (reached.0, err (not_a_document missing))
          | some entry ↦
              (put_sessions J reached.0 (J.insert map (show U id) (J.object (edit entry))), ok tt)
        ]
      ]

  unfoldable pub tombstone_session :
      Document J → SessionId U → T.Instant → Document J × Result VaultError Unit
  unfolding edit_entry stamp
  tombstone_session document id now =
      edit_entry "no session entry to tombstone"
        (λ entry. stamp (J.insert entry "isDeleted" (J.boolean true)) now) document id

  unfoldable pub set_description :
      Document J → SessionId U → String → T.Instant → Document J × Result VaultError Unit
  unfolding edit_entry stamp
  set_description document id description now =
      edit_entry "no session entry to rename"
        (λ entry. stamp (J.insert entry "description" (J.string description)) now) document id
