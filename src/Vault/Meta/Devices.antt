-- ===== src/Vault/Meta/Devices.antt =====
-- What the edits of a device's entry leave in it, and that they touch no other.
use heyl.Prelude.{
  ◌≡◌, String, true, Option, none, some, ◌==◌, if◌then◌else◌, Option-cases, inl, inr,
}
use heyl.Prelude.Results.{ok, err}
use heyl.Json.{Json, get-insert}
use heyl.Domain.Ids.{Uuids, SessionId, show}
use heyl.Domain.Time.{Jiff, display}
use heyl.Domain.Session.{SessionMetadata, metadata_map}
use heyl.Vault.Document.{VaultError, Document}
use heyl.Vault.Merge.Elements.{element_at}
use heyl.Vault.Meta.{sessions_mut, stamp, upsert_session, tombstone_session, set_description}
use heyl.Vault.Meta.Registry.{
  found, opened, entry_of, elsewhere, element_at-put_sessions, element_at-sessions_entry,
  edit_entry_ok, edit_entry_others, edit_entry_missing,
}

module _ (J : Json) (T : Jiff) where
  -- The value at a key after both times moved.
  abbrev pub stamped : J.Map → T.Instant → String → Option J.Value
  stamped entry now k =
      if "updateTime" == k
      then some (J.string (display T now))
      else (if "editTime" == k then some (J.string (display T now)) else J.get entry k)

module _ (J : Json) (U : Uuids) (T : Jiff) where
  get-stamp :
      (entry : J.Map) (now : T.Instant) (k : String)
      → J.get (stamp J U T entry now) k ≡ stamped J T entry now k
  unfolding stamp
  get-stamp entry now k = rw (get-insert J _ "updateTime" k _, get-insert J entry "editTime" k _)

  upsert_others :
      (document : Document J) (id : SessionId U) (entry : SessionMetadata U T) (name k : String)
      → ¬ ((name ≡ "sessions") × (k ≡ show U id))
      → element_at J (upsert_session J U T document id entry).0.content name k
        ≡ element_at J document.content name k
  unfolding upsert_session sessions_mut
  upsert_others document id entry name k other = elim (Option-cases (found J document)) [
    | inl n ↦
        rw (upsert_session, sessions_mut, n, element_at-sessions_entry J document.content name k)
    | inr (map, m) ↦
        rw
          (
            upsert_session,
            sessions_mut,
            m,
            element_at-put_sessions J (opened J U T document id) map (show U id) name k
                (J.object (metadata_map J U T entry)) m,
            element_at-sessions_entry J document.content name k,
          )
          (elsewhere name (show U id) k _ _ other)
  ]

  -- Whatever they answer, the three edits of the device list leave every element of the document as it
  -- was, but for the one under our own id.
  pub edits_elsewhere :
      (document : Document J) (id : SessionId U) (name k : String)
      → ¬ ((name ≡ "sessions") × (k ≡ show U id))
      → ((entry : SessionMetadata U T)
          → element_at J (upsert_session J U T document id entry).0.content name k
            ≡ element_at J document.content name k)
        × ((now : T.Instant)
            → element_at J (tombstone_session J U T document id now).0.content name k
              ≡ element_at J document.content name k)
        × ((description : String) (now : T.Instant)
            → element_at J (set_description J U T document id description now).0.content name k
              ≡ element_at J document.content name k)
  unfolding tombstone_session set_description
  edits_elsewhere document id name k other = (
    λ entry. upsert_others document id entry name k other,
    λ now. edit_entry_others J U T document id _ _ name k other,
    λ description now. edit_entry_others J U T document id _ _ name k other,
  )

  -- A tombstone keeps the entry: it sets the flag, moves both times, and leaves every other key.
  tombstone_session_marks :
      (document : Document J) (id : SessionId U) (now : T.Instant) (entry : J.Map)
      → entry_of J U T document id document ≡ some entry
      → ((tombstone_session J U T document id now).1 ≡ ok tt)
        × (after : J.Map) × (entry_of J U T document id (tombstone_session J U T document id now).0
            ≡ some after)
        × ((k : String)
            → J.get after k ≡ stamped J T (J.insert entry "isDeleted" (J.boolean true)) now k)
  unfolding tombstone_session
  tombstone_session_marks document id now entry e =
      let done = edit_entry_ok J U T document id _ _ entry e in
      (done.0, _, done.1, get-stamp (J.insert entry "isDeleted" (J.boolean true)) now)

  -- A new description keeps the entry too: it sets the text, moves both times, and leaves every other
  -- key.
  set_description_writes :
      (document : Document J) (id : SessionId U) (description : String) (now : T.Instant)
      (entry : J.Map)
      → entry_of J U T document id document ≡ some entry
      → ((set_description J U T document id description now).1 ≡ ok tt)
        × (after : J.Map) × (entry_of J U T document id
              (set_description J U T document id description now).0
            ≡ some after)
        × ((k : String)
            → J.get after k
              ≡ stamped J T (J.insert entry "description" (J.string description)) now k)
  unfolding set_description
  set_description_writes document id description now entry e =
      let done = edit_entry_ok J U T document id _ _ entry e in
      (done.0, _, done.1, get-stamp (J.insert entry "description" (J.string description)) now)

  -- Where there is no entry under our id, both edits answer with an error.
  edits_need_entry :
      (document : Document J) (id : SessionId U)
      → entry_of J U T document id document ≡ none
      → ((now : T.Instant)
          → (e : VaultError) × ((tombstone_session J U T document id now).1 ≡ err e))
        × ((description : String) (now : T.Instant)
            → (e : VaultError) × ((set_description J U T document id description now).1 ≡ err e))
  unfolding tombstone_session set_description
  edits_need_entry document id n = (
    λ now. edit_entry_missing J U T document id _ _ n,
    λ description now. edit_entry_missing J U T document id _ _ n,
  )
