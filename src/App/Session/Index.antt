-- ===== src/App/Session/Index.antt =====
-- crates/heyl-app/src/session/mod.rs: the index of the slots as a list without doubles.
pub mod Unique
use heyl.Prelude.{
  ◌≡◌, ◌≢◌, refl, sym, ap, ◌∙◌, String, Bool, true, false, not, Option, none, some, List, [], ◌∷◌,
  ◌++◌, any, keep, map, ◌==◌, if◌then◌else◌, Bool-cases, inl, inr, eq_iff, eq_refl, arith,
}
use heyl.Prelude.Results.{Result, ok, err, ok_or, map_err-eq-ok, ok_or-eq-ok}
use heyl.Json.{Json}
use heyl.Domain.Ids.{Uuids}
use heyl.Domain.Time.{Jiff}
use heyl.Domain.Session.{JsonText}
use heyl.Domain.Keys.{Crypto}
use heyl.App.Slots.{slot_index, default_slot, Slot, slot_name, SecretStore, IsKeychain}
use heyl.App.Ports.{Ports}
use heyl.App.Action.{World, write_item, when, ◌>>=◌}
use heyl.App.Error.{port}
use heyl.App.Action.Leaves.{>>=-returns, >>=-ok}
use heyl.App.Session.{
  read_index, contains, texts, names_or_empty, parse_index, slots, write_index, index_add,
  index_remove,
}

-- What the index needs of `serde_json`: an array of texts reads back as it was written.
pub record ReadsTexts (J : Json) (X : JsonText J) : Type 0 where
  pub from_str-to_string :
      (names : List String) (json : String)
      → X.to_string (J.array (map J.string names)) ≡ some json
      → X.from_str json ≡ some (J.array (map J.string names))
  pub as_array-array : (vs : List J.Value) → J.as_array (J.array vs) ≡ some vs

texts-map : (J : Json) (names : List String) → texts J (map J.string names) ≡ some names
unfolding texts
texts-map J [] = refl
texts-map J (n ∷ ns) = rw (J.as_str-string n, texts-map J ns) refl

module _ {U : Uuids} {T : Jiff} {K : Crypto} {J : Json} (P : Ports U T K J)
    (reads : ReadsTexts J P.text) (keychain : IsKeychain P.store) where
  index_add_old :
      (slot : Slot) (w : World P)
      → contains (slots P w) (slot_name slot) ≡ true
      → index_add P slot w ≡ (w, ok tt)
  unfolding index_add when
  index_add_old slot w e = rw (e, when) refl

  index_add_new :
      (slot : Slot) (w : World P)
      → contains (slots P w) (slot_name slot) ≡ false
      → index_add P slot w ≡ write_index P (slots P w ++ slot_name slot ∷ []) w
  unfolding index_add when ◌>>=◌
  index_add_new slot w e = rw (e, when) refl

  parse_index-lem :
      (names : List String) (json : String)
      → P.text.to_string (J.array (map J.string names)) ≡ some json
      → parse_index P json ≡ names
  unfolding parse_index texts names_or_empty
  parse_index-lem names json h =
      rw
        (
          reads.from_str-to_string names json h,
          reads.as_array-array (map J.string names),
          texts-map J names,
        )
        refl

  write_index-ok :
      (names : List String) (w : World P) (json : String)
      → P.text.to_string (J.array (map J.string names)) ≡ some json
      → write_index P names w ≡ write_item P (default_slot slot_index) json w
  unfolding write_index
  write_index-ok names w json e = >>=-ok _ _ w (ap (ok_or _) e)

  -- An index that was written is read back.
  slots-write_index :
      (names : List String) (w : World P)
      → (write_index P names w).1 ≡ ok tt
      → slots P (write_index P names w).0 ≡ names
  unfolding write_index slots read_index write_item
  slots-write_index names w h =
      let json = >>=-returns _ _ w h in
      let written = map_err-eq-ok port _ json.2 in
      let stored = keychain.get-set w.0 (default_slot slot_index) json.0 written in
      let text = ok_or-eq-ok _ _ _ json.1 in
      rw (write_index-ok names w json.0 text) (rw stored (parse_index-lem names json.0 text))

  -- Slots that were added are there, after the ones that were.
  pub slots-index_add :
      (slot : Slot) (w : World P)
      → (index_add P slot w).1 ≡ ok tt
      → slots P (index_add P slot w).0 ≡ (
          if contains (slots P w) (slot_name slot)
          then slots P w
          else slots P w ++ slot_name slot ∷ [])
  unfolding index_add when
  slots-index_add slot w h = elim (Bool-cases (contains (slots P w) (slot_name slot))) [
    | inl e ↦ rw (index_add_old slot w e, e) refl
    | inr e ↦
        rw (index_add_new slot w e, e)
          (slots-write_index _ w (sym (ap (λ o. o.1) (index_add_new slot w e)) ∙ h))
  ]

  pub slots-index_remove :
      (slot : Slot) (w : World P)
      → (index_remove P slot w).1 ≡ ok tt
      → slots P (index_remove P slot w).0 ≡ keep (λ n. not (n == slot_name slot)) (slots P w)
  unfolding index_remove
  slots-index_remove slot w h = slots-write_index _ w h
