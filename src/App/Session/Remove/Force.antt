-- ===== src/App/Session/Remove/Force.antt =====
-- crates/heyl-app/src/session/lifecycle.rs: a forced removal is not stopped by the backend.
use heyl.Prelude.{inl, inr, ◌≡◌, refl, ap, ◌∙◌, String, true, Option, none, some, List, map}
use heyl.Prelude.Results.{ok, ok_or, map_err, Result-cases}
use heyl.Json.{Json}
use heyl.Domain.Ids.{Uuids}
use heyl.Domain.Time.{Jiff}
use heyl.Domain.Keys.{Crypto}
use heyl.App.Error.{port}
use heyl.App.Slots.{SecretKey, Slot, default_slot, slot_index}
use heyl.App.Ports.{Ports}
use heyl.App.Action.{
  World, Action, note, attempt, when, when_ok, when_some, delete_item, write_item, ◌>>=◌,
}
use heyl.App.Action.Leaves.{>>=-ok}
use heyl.App.Session.{Adopted, forget, forget_all, index_remove, write_index}
use heyl.App.Session.Remove.{Removed, tolerate, retire, remove}

module _ {U : Uuids} {T : Jiff} {K : Crypto} {J : Json} (P : Ports U T K J) where
  -- The action succeeds, wherever it starts.
  abbrev Succeeds : {A : Type 0} → Action P A → Type 0
  Succeeds {A} m = (w : World P) → (a : A) × ((m w).1 ≡ ok a)

  then :
      {A B : Type 0} (m : Action P A) (f : A → Action P B)
      → Succeeds m
      → ((a : A) → Succeeds (f a))
      → Succeeds (m >>= f)
  then m f one rest w =
      let here = one w in
      let there = rest here.0 (m w).0 in (there.0, ap (λ o. o.1) (>>=-ok m f w here.1) ∙ there.1)

  tolerate-Succeeds :
      {A : Type 0} (what : String) (m : Action P A) → Succeeds (tolerate P true what m)
  unfolding tolerate attempt note when ◌>>=◌ when_ok
  tolerate-Succeeds what m w = elim (Result-cases (m w).1) [
    | inl found ↦ rw (found.1, when_ok) (_, refl)
    | inr failed ↦ rw (failed.1, when_ok) (_, refl)
  ]

  retire-Succeeds :
      (slot : Slot) (adopted : Option (Adopted U K)) → Succeeds (retire P slot true adopted)
  unfolding retire when_some
  retire-Succeeds slot none w = (_, refl)
  retire-Succeeds slot (some adopted) w =
      then _ _ (tolerate-Succeeds _ _)
        (λ marked. then _ _ (tolerate-Succeeds _ _) (λ gone u. (_, refl))) w

  delete_item-Succeeds :
      ((s : P.store.State) (k : SecretKey) → (P.store.delete s k).1 ≡ ok tt)
      → (k : SecretKey) → Succeeds (delete_item P k)
  unfolding delete_item
  delete_item-Succeeds deleted k u = (tt, ap (map_err port) (deleted u.0 k))

  forget-Succeeds :
      ((s : P.store.State) (k : SecretKey) → (P.store.delete s k).1 ≡ ok tt)
      → (slot : Slot) → Succeeds (forget P slot)
  unfolding forget forget_all
  forget-Succeeds deleted slot =
      let gone = delete_item-Succeeds deleted in
      then _ _ (gone _) (λ _. then _ _ (gone _) (λ _. then _ _ (gone _) (λ _ u. (tt, refl))))

  index_remove-Succeeds :
      ((s : P.store.State) (json : String)
        → (P.store.set s (default_slot slot_index) json).1 ≡ ok tt)
      → ((names : List String)
          → (json : String) × (P.text.to_string (J.array (map J.string names)) ≡ some json))
      → (slot : Slot) → Succeeds (index_remove P slot)
  unfolding index_remove write_index write_item
  index_remove-Succeeds written serialized slot u =
      let json = serialized _ in
      (
        tt,
        ap (λ o. o.1) (>>=-ok _ _ u (ap (ok_or _) json.1)) ∙ ap (map_err port) (written u.0 json.0),
      )

  -- Where the keychain takes deletions and the index can be written, a forced removal succeeds, whatever
  -- the backend answers and whatever the slot holds.
  pub remove_force :
      (deleted : (s : P.store.State) (k : SecretKey) → (P.store.delete s k).1 ≡ ok tt)
      (written : (s : P.store.State) (json : String)
        → (P.store.set s (default_slot slot_index) json).1 ≡ ok tt)
      (serialized : (names : List String)
        → (json : String) × (P.text.to_string (J.array (map J.string names)) ≡ some json))
      (slot : Slot) (w : World P)
      → (removed : Removed) × ((remove P slot true w).1 ≡ ok removed)
  unfolding remove
  remove_force deleted written serialized slot w =
      then _ _ (tolerate-Succeeds _ _)
        (λ adopted. then _ _ (retire-Succeeds slot adopted) (λ removed.
          then _ _ (forget-Succeeds deleted slot) (λ _.
            then _ _ (index_remove-Succeeds written serialized slot) (λ _ u. (removed, refl)))))
        w
