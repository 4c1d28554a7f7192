-- ===== src/App/Session/Remove/Forgets.antt =====
-- crates/heyl-app/src/session/lifecycle.rs: a slot that was removed is gone from this machine.
use heyl.Prelude.{
  ◌≡◌, ◌≢◌, refl, sym, ap, ◌∙◌, String, Bool, false, not, List, [], ◌∷◌, keep, ◌==◌, Bool-cases,
  inl, inr,
}
use heyl.Prelude.Results.{Result, ok, err, map_err-eq-ok}
use heyl.Json.{Json}
use heyl.Domain.Ids.{Uuids}
use heyl.Domain.Time.{Jiff}
use heyl.Domain.Keys.{Crypto}
use heyl.App.Error.{port}
use heyl.App.Slots.{
  access_token, session_private_key, session_id, Slot, slot_name, slot_key, IsKeychain,
  DeletesItems,
}
use heyl.App.Ports.{Ports}
use heyl.App.Action.{World, delete_item}
use heyl.App.Action.Leaves.{Leaves, settle, >>=-returns, proceed}
use heyl.App.Session.{contains, slots, exists, is_ok, forget, forget_all, index_remove}
use heyl.App.Session.Index.{ReadsTexts, slots-index_remove}
use heyl.App.Session.Create.Complete.{slot_key_apart, slot_key_own}
use heyl.App.Session.Create.Steps.{write_index-Leaves}
use heyl.App.Session.Remove.{Removed, remove}

is_ok_not : {E A : Type 0} (r : Result E A) → ((a : A) → r ≢ ok a) → is_ok r ≡ false
unfolding is_ok
is_ok_not (ok a) h = absurd (h a refl)
is_ok_not (err e) h = refl

contains-keep-not :
    (ns : List String) (n : String) → contains (keep (λ m. not (m == n)) ns) n ≡ false
unfolding contains
contains-keep-not [] n = refl
contains-keep-not (x ∷ ns) n = elim (Bool-cases (x == n)) [
  | inl e ↦ rw e (contains-keep-not ns n)
  | inr e ↦ rw (e, e) (contains-keep-not ns n)
]

module _ {U : Uuids} {T : Jiff} {K : Crypto} {J : Json} (P : Ports U T K J)
    (reads : ReadsTexts J P.text) (keychain : IsKeychain P.store)
    (deletes : DeletesItems P.store) where
  -- Three deletions, of which the first is the token's.
  forget-absent :
      (slot : Slot) (w : World P) (v : String)
      → (forget P slot w).1 ≡ ok tt
      → P.store.get (forget P slot w).0.0 (slot_key slot access_token) ≢ ok v
  unfolding forget forget_all delete_item
  forget-absent slot w v h =
      let token_item = slot_key slot access_token in
      let one = >>=-returns _ _ w h in
      let gone = deletes.get-delete w.0 token_item v (map_err-eq-ok port _ one.1) in
      let Q : P.store.State → Type 0 =
        λ s. P.store.get s token_item ≡ P.store.get (P.store.delete w.0 token_item).0 token_item in
      let two =
        deletes.get-delete_other (P.store.delete w.0 token_item).0
          (slot_key slot session_private_key) token_item
          (slot_key_apart slot access_token session_private_key (λ e. cc)) in
      let three =
        deletes.get-delete_other
          (P.store.delete (P.store.delete w.0 token_item).0 (slot_key slot session_private_key)).0
          (slot_key slot session_id) token_item
          (slot_key_apart slot access_token session_id (λ e. cc)) in
      let kept : Leaves (λ (u : World P). Q u.0) (forget P slot w) = settle _ _ _ refl (λ _.
        settle _ _ _ two (λ _. settle _ _ _ (three ∙ two) (λ _. record { holds = three ∙ two }))) in
      λ e. gone (sym kept.holds ∙ e)

  index_remove-absent :
      (slot : Slot) (w : World P)
      → ((v : String) → P.store.get w.0 (slot_key slot access_token) ≢ ok v)
      → exists P slot (index_remove P slot w).0 ≡ false
  unfolding exists index_remove
  index_remove-absent slot w absent =
      let Q : P.store.State → Type 0 =
        λ s. is_ok (P.store.get s (slot_key slot access_token)) ≡ false in
      let now = is_ok_not (P.store.get w.0 (slot_key slot access_token)) absent in
      (write_index-Leaves P Q _ w now (λ json.
        rw (keychain.get-set_other w.0 _ _ json (slot_key_own slot access_token (λ e. cc)))
          now)).holds

  -- After a removal that succeeds the slot has no token and is not in the index, with `force` and
  -- without.
  pub remove-forgets :
      (slot : Slot) (force : Bool) (w : World P) (removed : Removed)
      → (remove P slot force w).1 ≡ ok removed
      → (exists P slot (remove P slot force w).0 ≡ false)
        × (contains (slots P (remove P slot force w).0) (slot_name slot) ≡ false)
  unfolding remove
  remove-forgets slot force w removed h =
      let one = >>=-returns _ _ w h in
      let two = >>=-returns _ _ _ one.2 in
      let three = >>=-returns _ _ _ two.2 in
      let four = >>=-returns _ _ _ three.2 in
      let Q : World P → Type 0 =
        λ u. (exists P slot u ≡ false) × (contains (slots P u) (slot_name slot) ≡ false) in
      let removed : Leaves Q (remove P slot force w) = proceed _ _ w one.1 (
        proceed _ _ _ two.1 (
          proceed _ _ _ three.1 (
            proceed _ _ _ four.1 (record {
              holds = (
                index_remove-absent slot _ (λ v. forget-absent slot _ v three.1),
                ap (λ ns. contains ns (slot_name slot))
                      (slots-index_remove P reads keychain slot _ four.1)
                    ∙ contains-keep-not _ (slot_name slot),
              );
            })))) in
      removed.holds
