-- ===== src/Vault/Merge.antt =====
-- crates/heyl-vault/src/merge.rs: folding a vault's commits into its current state.
pub mod Elements
pub mod Newest
pub mod Snapshot
use heyl.Prelude.{
  String, Ordering, Bool, Option, none, some, List, [], ◌∷◌, compare, get_last?, text_gt,
  if◌then◌else◌,
}
use heyl.Prelude.Results.{Result, ok, ok_or, ◌>>=◌}
use heyl.Json.{Json, value_str}
use heyl.Vault.Document.{VaultError, empty, Document}

module _ (J : Json) where
  or_blank : Option String → String
  or_blank none = ""
  or_blank (some s) = s

  -- An element without a text under `updateTime` has the empty one, which sorts oldest.
  unfoldable pub update_time : J.Value → String
  unfolding or_blank
  update_time element = or_blank (value_str J element "updateTime")

  -- The element that is there stays only if it is strictly newer.
  unfoldable pub merge_element : J.Map → String → J.Value → J.Map
  merge_element acc id element = elim (J.get acc id) [
    | none ↦ J.insert acc id element
    | some current ↦
        if text_gt (update_time current) (update_time element) then acc else J.insert acc id element
  ]

  unfoldable pub merge_elements : J.Map → List (String × J.Value) → J.Map
  merge_elements acc [] = acc
  merge_elements acc ((id, element) ∷ rest) = merge_elements (merge_element acc id element) rest

  merge_objects : Option J.Map → Option J.Map → J.Value → J.Value
  merge_objects none next_map next = next
  merge_objects (some acc_map) none next = next
  merge_objects (some acc_map) (some next_map) next =
      J.object (merge_elements acc_map (J.entries next_map))

  unfoldable pub merge_list : J.Value → J.Value → J.Value
  unfolding merge_objects
  merge_list acc next = merge_objects (J.as_object acc) (J.as_object next) next

  -- A list name that the accumulator lacks is taken whole.
  unfoldable pub merge_name : J.Map → String → J.Value → J.Map
  merge_name acc name list = elim (J.get acc name) [
    | none ↦ J.insert acc name list
    | some existing ↦ J.insert acc name (merge_list existing list)
  ]

  unfoldable pub merge_names : J.Map → List (String × J.Value) → J.Map
  merge_names acc [] = acc
  merge_names acc ((name, list) ∷ rest) = merge_names (merge_name acc name list) rest

  unfoldable pub merge_content : J.Map → J.Map → J.Map
  unfolding merge_names
  merge_content acc next = merge_names acc (J.entries next)

  unfoldable pub fold_content : J.Map → List (Document J) → J.Map
  fold_content acc [] = acc
  fold_content acc (commit ∷ rest) = fold_content (merge_content acc commit.content) rest

  -- Oldest first; the framing, the type and the version are the newest commit's.
  unfoldable pub fold : List (Document J) → Result VaultError (Document J)
  fold commits = do
    newest ← ok_or empty (get_last? commits)
    ok (record newest { content = fold_content J.new commits })
