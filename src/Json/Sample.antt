-- ===== src/Json/Sample.antt =====
-- A value tree that meets the laws of `Json`: what the tests compute with.
use heyl.Prelude.{
  ℕ, ◌≡◌, refl, ◌∙◌, ap, String, Bool, true, false, Option, none, some, List, [], ◌∷◌, lookup,
  upsert, HasUniqueKeys, without, dedup, lookup-without, upsert-HasUniqueKeys,
  without-HasUniqueKeys, dedup-HasUniqueKeys, dedup_unique, ◌==◌, if◌then◌else◌,
}
use heyl.Json.{Json}

mutual
  pub data Tree : Type 0 where
    null : Tree
    flag : Bool → Tree
    num : ℕ → Tree
    text : String → Tree
    list : Items → Tree
    obj : Fields → Tree

  pub data Items : Type 0 where
    nil : Items
    cons : Tree → Items → Items

  pub data Fields : Type 0 where
    end : Fields
    field : String → Tree → Fields → Fields

abbrev pub items_list : Items → List Tree
items_list nil = []
items_list (cons v r) = v ∷ items_list r

abbrev pub list_items : List Tree → Items
list_items [] = nil
list_items (v ∷ l) = cons v (list_items l)

pub items_list-list_items : (l : List Tree) → items_list (list_items l) ≡ l
items_list-list_items [] = refl
items_list-list_items (v ∷ l) = rw (items_list-list_items l)

abbrev pub fields_list : Fields → List (String × Tree)
fields_list end = []
fields_list (field k v r) = (k, v) ∷ fields_list r

abbrev pub list_fields : List (String × Tree) → Fields
list_fields [] = end
list_fields ((k, v) ∷ l) = field k v (list_fields l)

fields_list-list_fields : (l : List (String × Tree)) → fields_list (list_fields l) ≡ l
fields_list-list_fields [] = refl
fields_list-list_fields ((k, v) ∷ l) = rw (fields_list-list_fields l)

abbrev pub tree_entries : Fields → List (String × Tree)
tree_entries m = dedup (fields_list m)

abbrev pub tree_object : Tree → Option Fields
tree_object (obj m) = some m
tree_object _ = none

abbrev pub tree_array : Tree → Option (List Tree)
tree_array (list l) = some (items_list l)
tree_array _ = none

abbrev pub tree_text : Tree → Option String
tree_text (text s) = some s
tree_text _ = none

abbrev pub tree_flag : Tree → Option Bool
tree_flag (flag b) = some b
tree_flag _ = none

abbrev pub tree_num : Tree → Option ℕ
tree_num (num n) = some n
tree_num _ = none

abbrev pub tree_null : Tree → Bool
tree_null null = true
tree_null _ = false

abbrev pub tree_insert : Fields → String → Tree → Fields
tree_insert m k v = list_fields (upsert k v (tree_entries m))

abbrev pub tree_remove : Fields → String → Fields
tree_remove m k = list_fields (without k (tree_entries m))

entries_of : (l : List (String × Tree)) → HasUniqueKeys l → tree_entries (list_fields l) ≡ l
entries_of l u = ap dedup (fields_list-list_fields l) ∙ dedup_unique l u

pub tree_entries-insert :
    (m : Fields) (k : String) (v : Tree)
    → tree_entries (tree_insert m k v) ≡ upsert k v (tree_entries m)
tree_entries-insert m k v =
    entries_of _ (upsert-HasUniqueKeys k v (tree_entries m) (dedup-HasUniqueKeys (fields_list m)))

pub tree_get-remove :
    (m : Fields) (k j : String)
    → lookup j (tree_entries (tree_remove m k))
      ≡ (if k == j then none else lookup j (tree_entries m))
tree_get-remove m k j =
    ap (lookup j) (
      entries_of _ (without-HasUniqueKeys k (tree_entries m) (dedup-HasUniqueKeys (fields_list m))))
    ∙ lookup-without k j (tree_entries m)

abbrev pub sample : Json
sample = record {
  Value = Tree;
  Map = Fields;
  as_object = tree_object;
  as_array = tree_array;
  as_str = tree_text;
  as_bool = tree_flag;
  as_u64 = tree_num;
  is_null = tree_null;
  object = obj;
  array = λ l. list (list_items l);
  string = text;
  boolean = flag;
  number = num;
  null = Tree.null;
  new = end;
  entries = tree_entries;
  get = λ m k. lookup k (tree_entries m);
  insert = tree_insert;
  remove = tree_remove;
  as_object-object = λ m. refl;
  as_str-string = λ s. refl;
  as_bool-boolean = λ b. refl;
  as_u64-number = λ n h. refl;
  is_null-string = λ s. refl;
  entries-new = refl;
  entries-insert = tree_entries-insert;
  entries-HasUniqueKeys = λ m. dedup-HasUniqueKeys (fields_list m);
  get-entries = λ m k. refl;
  get-remove = tree_get-remove;
}
