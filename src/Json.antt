-- ===== src/Json.antt =====
-- What the client relies on in `serde_json`, built with `preserve_order`: the value tree, its maps,
-- and the two text forms. The crate is not part of this repository, so it is a parameter: a record of
-- operations with the documented laws that the proofs use.
pub mod Sample
use heyl.Prelude.{
  ◌>>=◌, ℕ, ◌<◌, ◌≡◌, String, Bool, Option, none, some, List, [], lookup, upsert, lookup-upsert,
  HasUniqueKeys, ◌==◌, if◌then◌else◌,
}

-- `serde_json::{Value, Map}`. A map iterates over its entries in insertion order, no key stands twice,
-- and an insertion at a key that is there keeps its place.
pub record Json : Type 1 where
  pub Value : Type 0
  pub Map : Type 0
  pub as_object : Value → Option Map
  pub as_array : Value → Option (List Value)
  pub as_str : Value → Option String
  pub as_bool : Value → Option Bool
  pub as_u64 : Value → Option ℕ
  pub is_null : Value → Bool
  pub object : Map → Value
  pub array : List Value → Value
  pub string : String → Value
  pub boolean : Bool → Value
  pub number : ℕ → Value
  pub null : Value
  pub new : Map
  pub entries : Map → List (String × Value)
  pub get : Map → String → Option Value
  pub insert : Map → String → Value → Map
  pub remove : Map → String → Map
  pub as_object-object : (m : Map) → as_object (object m) ≡ some m
  pub as_str-string : (s : String) → as_str (string s) ≡ some s
  pub as_bool-boolean : (b : Bool) → as_bool (boolean b) ≡ some b
  pub as_u64-number : (n : ℕ) → n < 18446744073709551616 → as_u64 (number n) ≡ some n
  pub is_null-string : (s : String) → is_null (string s) ≡ Bool.false
  pub entries-new : entries new ≡ []
  pub entries-insert :
      (m : Map) (k : String) (v : Value) → entries (insert m k v) ≡ upsert k v (entries m)
  pub entries-HasUniqueKeys : (m : Map) → HasUniqueKeys (entries m)
  pub get-entries : (m : Map) (k : String) → get m k ≡ lookup k (entries m)
  pub get-remove :
      (m : Map) (k j : String) → get (remove m k) j ≡ (if k == j then none else get m j)

module _ (J : Json) where
  -- `map.get(key).and_then(Value::as_str)` and the like.
  abbrev pub member_str : J.Map → String → Option String
  member_str m k = J.get m k >>= J.as_str

  abbrev pub member_bool : J.Map → String → Option Bool
  member_bool m k = J.get m k >>= J.as_bool

  abbrev pub member_u64 : J.Map → String → Option ℕ
  member_u64 m k = J.get m k >>= J.as_u64

  abbrev pub member_object : J.Map → String → Option J.Map
  member_object m k = J.get m k >>= J.as_object

  -- `Value::get(key)`: a key of an object, and nothing of any other value.
  abbrev pub value_get : J.Value → String → Option J.Value
  value_get v k = J.as_object v >>= λ m. J.get m k

  -- `value.get(key).and_then(Value::as_str)`.
  abbrev pub value_str : J.Value → String → Option String
  value_str v k = value_get v k >>= J.as_str

  -- Reading back a key after an insertion.
  pub get-insert :
      (m : J.Map) (k j : String) (v : J.Value)
      → J.get (J.insert m k v) j ≡ (if k == j then some v else J.get m j)
  get-insert m k j v =
      rw (J.get-entries (J.insert m k v) j, J.entries-insert m k v, J.get-entries m j)
        (lookup-upsert k j v (J.entries m))

  pub get-new : (k : String) → J.get J.new k ≡ none
  get-new k = rw (J.get-entries J.new k, J.entries-new)
