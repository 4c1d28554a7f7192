-- ===== src/Vault/Login.antt =====
-- crates/heyl-vault/src/login.rs: the logins of a folded login vault.
pub mod Parsing
use heyl.Prelude.{
  String, Bool, true, false, Option, none, some, List, [], ◌∷◌, ◌>>=◌, not, ◌||◌, filter_map, any,
  find, ◌==◌, if◌then◌else◌,
}
use heyl.Prelude.Results.{to_option}
use heyl.Json.{Json, member_str, member_bool}
use heyl.Domain.Ids.{Uuids, LoginId, FieldId, parse, id_eq}
use heyl.Vault.Document.{Document}

-- A secret that is still sealed, as base64.
pub record Protected : Type 0 where
  pub encrypted : String
  pub is_empty : Bool

pub data FieldValue : Type 0 where
  plain : String → FieldValue
  protected : Protected → FieldValue

pub record CustomField (U : Uuids) : Type 0 where
  pub id : Option (FieldId U)
  pub name : String
  pub value : FieldValue

pub data Bucket : Type 0 where
  live archived deleted : Bucket

pub record Login (U : Uuids) : Type 0 where
  pub id : LoginId U
  pub display_headline : Option String
  pub title : String
  pub username : String
  pub note : String
  pub websites : List String
  pub tags : List String
  pub password : Option Protected
  pub custom_fields : List (CustomField U)
  pub created : Option String
  pub edited : Option String
  pub change_time : Option String
  pub is_deleted : Bool
  pub is_archived : Bool

-- `unwrap_or_default()` of a text, and `unwrap_or(false)`.
abbrev pub or_blank : Option String → String
or_blank none = ""
or_blank (some s) = s

abbrev pub or_false : Option Bool → Bool
or_false none = false
or_false (some b) = b

abbrev pub or_else {ℓ} : {A : Type ℓ} → Option A → Option A → Option A
or_else none other = other
or_else (some a) other = some a

module _ {U : Uuids} where
  unfoldable pub liveness : Login U → Bucket
  liveness login =
      if not login.is_deleted then live else (if login.is_archived then archived else deleted)

  unfoldable pub recency : Login U → String
  recency login = or_blank (or_else login.change_time login.edited)

  -- `lower` is `str::to_lowercase`.
  unfoldable pub matches_name : (lower : String → String) → Login U → String → Bool
  matches_name lower login needle =
      let needle = lower needle in
      elim login.display_headline [ none ↦ false | some h ↦ lower h == needle ]
      || (lower login.title == needle)
      || any (λ w. lower w == needle) login.websites

  has_id : FieldId U → CustomField U → Bool
  has_id id field = elim field.id [ none ↦ false | some found ↦ id_eq U found id ]

  unfoldable pub custom_field_by_id : Login U → FieldId U → Option (CustomField U)
  unfolding has_id
  custom_field_by_id login id = find (has_id id) login.custom_fields

  unfoldable pub custom_field_by_name : Login U → String → Option (CustomField U)
  custom_field_by_name login name = find (λ field. field.name == name) login.custom_fields

module _ (J : Json) (U : Uuids) where
  string : J.Map → String → String
  string obj key = or_blank (member_str J obj key)

  -- An empty text reads as a missing one.
  string_opt : J.Map → String → Option String
  string_opt obj key = member_str J obj key >>= λ s. if s == "" then none else some s

  texts_of : Option (List J.Value) → List String
  texts_of none = []
  texts_of (some values) = filter_map J.as_str values

  string_array : J.Map → String → List String
  unfolding texts_of
  string_array obj key = texts_of (J.get obj key >>= J.as_array)

  unfoldable pub parse_protected : J.Value → Option Protected
  parse_protected value = do
    obj ← J.as_object value
    encrypted ← member_str J obj "encrypted"
    some (record { encrypted = encrypted; is_empty = or_false (member_bool J obj "isEmpty") })

  -- The flag decides how the value is read; without a flag it is plain.
  unfoldable pub parse_field_value : J.Map → Option FieldValue
  unfolding parse_protected
  parse_field_value obj =
      if or_false (member_bool J obj "protected")
      then (do value ← J.get obj "value"; sealed ← parse_protected value; some (protected sealed))
      else (do text ← member_str J obj "value"; some (plain text))

  unfoldable pub parse_custom_field : J.Value → Option (CustomField U)
  unfolding string parse_field_value
  parse_custom_field value = do
    obj ← J.as_object value
    field_value ← parse_field_value obj
    some (record {
      id = member_str J obj "id" >>= (λ s. to_option (parse U s));
      name = string obj "name";
      value = field_value;
    })

  fields_of : Option (List J.Value) → List (CustomField U)
  fields_of none = []
  fields_of (some fields) = filter_map parse_custom_field fields

  unfoldable pub parse_custom_fields : Option J.Value → List (CustomField U)
  unfolding fields_of
  parse_custom_fields value = fields_of (value >>= J.as_array)

  unfoldable pub parse_login : String → J.Value → Option (Login U)
  unfolding string string_opt string_array parse_custom_fields
  parse_login id element = do
    id ← to_option (parse U id)
    obj ← J.as_object element
    some (record {
      id = id;
      display_headline = string_opt obj "displayHeadline";
      title = string obj "title";
      username = string obj "username";
      note = string obj "note";
      websites = string_array obj "websites";
      tags = string_array obj "tags";
      password = J.get obj "password" >>= parse_protected;
      custom_fields = parse_custom_fields (J.get obj "customFields");
      created = string_opt obj "creationTime";
      edited = string_opt obj "editTime";
      change_time = string_opt obj "changeTime";
      is_deleted = or_false (member_bool J obj "isDeleted");
      is_archived = or_false (member_bool J obj "isArchived");
    })

  logins_of : Option J.Map → List (Login U)
  logins_of none = []
  logins_of (some map) = filter_map (λ entry. parse_login entry.0 entry.1) (J.entries map)

  unfoldable pub logins : Document J → List (Login U)
  unfolding logins_of
  logins document = logins_of (J.get document.content "logins" >>= J.as_object)
