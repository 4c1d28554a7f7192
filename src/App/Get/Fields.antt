-- ===== src/App/Get/Fields.antt =====
-- crates/heyl-app/src/get.rs: the fields of a login, with its secrets opened.
pub mod Reading
use heyl.Prelude.{
  ℕ, String, Bool, true, false, Option, none, some, List, [], ◌∷◌, if◌then◌else◌, ◌==◌,
}
use heyl.Prelude.Trim.{trim}
use heyl.Prelude.Results.{Result, ok, err, ok_or, map_err, ◌>>=◌}
use heyl.Domain.Ids.{Uuids, FieldId, show}
use heyl.Vault.Login.{
  or_blank, Login, CustomField, FieldValue, plain, protected, Protected, custom_field_by_id,
  custom_field_by_name,
}
use heyl.Domain.Error.{CryptoError}
use heyl.App.Error.{AppError, no_such_field, corrupt_protected_value, crypto_failure}
use Prim.Native.String.{◌++◌}

-- What opens a sealed value: base64, the symmetric cipher under the vault's key, and the reading of
-- bytes as UTF-8 with replacements.
pub record Opener : Type 1 where
  pub Key : Type 0
  pub base64_decode : String → Option (List ℕ)
  pub decrypt : Key → List ℕ → Result CryptoError (List ℕ)
  pub from_utf8_lossy : List ℕ → String

-- `join(", ")`.
unfoldable pub join : List String → String
join [] = ""
join (x ∷ []) = x
join (x ∷ y ∷ l) = x ++ ", " ++ join (y ∷ l)

unfoldable pub non_empty : String → Option String
non_empty s = if s == "" then none else some s

pub record LoginView : Type 0 where
  pub id : String
  pub name : Option String
  pub title : Option String
  pub username : Option String
  pub password : Option String
  pub websites : List String
  pub note : Option String
  pub labels : List String
  pub custom : List (String × String)
  pub created : Option String
  pub edited : Option String
  pub change_time : Option String
  pub is_deleted : Bool
  pub is_archived : Bool

module _ (U : Uuids) (O : Opener) where
  -- An empty value needs no key.
  unfoldable pub open_value : O.Key → Protected → Result (AppError U) String
  open_value key value = if value.is_empty then ok "" else (do
    blob ← ok_or corrupt_protected_value (O.base64_decode (trim value.encrypted))
    plaintext ← map_err crypto_failure (O.decrypt key blob)
    ok (O.from_utf8_lossy plaintext))

  unfoldable pub resolve : FieldValue → O.Key → Result (AppError U) String
  unfolding open_value
  resolve (plain s) key = ok s
  resolve (protected p) key = open_value key p

  open_password : O.Key → Option Protected → Result (AppError U) String
  open_password key none = ok ""
  open_password key (some p) = open_value key p

  -- The built-in fields that a name can pick; nothing where the name is none of them.
  unfoldable pub builtin : Login U → String → O.Key → Result (AppError U) (Option String)
  unfolding open_password join
  builtin login name key =
      if name == "id"
      then ok (some (show U login.id))
      else if name == "name"
      then ok (some (or_blank login.display_headline))
      else if name == "title"
      then ok (some login.title)
      else if name == "username"
      then ok (some login.username)
      else if name == "note"
      then ok (some login.note)
      else if name == "website"
      then ok (some (join login.websites))
      else if name == "labels"
      then ok (some (join login.tags))
      else if name == "created"
      then ok (some (or_blank login.created))
      else if name == "edited"
      then ok (some (or_blank login.edited))
      else if name == "password"
      then (do value ← open_password key login.password; ok (some value))
      else ok none

  resolve_found : O.Key → Option (CustomField U) → Result (AppError U) String
  unfolding resolve
  resolve_found key none = err no_such_field
  resolve_found key (some field) = resolve field.value key

  or_custom : Login U → String → O.Key → Option String → Result (AppError U) String
  unfolding resolve_found
  or_custom login name key none = resolve_found key (custom_field_by_name login name)
  or_custom login name key (some value) = ok value

  -- A built-in field wins over a custom field of its name.
  unfoldable pub field_by_name : Login U → String → O.Key → Result (AppError U) String
  unfolding builtin or_custom
  field_by_name login name key = do value ← builtin login name key; or_custom login name key value

  unfoldable pub field_by_id : Login U → FieldId U → O.Key → Result (AppError U) String
  unfolding resolve_found
  field_by_id login id key = resolve_found key (custom_field_by_id login id)

  unfoldable pub resolve_all :
      List (CustomField U) → O.Key → Result (AppError U) (List (String × String))
  unfolding resolve
  resolve_all [] key = ok []
  resolve_all (field ∷ fields) key = do
    value ← resolve field.value key
    rest ← resolve_all fields key
    ok ((field.name, value) ∷ rest)

  view_password : O.Key → Option Protected → Result (AppError U) (Option String)
  unfolding open_value non_empty
  view_password key none = ok none
  view_password key (some p) = do value ← open_value key p; ok (non_empty value)

  unfoldable pub view : Login U → O.Key → Result (AppError U) LoginView
  unfolding view_password resolve_all non_empty
  view login key = do
    password ← view_password key login.password
    custom ← resolve_all login.custom_fields key
    ok (record {
      id = show U login.id;
      name = login.display_headline;
      title = non_empty login.title;
      username = non_empty login.username;
      password = password;
      websites = login.websites;
      note = non_empty login.note;
      labels = login.tags;
      custom = custom;
      created = login.created;
      edited = login.edited;
      change_time = login.change_time;
      is_deleted = login.is_deleted;
      is_archived = login.is_archived;
    })
