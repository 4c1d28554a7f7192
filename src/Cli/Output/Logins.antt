-- ===== src/Cli/Output/Logins.antt =====
-- crates/heyl-cli/src/output.rs: what `get` prints.
use heyl.Prelude.{
  ℕ, ◌+◌, String, Bool, true, Option, none, some, List, [], ◌∷◌, ◌++◌, map, any, ltb, eqb,
  if◌then◌else◌,
}
use heyl.Prelude.Codes.{codes}
use heyl.Prelude.Decimal.{print}
use heyl.Json.{Json}
use heyl.App.Get.Fields.{LoginView, join}
use heyl.App.Get.Run.{Located, Selection, one_value, whole_login}
use heyl.Cli.Output.{
  Format, Printed, out_line, err_line, out_text, Rendering, is_json, emit, spaces, json_object,
}
use Prim.Native.Char.{code}
use Prim.Native.String.{◌++◌ as ◌+++◌}

-- The bytes of a code point in UTF-8, for `str::len`.
unfoldable pub utf8_length : ℕ → ℕ
utf8_length c = if ltb c 0x80 then 1 else if ltb c 0x800 then 2 else if ltb c 0x10000 then 3 else 4

text_length : List ℕ → ℕ
unfolding utf8_length
text_length [] = 0
text_length (c ∷ cs) = utf8_length c + text_length cs

-- `replace('\n', ..)`.
unfoldable pub replace_newline : String → String → String
replace_newline with_text String.[] = ""
replace_newline with_text (String.◌∷◌ c s) =
    let rest = replace_newline with_text s in
    if eqb (code c) 10 then with_text +++ rest else String.◌∷◌ c rest

-- A value of several lines is indented past its key.
unfoldable pub field_line : String → String → String
unfolding text_length replace_newline spaces
field_line key value =
    if any (λ c. eqb c 10) (codes value)
    then key +++ ": " +++ replace_newline ("\n" +++ spaces (text_length (codes key) + 2)) value
    else key +++ ": " +++ value

push_some : String → Option String → List String
unfolding field_line
push_some key none = []
push_some key (some value) = field_line key value ∷ []

push_list : String → List String → List String
unfolding field_line join
push_list key [] = []
push_list key (x ∷ xs) = field_line key (join (x ∷ xs)) ∷ []

push_flag : String → Bool → List String
unfolding field_line
push_flag key b = if b then field_line key "true" ∷ [] else []

unfoldable pub login_lines : LoginView → List String
unfolding field_line push_some push_list push_flag
login_lines view =
    field_line "id" view.id ∷ push_some "name" view.name
    ++ push_some "title" view.title
    ++ push_some "username" view.username
    ++ push_some "password" view.password
    ++ push_list "website" view.websites
    ++ push_some "note" view.note
    ++ push_list "labels" view.labels
    ++ map (λ kv. field_line kv.0 kv.1) view.custom
    ++ push_some "created" view.created
    ++ push_some "edited" view.edited
    ++ push_flag "deleted" view.is_deleted
    ++ push_flag "archived" view.is_archived

module _ (J : Json) where
  unfoldable pub insert_some : String → Option J.Value → J.Map → J.Map
  insert_some key none doc = doc
  insert_some key (some v) doc = J.insert doc key v

  unfoldable pub text_value : Option String → Option J.Value
  text_value none = none
  text_value (some s) = some (J.string s)

  unfoldable pub texts_value : List String → Option J.Value
  texts_value [] = none
  texts_value (x ∷ xs) = some (J.array (map J.string (x ∷ xs)))

  unfoldable pub flag_value : Bool → Option J.Value
  flag_value b = if b then some (J.boolean true) else none

  unfoldable pub fields_value : List (String × String) → Option J.Value
  unfolding json_object
  fields_value [] = none
  fields_value (f ∷ fs) = some (
      J.array (
        map (λ kv. json_object J (("name", J.string kv.0) ∷ ("value", J.string kv.1) ∷ []))
          (f ∷ fs)))

  -- The members of a login's document, in order; what the login does not have is left out.
  unfoldable pub login_members : LoginView → List (String × Option J.Value)
  unfolding text_value texts_value flag_value fields_value
  login_members view =
      ("id", some (J.string view.id))
      ∷ ("displayHeadline", text_value view.name)
      ∷ ("title", text_value view.title)
      ∷ ("username", text_value view.username)
      ∷ ("password", text_value view.password)
      ∷ ("websites", texts_value view.websites)
      ∷ ("note", text_value view.note)
      ∷ ("tags", texts_value view.labels)
      ∷ ("customFields", fields_value view.custom)
      ∷ ("creationTime", text_value view.created)
      ∷ ("editTime", text_value view.edited)
      ∷ ("changeTime", text_value view.change_time)
      ∷ ("isDeleted", flag_value view.is_deleted)
      ∷ ("isArchived", flag_value view.is_archived)
      ∷ []

  unfoldable pub insert_members : J.Map → List (String × Option J.Value) → J.Map
  unfolding insert_some
  insert_members doc [] = doc
  insert_members doc ((k, v) ∷ members) = insert_members (insert_some k v doc) members

  unfoldable pub login_document : LoginView → J.Value
  unfolding insert_members login_members
  login_document view = J.object (insert_members J.new (login_members view))

module _ (J : Json) (R : Rendering J) (is_terminal : Bool) where
  -- Raw, with a newline only at a terminal.
  unfoldable pub get_value : String → Format → List Printed
  unfolding emit is_json
  get_value value format =
      if is_json format
      then emit J R format (J.string value)
      else if is_terminal
      then out_text value ∷ out_line "" ∷ []
      else out_text value ∷ []

  unfoldable pub get_login : LoginView → Format → List Printed
  unfolding emit is_json login_document login_lines
  get_login view format =
      if is_json format
      then emit J R format (login_document J view)
      else map out_line (login_lines view)

  get_selection : Selection → Format → List Printed
  unfolding get_value get_login
  get_selection (one_value value) format = get_value value format
  get_selection (whole_login view) format = get_login view format

  unfoldable pub get : Located → Format → List Printed
  unfolding get_selection
  get located format =
      (if ltb 1 located.match_count
        then err_line (
            "heyl: "
            +++ print located.match_count
            +++ " logins match; using the most recently changed. Pass --login-id to pick one exactly.")
          ∷ []
        else [])
      ++ get_selection located.selection format
