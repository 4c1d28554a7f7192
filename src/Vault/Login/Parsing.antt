-- ===== src/Vault/Login/Parsing.antt =====
-- What the parser makes of a login vault: where each login and each field of it comes from.
use heyl.Prelude.{
  ◌≡◌, sym, ◌∙◌, ap, String, true, false, Option, none, some, List, ◌>>=◌, arith, In, In-filter_map,
  filter_map-In, lookup_sound, lookup-eq-some_of_In, Bool-cases, Option-cases, inl, inr,
}
use heyl.Prelude.Results.{to_option}
use heyl.Json.{Json, member_str, member_bool}
use heyl.Domain.Ids.{login as login_kind, Uuids, LoginId, parse}
use heyl.Vault.Document.{Document}
use heyl.Vault.Login.{
  Login, CustomField, FieldValue, plain, protected, Protected, or_false, parse_login,
  parse_custom_field, parse_custom_fields, parse_field_value, parse_protected, logins,
}

chained :
    {A B : Type 0} (o : Option A) (f : A → Option B) (wrap : B → FieldValue) {value : FieldValue}
    → (o >>= λ a. f a >>= λ b. some (wrap b)) ≡ some value
    → (b : B) × ((o >>= f) ≡ some b) × (value ≡ wrap b)
chained none f wrap h = ground arith
chained (some a) f wrap h = elim (Option-cases (f a)) [
  | inl e ↦ let r = (rw e at h) in ground arith
  | inr (b, e) ↦ (b, e, some_inj (sym h ∙ rw e))
]
  where
    some_inj : {x y : FieldValue} → some x ≡ some y → x ≡ y
    some_inj h = cc

plain_inj : {a b : String} → plain a ≡ plain b → a ≡ b
plain_inj e = cc

protected_inj : {a b : Protected} → protected a ≡ protected b → a ≡ b
protected_inj e = cc

module _ (J : Json) (U : Uuids) where
  -- How the stored object of a field accounts for the field.
  abbrev pub IsStoredAs : CustomField U → J.Map → Type 0
  IsStoredAs field obj =
      (field.id ≡ (member_str J obj "id" >>= λ s. to_option (parse U s)))
      × ((text : String)
          → field.value ≡ plain text
          → (or_false (member_bool J obj "protected") ≡ false)
            × (member_str J obj "value" ≡ some text))
      × ((sealed : Protected)
          → field.value ≡ protected sealed
          → (or_false (member_bool J obj "protected") ≡ true)
            × ((J.get obj "value" >>= parse_protected J U) ≡ some sealed))

  parse_field_value-stored :
      (obj : J.Map) (value : FieldValue)
      → parse_field_value J U obj ≡ some value
      → ((text : String)
          → value ≡ plain text
          → (or_false (member_bool J obj "protected") ≡ false)
            × (member_str J obj "value" ≡ some text))
        × ((sealed : Protected)
            → value ≡ protected sealed
            → (or_false (member_bool J obj "protected") ≡ true)
              × ((J.get obj "value" >>= parse_protected J U) ≡ some sealed))
  unfolding parse_field_value
  parse_field_value-stored obj value h =
      elim (Bool-cases (or_false (member_bool J obj "protected"))) [
        | inl e ↦
            let read = (rw (parse_field_value, e) at h) in
            let sealed_value = chained (J.get obj "value") (parse_protected J U) protected read in
            (
              λ text v. ground (arith, sealed_value.2),
              λ sealed v. (e, sealed_value.1 ∙ ap some (protected_inj (sym sealed_value.2 ∙ v))),
            )
        | inr e ↦
            let read = (rw (parse_field_value, e) at h) in
            let text_value = chained (some obj) (λ o. member_str J o "value") plain read in
            (
              λ text v. (e, text_value.1 ∙ ap some (plain_inj (sym text_value.2 ∙ v))),
              λ sealed v. ground (arith, text_value.2),
            )
      ]

  field_of_value :
      (stored : J.Value) (field : CustomField U)
      → parse_custom_field J U stored ≡ some field
      → (obj : J.Map) × (J.as_object stored ≡ some obj) × IsStoredAs field obj
  unfolding parse_custom_field
  field_of_value stored field h = elim (Option-cases (J.as_object stored)) [
    | inl e ↦ let r = (rw (parse_custom_field, e) at h) in ground arith
    | inr (obj, e) ↦ elim (Option-cases (parse_field_value J U obj)) [
      | inl n ↦ let r = (rw (parse_custom_field, e, n) at h) in ground arith
      | inr (value, n) ↦
          let r = some_field (rw (parse_custom_field, e, n) at h) in
          let read = parse_field_value-stored obj value n in
          (
            obj,
            e,
            (
              ap (λ f. f.id) (sym r),
              λ text v. read.0 text (ap (λ f. f.value) r ∙ v),
              λ sealed v. read.1 sealed (ap (λ f. f.value) r ∙ v),
            ),
          )
    ]
  ]
    where
      some_field : {x y : CustomField U} → some x ≡ some y → x ≡ y
      some_field h = cc

  -- Every custom field of a login stands in the stored array: its id is the stored one or none, a plain
  -- value is the stored text where the flag is not set, and a sealed value the stored ciphertext where
  -- it is.
  parse_custom_fields_origin :
      (value : Option J.Value) (field : CustomField U)
      → In field (parse_custom_fields J U value)
      → (fields : List J.Value) × ((value >>= J.as_array) ≡ some fields)
        × (stored : J.Value) × In stored fields
        × (obj : J.Map) × (J.as_object stored ≡ some obj)
        × IsStoredAs field obj
  unfolding parse_custom_fields
  parse_custom_fields_origin value field m = elim (Option-cases (value >>= J.as_array)) [
    | inl e ↦ elim (rw (parse_custom_fields, e) at m) [ ]
    | inr (fields, e) ↦
        let from =
          In-filter_map (parse_custom_field J U) fields field (rw (parse_custom_fields, e) at m) in
        let read = field_of_value from.0 field from.2 in
        (fields, e, from.0, from.1, read.0, read.1, read.2)
  ]

  -- The entries of the list of logins.
  abbrev pub stored_logins : Document J → Option J.Map
  stored_logins document = J.get document.content "logins" >>= J.as_object

  some_login : {x y : Login U} → some x ≡ some y → x ≡ y
  some_login h = cc

  -- The identifier and the two flags of a login.
  abbrev pub IsReadFrom : Login U → LoginId U → J.Map → Type 0
  IsReadFrom login id obj =
      (login.id ≡ id)
      × (login.is_deleted ≡ or_false (member_bool J obj "isDeleted"))
      × (login.is_archived ≡ or_false (member_bool J obj "isArchived"))

  parse_login-some :
      (key : String) (element : J.Value) (id : LoginId U) (obj : J.Map)
      → to_option (parse U key) ≡ some id
      → J.as_object element ≡ some obj
      → (login : Login U) × (parse_login J U key element ≡ some login) × IsReadFrom login id obj
  unfolding parse_login
  parse_login-some key element id obj p o = elim (Option-cases (parse_login J U key element)) [
    | inl e ↦ let r = (rw (parse_login, p, o) at e) in ground arith
    | inr (login, e) ↦
        let r = some_login (rw (parse_login, p, o) at e) in
        (
          login,
          e,
          (ap (λ l. l.id) (sym r), ap (λ l. l.is_deleted) (sym r), ap (λ l. l.is_archived) (sym r)),
        )
  ]

  parse_login-id :
      (key : String) (element : J.Value) (login : Login U)
      → parse_login J U key element ≡ some login
      → to_option (parse U key) ≡ some login.id
  unfolding parse_login
  parse_login-id key element login h =
      elim (Option-cases (to_option (parse U {k = login_kind} key))) [
        | inl e ↦ let r = (rw (parse_login, e) at h) in ground arith
        | inr (id, e) ↦ elim (Option-cases (J.as_object element)) [
          | inl n ↦ let r = (rw (parse_login, e, n) at h) in ground arith
          | inr (obj, n) ↦ e ∙ ap some (ap (λ l. l.id) (some_login (rw (parse_login, e, n) at h)))
        ]
      ]

  -- A login is read from the entry whose key spells its id, and each entry with an identifier for a key
  -- and an object for a value is read.
  logins_entries :
      (document : Document J) (map : J.Map)
      → stored_logins document ≡ some map
      → ((login : Login U)
          → In login (logins J U document)
          → (key : String) × (element : J.Value) × (J.get map key ≡ some element)
            × (to_option (parse U key) ≡ some login.id)
            × (parse_login J U key element ≡ some login))
        × ((key : String) (element : J.Value) (id : LoginId U) (obj : J.Map)
            → J.get map key ≡ some element
            → to_option (parse U key) ≡ some id
            → J.as_object element ≡ some obj
            → (login : Login U) × IsReadFrom login id obj × In login (logins J U document))
  unfolding logins parse_login
  logins_entries document map m = (
    λ login i.
        let from =
          In-filter_map (λ entry. parse_login J U entry.0 entry.1) (J.entries map) login
            (rw (logins, m) at i) in
        let key = from.0.0 in
        let element = from.0.1 in
        (
          key,
          element,
          J.get-entries map key
              ∙ lookup-eq-some_of_In key element (J.entries map) (J.entries-HasUniqueKeys map)
                  from.1,
          parse_login-id key element login from.2,
          from.2,
        ),
    λ key element id obj g p o.
        let entry = lookup_sound key element (J.entries map) (sym (J.get-entries map key) ∙ g) in
        let parsed = parse_login-some key element id obj p o in
        (
          parsed.0,
          parsed.2,
          rw (logins, m)
              (filter_map-In (λ entry. parse_login J U entry.0 entry.1) (J.entries map)
                (key, element) parsed.0 entry parsed.1),
        ),
  )
