-- ===== src/Tests/Logins.antt =====
-- The logins of one folded vault.
use heyl.Prelude.{◌≡◌, refl, true, none, some, [], ◌∷◌, In, inl, filter_map}
use heyl.Json.Sample.{Tree, Fields, obj, text, list, flag, field, end, cons, nil, sample}
use heyl.Vault.Document.{Document, heymerge}
use heyl.Vault.Login.{
  CustomField, plain, parse_custom_fields, parse_custom_field, parse_field_value,
}
use heyl.Tests.Samples.{tags, ash_text}

-- A field in the clear, without an identifier, and one that lacks its value.
abbrev pin_field : Tree
pin_field = obj (field "name" (text "pin") (field "value" (text "1234") end))

abbrev stored_fields : Tree
stored_fields = list (cons pin_field (cons (obj (field "name" (text "empty") end)) nil))

abbrev pin : CustomField tags
pin = record { id = none; name = "pin"; value = plain "1234" }

abbrev bank : Fields
bank =
    field "displayHeadline" (text "bank")
      (field "isDeleted" (flag true) (field "customFields" stored_fields end))

abbrev stored : Fields
stored = field ash_text (obj bank) (field "not-a-uuid" (obj bank) end)

abbrev vault : Document sample
vault = record {
  format = heymerge;
  document_type = "login";
  version = 2;
  content = field "logins" (obj stored) end;
}

read_fields : parse_custom_fields sample tags (some stored_fields) ≡ pin ∷ []
unfolding parse_custom_fields parse_custom_field parse_field_value filter_map
read_fields = refl

pin_read : In pin (parse_custom_fields sample tags (some stored_fields))
unfolding parse_custom_fields parse_custom_field parse_field_value filter_map
pin_read = inl refl
