-- ===== src/Tests/Samples.antt =====
-- Concrete crates for the tests: three identifiers, a clock of two instants, and a codec for one blob.
use heyl.Prelude.{
  ℕ, ◌*◌, ◌/◌, ◌%◌, ◌≡◌, refl, sym, String, Option, none, some, [], ◌∷◌, ◌==◌, if◌then◌else◌,
  Bool-cases, inl, inr, eq_iff, arith,
}
use heyl.Prelude.Int.{ℤ, pos}
use heyl.Json.Sample.{Tree, Fields, obj, text, num, field, end, sample}
use heyl.Domain.Ids.{Uuids}
use heyl.Domain.Time.{DateTime, Jiff}
use heyl.Vault.Document.{Bytes, Codec, IsLawful}

pub data Tag : Type 0 where
  ash birch cedar : Tag

unfoldable pub tag_discrete : Discrete Tag
tag_discrete ash ash = yes refl
tag_discrete birch birch = yes refl
tag_discrete cedar cedar = yes refl
tag_discrete ash birch = no (λ e. cc)
tag_discrete ash cedar = no (λ e. cc)
tag_discrete birch ash = no (λ e. cc)
tag_discrete birch cedar = no (λ e. cc)
tag_discrete cedar ash = no (λ e. cc)
tag_discrete cedar birch = no (λ e. cc)

abbrev pub ash_text : String
ash_text = "bbff21af-55d9-4288-b406-bb253c800001"

abbrev pub birch_text : String
birch_text = "bbff21af-55d9-4288-b406-bb253c800002"

abbrev pub cedar_text : String
cedar_text = "8eb04641-0c77-4fb0-8bca-78cb28050514"

abbrev tag_text : Tag → String
tag_text ash = ash_text
tag_text birch = birch_text
tag_text cedar = cedar_text

-- One of the identifiers has a second spelling.
abbrev pub tag_parse : String → Option Tag
tag_parse s =
    if s == ash_text
    then some ash
    else if s == birch_text
    then some birch
    else if s == "BBFF21AF-55D9-4288-B406-BB253C800002"
    then some birch
    else if s == cedar_text
    then some cedar
    else none

pub tag_parse-tag_text : (t : Tag) → tag_parse (tag_text t) ≡ some t
tag_parse-tag_text ash = refl
tag_parse-tag_text birch = refl
tag_parse-tag_text cedar = refl

abbrev pub tags : Uuids
tags = record {
  Uuid = Tag;
  parse_str = tag_parse;
  to_string = tag_text;
  uuid_discrete = tag_discrete;
  parse_str-to_string = tag_parse-tag_text;
}

-- The first identifier has one spelling.
pub ash_spelled : (s : String) → tag_parse s ≡ some ash → s ≡ ash_text
ash_spelled s h = elim (Bool-cases (s == ash_text)) [
  | inl e ↦ (eq_iff s ash_text).0 e
  | inr e ↦ elim (other_of (rw e at h)) [ ]
]
  where
    other_of :
        (if s == birch_text
            then some birch
            else if s == "BBFF21AF-55D9-4288-B406-BB253C800002"
            then some birch
            else if s == cedar_text
            then some cedar
            else none)
          ≡ some ash
        → ⊥
    other_of h = ground arith

-- The milliseconds since noon of one day.
abbrev pub noon_text : String
noon_text = "2026-09-10T12:00:00.000Z"

abbrev pub later_text : String
later_text = "2026-09-10T12:00:05.250Z"

abbrev noon_date : ℕ → DateTime
noon_date t = record {
  year = pos 2026;
  month = 9;
  day = 10;
  hour = 12;
  minute = 0;
  second = t / 1000;
}

abbrev instant_parse : String → Option ℕ
instant_parse s = if s == noon_text then some 0 else if s == later_text then some 5250 else none

abbrev instant_of : ℤ → Option ℕ
instant_of (pos n) = some n
instant_of _ = none

abbrev pub noon : Jiff
noon = record {
  Instant = ℕ;
  from_str = instant_parse;
  as_millisecond = pos;
  subsec_nanosecond = λ t. pos ((t % 1000) * 1_000_000);
  from_millisecond = instant_of;
  utc = noon_date;
}

-- The content of a vault with one list of one element.
abbrev pub one_element : String → String → String → Fields
one_element id name time =
    field "logins"
      (obj (field id (obj (field "title" (text name) (field "updateTime" (text time) end))) end))
      end

abbrev blob_value : Tree
blob_value = obj (
    field "type" (text "login")
      (field "version" (num 2) (field "content" (obj (one_element ash_text "bank" noon_text)) end)))

abbrev sample_to_vec : Tree → Option Bytes
sample_to_vec (obj m) = some (0x7b ∷ 0x7d ∷ [])
sample_to_vec _ = none

abbrev packed : Bytes → Option Bytes
packed p = some (7 ∷ p)

abbrev unpacked : Bytes → Option Bytes
unpacked [] = none
unpacked (_ ∷ p) = some p

abbrev pub codec : Codec sample
codec = record {
  to_vec = sample_to_vec;
  from_slice = λ p. some blob_value;
  compress = packed;
  decompress = unpacked;
}

some_inj : {a b : Bytes} → some a ≡ some b → a ≡ b
some_inj e = cc

pub codec-IsLawful : IsLawful sample codec
codec-IsLawful = record {
  decompress-compress = λ q c e. rw (some_inj (sym e));
  to_vec-object = λ m p e. (0x7d ∷ [], some_inj (sym e));
}
