-- ===== src/Domain/Ids.antt =====
-- crates/heyl-domain/src/ids.rs: identifiers that cannot be mistaken for one another.
use heyl.Prelude.{◌≡◌, refl, ap, true, arith, String, Bool, Option, some, decided}
use heyl.Prelude.Results.{to_option, Result, ok, ok_or, ◌>>=◌}

-- The crate `uuid`: parsing takes several spellings, printing gives the canonical one.
pub record Uuids : Type 1 where
  pub Uuid : Type 0
  pub parse_str : String → Option Uuid
  pub to_string : Uuid → String
  pub uuid_discrete : Discrete Uuid
  pub parse_str-to_string : (u : Uuid) → parse_str (to_string u) ≡ some u

-- What an identifier names: one kind for each of the newtypes.
pub data IdKind : Type 0 where
  authenticator profile vault commit session login field : IdKind

pub record ParseIdError : Type 0 where
  pub value : String

-- A newtype over a UUID; the kind keeps the newtypes apart.
pub record TypedId (U : Uuids) (k : IdKind) : Type 0 where
  pub uuid : U.Uuid

abbrev pub AuthenticatorId : Uuids → Type 0
AuthenticatorId U = TypedId U authenticator

abbrev pub ProfileId : Uuids → Type 0
ProfileId U = TypedId U profile

abbrev pub VaultId : Uuids → Type 0
VaultId U = TypedId U vault

abbrev pub CommitId : Uuids → Type 0
CommitId U = TypedId U commit

abbrev pub SessionId : Uuids → Type 0
SessionId U = TypedId U session

abbrev pub LoginId : Uuids → Type 0
LoginId U = TypedId U login

abbrev pub FieldId : Uuids → Type 0
FieldId U = TypedId U field

module _ (U : Uuids) {k : IdKind} where
  abbrev wrap : String → Option U.Uuid → Result ParseIdError (TypedId U k)
  wrap s u = do uuid ← ok_or (record { value = s }) u; ok (record { uuid = uuid })

  abbrev pub parse : String → Result ParseIdError (TypedId U k)
  parse s = wrap s (U.parse_str s)

  abbrev pub show : TypedId U k → String
  show id = U.to_string id.uuid

  abbrev pub id_eq : TypedId U k → TypedId U k → Bool
  id_eq a b = decided (U.uuid_discrete a.uuid b.uuid)

module _ (U : Uuids) {k : IdKind} where
  pub id_eq_refl : (id : TypedId U k) → id_eq U id id ≡ true
  id_eq_refl id = elim (U.uuid_discrete id.uuid id.uuid) as (λ d. decided d ≡ true) [
    | yes p ↦ refl
    | no n ↦ elim (n refl) [ ]
  ]

  pub id_eq_sound : (a b : TypedId U k) → id_eq U a b ≡ true → a ≡ b
  id_eq_sound a b e = go (U.uuid_discrete a.uuid b.uuid) e
    where
      go : (d : Dec (a.uuid ≡ b.uuid)) → decided d ≡ true → a ≡ b
      go (yes p) e = ap (λ u. record { uuid = u }) p
      go (no n) e = ground arith

  -- A printed identifier parses back.
  pub parse-show : (id : TypedId U k) → to_option (parse U (show U id)) ≡ some id
  parse-show id = rw (U.parse_str-to_string id.uuid)
