-- ===== src/App/Get/Query.antt =====
-- crates/heyl-app/src/get.rs: the selectors, and the query that the flags make.
pub mod Flags
use heyl.Prelude.{String, Option, none, some}
use heyl.Prelude.Results.{Result, ok, err, map_err, ◌>>=◌}
use heyl.Domain.Ids.{Uuids, IdKind, TypedId, VaultId, LoginId, FieldId, parse}
use heyl.App.Error.{AppError, malformed_selector, conflicting_selectors, missing_login_selector}

pub data VaultSelector (U : Uuids) : Type 0 where
  any_vault : VaultSelector U
  vault_name : String → VaultSelector U
  vault_id : VaultId U → VaultSelector U

pub data LoginSelector (U : Uuids) : Type 0 where
  login_name : String → LoginSelector U
  login_id : LoginId U → LoginSelector U

pub data FieldSelector (U : Uuids) : Type 0 where
  all_fields : FieldSelector U
  field_name : String → FieldSelector U
  field_id : FieldId U → FieldSelector U

pub record Query (U : Uuids) : Type 0 where
  pub vault : VaultSelector U
  pub login : LoginSelector U
  pub field : FieldSelector U

module _ (U : Uuids) where
  -- An identifier out of a flag.
  flag_id : {k : IdKind} → String → String → Result (AppError U) (TypedId U k)
  flag_id what s = map_err (λ _. malformed_selector what) (parse U s)

  unfoldable pub vault_selector :
      Option String → Option String → Result (AppError U) (VaultSelector U)
  unfolding flag_id
  vault_selector (some name) (some id) = err (conflicting_selectors "--vault-name" "--vault-id")
  vault_selector (some name) none = ok (vault_name name)
  vault_selector none (some id) = do found ← flag_id "--vault-id" id; ok (vault_id found)
  vault_selector none none = ok any_vault

  unfoldable pub login_selector :
      Option String → Option String → Result (AppError U) (LoginSelector U)
  unfolding flag_id
  login_selector (some title) (some id) = err (conflicting_selectors "--login-title" "--login-id")
  login_selector (some title) none = ok (login_name title)
  login_selector none (some id) = do found ← flag_id "--login-id" id; ok (login_id found)
  login_selector none none = err missing_login_selector

  unfoldable pub field_selector :
      Option String → Option String → Result (AppError U) (FieldSelector U)
  unfolding flag_id
  field_selector (some name) (some id) = err (conflicting_selectors "--field-name" "--field-id")
  field_selector (some name) none = ok (field_name name)
  field_selector none (some id) = do found ← flag_id "--field-id" id; ok (field_id found)
  field_selector none none = ok all_fields

  unfoldable pub from_flags :
      (vault_name vault_id login_title login_id field_name field_id : Option String)
      → Result (AppError U) (Query U)
  unfolding vault_selector login_selector field_selector
  from_flags v_name v_id l_title l_id f_name f_id = do
    vault ← vault_selector v_name v_id
    login ← login_selector l_title l_id
    field ← field_selector f_name f_id
    ok (record { vault = vault; login = login; field = field })
