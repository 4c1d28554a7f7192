-- ===== src/App/Get/Run.antt =====
-- crates/heyl-app/src/get.rs: the command, from the vaults in scope to what is printed.
pub mod Outcome
use heyl.Prelude.{
  ℕ, String, Bool, true, false, Option, List, [], ◌∷◌, ◌++◌, map, keep, length, if◌then◌else◌, not,
}
use heyl.Prelude.Results.{Result, ok, err, ok_or, ◌>>=◌}
use heyl.Json.{Json}
use heyl.Domain.Ids.{Uuids}
use heyl.Domain.Time.{Jiff}
use heyl.Domain.Sync.{SyncSnapshot, VaultSummary}
use heyl.Vault.Login.{Login, Bucket, liveness, logins}
use heyl.App.Error.{AppError, no_such_login}
use heyl.App.Get.Query.{
  Query, VaultSelector, any_vault, LoginSelector, all_fields, field_name, field_id, FieldSelector,
}
use heyl.App.Get.Fields.{Opener, LoginView, view, field_by_name, field_by_id}
use heyl.App.Get.Search.{Candidate, Opened, tier, login_matches, rank, resolve_scope}

pub data Selection : Type 0 where
  one_value : String → Selection
  whole_login : LoginView → Selection

pub record Located : Type 0 where
  pub match_count : ℕ
  pub liveness : Bucket
  pub selection : Selection

-- `open_vault` unlocks, reads and folds one vault; `lower` is `str::to_lowercase`.
module _ (J : Json) (U : Uuids) (T : Jiff) (O : Opener) (lower : String → String)
    (open_vault : VaultSummary U → Result (AppError U) (Opened J O)) where
  -- The matching logins of one opened vault.
  unfoldable pub matching : LoginSelector U → VaultSummary U → Opened J O → List (Candidate U O)
  unfolding tier
  matching selector v opened =
      map
        (λ login. record { tier = tier v.vault_type; login = login; protected = opened.protected })
        (keep (λ login. login_matches U lower login selector) (logins J U opened.document))

  -- A vault that does not open is skipped where it was not named, and fatal where it was.
  unfoldable pub gather :
      Bool → LoginSelector U → List (VaultSummary U) → Result (AppError U) (List (Candidate U O))
  unfolding matching
  gather named selector [] = ok []
  gather named selector (v ∷ rest) =
      let later = gather named selector rest in
      elim (open_vault v) [
        | ok opened ↦ do more ← later; ok (matching selector v opened ++ more)
        | err e ↦ if named then err e else later
      ]

  is_any : VaultSelector U → Bool
  is_any any_vault = true
  is_any _ = false

  unfoldable pub select : Login U → FieldSelector U → O.Key → Result (AppError U) Selection
  select login all_fields key = do found ← view U O login key; ok (whole_login found)
  select login (field_name name) key = do
    value ← field_by_name U O login name key
    ok (one_value value)
  select login (field_id id) key = do value ← field_by_id U O login id key; ok (one_value value)

  -- The command, once the session is unlocked.
  unfoldable pub run : SyncSnapshot U T → Query U → Result (AppError U) Located
  unfolding resolve_scope gather rank select is_any
  run sync query = do
    scope ← resolve_scope J U T O lower open_vault sync query.vault
    candidates ← gather (not (is_any query.vault)) query.login scope
    chosen ← ok_or no_such_login (rank candidates)
    selection ← select chosen.login query.field chosen.protected
    ok (record {
      match_count = length candidates;
      liveness = liveness chosen.login;
      selection = selection;
    })
