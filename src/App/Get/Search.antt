-- ===== src/App/Get/Search.antt =====
-- crates/heyl-app/src/get.rs: the vaults in scope, the logins that match, and the choice among them.
pub mod Ranking
pub mod Scope
use heyl.Prelude.{
  ℕ, compare, Ordering, String, Bool, true, false, Option, none, some, List, [], ◌∷◌, ◌++◌, map,
  keep, find, sort_by, first_of, or_then, length, if◌then◌else◌, ◌==◌, ◌>>=◌, not, ◌&&◌,
}
use heyl.Prelude.Results.{Result, ok, err, ok_or}
use heyl.Json.{Json, value_get}
use heyl.Domain.Ids.{Uuids, VaultId, id_eq, show}
use heyl.Domain.Time.{Jiff}
use heyl.Domain.Kinds.{VaultType, private_vault, team, inbox, organization_personal, holds_logins}
use heyl.Domain.Sync.{SyncSnapshot, VaultSummary, organization_name}
use heyl.Vault.Document.{Document}
use heyl.Vault.Login.{
  Login, Bucket, live, archived, deleted, liveness, recency, matches_name, logins, or_false,
}
use heyl.App.Error.{AppError, no_such_vault, no_such_login}
use heyl.App.Get.Query.{
  Query, VaultSelector, any_vault, vault_name, vault_id, LoginSelector, login_name, login_id,
  all_fields, field_name, field_id, FieldSelector,
}
use heyl.App.Get.Fields.{Opener, LoginView, view, field_by_name, field_by_id}
use Prim.Native.String.{compare as compare_text}

unfoldable pub tier : VaultType → ℕ
tier private_vault = 0
tier organization_personal = 1
tier team = 2
tier inbox = 3
tier _ = 255

-- `as u8`.
unfoldable pub bucket_rank : Bucket → ℕ
bucket_rank live = 0
bucket_rank archived = 1
bucket_rank deleted = 2

pub record Candidate (U : Uuids) (O : Opener) : Type 0 where
  pub tier : ℕ
  pub login : Login U
  pub protected : O.Key

pub record Opened (J : Json) (O : Opener) : Type 0 where
  pub document : Document J
  pub protected : O.Key

module _ (U : Uuids) where
  unfoldable pub login_matches : (lower : String → String) → Login U → LoginSelector U → Bool
  login_matches lower login (login_id id) = id_eq U login.id id
  login_matches lower login (login_name name) = matches_name lower login name

module _ {U : Uuids} {O : Opener} where
  -- Liveness, then the tier of the vault, then the latest change, then the printed identifier.
  unfoldable pub compare_candidates : Candidate U O → Candidate U O → Ordering
  compare_candidates a b =
      or_then
        (or_then
          (or_then (compare (bucket_rank (liveness a.login)) (bucket_rank (liveness b.login)))
            (compare a.tier b.tier))
          (compare_text (recency b.login) (recency a.login)))
        (compare_text (show U a.login.id) (show U b.login.id))

  unfoldable pub rank : List (Candidate U O) → Option (Candidate U O)
  unfolding compare_candidates
  rank candidates = first_of (sort_by compare_candidates candidates)

is_team : {U : Uuids} → VaultSummary U → Bool
is_team v = elim v.vault_type [ team ↦ true | _ ↦ false ]

is_named : Option String → String → Bool
is_named none wanted = false
is_named (some n) wanted = n == wanted

module _ {U : Uuids} {T : Jiff} where
  -- Every vault with logins, by tier.
  unfoldable pub login_vaults : SyncSnapshot U T → List (VaultSummary U)
  login_vaults sync =
      sort_by (λ a b. compare (tier a.vault_type) (tier b.vault_type))
        (keep (λ v. holds_logins v.vault_type) sync.vaults)

  -- The names that cost nothing: `private`, `inbox`, and that of an organisation.
  unfoldable pub free_name :
      (lower : String → String) → SyncSnapshot U T → VaultSummary U → Option String
  free_name lower sync v = elim v.vault_type [
    | private_vault ↦ some "private"
    | inbox ↦ some "inbox"
    | organization_personal ↦
        v.organization_id >>= (λ id. organization_name sync id) >>= (λ n. some (lower n))
    | _ ↦ none
  ]

-- `open_vault` unlocks, reads and folds one vault; `lower` is `str::to_lowercase`.
module _ (J : Json) (U : Uuids) (T : Jiff) (O : Opener) (lower : String → String)
    (open_vault : VaultSummary U → Result (AppError U) (Opened J O)) where
  -- The first name among the entries that are not deleted.
  unfoldable pub info_name : List (String × J.Value) → Option String
  info_name [] = none
  info_name ((_, e) ∷ rest) =
      let later = info_name rest in
      if or_false (value_get J e "isDeleted" >>= J.as_bool)
      then later
      else elim (value_get J e "name" >>= J.as_str) [ some n ↦ some n | none ↦ later ]

  name_of : Result (AppError U) (Opened J O) → Option String
  unfolding info_name
  name_of (err e) = none
  name_of (ok opened) =
      J.get opened.document.content "info" >>= J.as_object >>= λ info. info_name (J.entries info)

  -- A team is named in its paired vault; one that does not open names nothing.
  unfoldable pub team_name : SyncSnapshot U T → VaultSummary U → Option String
  unfolding name_of
  team_name sync v = do
    meta_id ← v.associated_vault_id
    paired ← find (λ w. id_eq U w.id meta_id) sync.vaults
    name_of (open_vault paired)

  -- The free names first, then the names of the teams.
  unfoldable pub match_vault_name :
      SyncSnapshot U T → List (VaultSummary U) → String → Option (VaultSummary U)
  unfolding free_name team_name is_team is_named
  match_vault_name sync vaults name =
      let wanted = lower name in
      elim (find (λ v. is_named (free_name lower sync v) wanted) vaults) [
        | some v ↦ some v
        | none ↦
            find (λ v. is_team v && is_named (team_name sync v >>= (λ n. some (lower n))) wanted)
              vaults
      ]

  one_vault : Option (VaultSummary U) → Result (AppError U) (List (VaultSummary U))
  one_vault none = err no_such_vault
  one_vault (some v) = ok (v ∷ [])

  unfoldable pub resolve_scope :
      SyncSnapshot U T → VaultSelector U → Result (AppError U) (List (VaultSummary U))
  unfolding login_vaults match_vault_name one_vault
  resolve_scope sync any_vault = ok (login_vaults sync)
  resolve_scope sync (vault_id id) = one_vault (find (λ v. id_eq U v.id id) (login_vaults sync))
  resolve_scope sync (vault_name name) = one_vault (match_vault_name sync (login_vaults sync) name)
