-- ===== src/App/Get/Search/Scope.antt =====
-- Which vaults `get` looks in.
use heyl.Prelude.{
  compare, ◌≡◌, sym, ap, ◌∙◌, String, true, Option, none, some, List, arith, inl, inr, In, In-keep,
  find_sound, sort_by_sound, Option-cases, keep, find, subst,
}
use heyl.Prelude.Results.{Result, ok, ok_inj}
use heyl.Json.{Json}
use heyl.Domain.Ids.{Uuids, id_eq}
use heyl.Domain.Time.{Jiff}
use heyl.Domain.Kinds.{holds_logins}
use heyl.Domain.Sync.{SyncSnapshot, VaultSummary}
use heyl.App.Error.{AppError}
use heyl.App.Get.Query.{VaultSelector, any_vault, vault_name, vault_id}
use heyl.App.Get.Fields.{Opener}
use heyl.App.Get.Search.{
  tier, Opened, free_name, is_named, one_vault, login_vaults, match_vault_name, resolve_scope,
}

module _ (U : Uuids) (T : Jiff) where
  login_vaults_sound :
      (sync : SyncSnapshot U T) (v : VaultSummary U)
      → In v (login_vaults sync)
      → In v sync.vaults × (holds_logins v.vault_type ≡ true)
  unfolding login_vaults
  login_vaults_sound sync v m =
      In-keep (λ w. holds_logins w.vault_type) sync.vaults v
        (sort_by_sound (λ a b. compare (tier a.vault_type) (tier b.vault_type))
          (keep (λ w. holds_logins w.vault_type) sync.vaults) v m)

module _ (J : Json) (U : Uuids) (T : Jiff) (O : Opener) (lower : String → String)
    (open_vault : VaultSummary U → Result (AppError U) (Opened J O)) where
  match_vault_name_sound :
      (sync : SyncSnapshot U T) (vaults : List (VaultSummary U)) (name : String)
      (v : VaultSummary U)
      → match_vault_name J U T O lower open_vault sync vaults name ≡ some v
      → In v vaults
  unfolding match_vault_name
  match_vault_name_sound sync vaults name v h =
      elim (Option-cases (find (λ w. is_named (free_name lower sync w) (lower name)) vaults)) [
        | inl e ↦ (find_sound _ vaults v (rw (match_vault_name, e) at h)).0
        | inr (w, e) ↦
            (find_sound (λ w. is_named (free_name lower sync w) (lower name)) vaults v
              (e ∙ rw (match_vault_name, e) at h)).0
      ]

  one_vault_sound :
      (o : Option (VaultSummary U)) (scope : List (VaultSummary U)) (v : VaultSummary U)
      → one_vault J U T O lower open_vault o ≡ ok scope
      → In v scope
      → o ≡ some v
  unfolding one_vault
  one_vault_sound none scope v h m = ground arith
  one_vault_sound (some w) scope v h m = elim (subst (In v) (sym (ok_inj h)) m) [
    | inl e ↦ ap some (sym e)
    | inr n ↦ elim n [ ]
  ]

  -- Every vault in scope is one of the account's and holds logins.
  resolve_scope_vaults :
      (sync : SyncSnapshot U T) (selector : VaultSelector U) (scope : List (VaultSummary U))
      (v : VaultSummary U)
      → resolve_scope J U T O lower open_vault sync selector ≡ ok scope
      → In v scope
      → In v sync.vaults × (holds_logins v.vault_type ≡ true)
  unfolding resolve_scope
  resolve_scope_vaults sync any_vault scope v h m =
      login_vaults_sound U T sync v (subst (In v) (sym (ok_inj h)) m)
  resolve_scope_vaults sync (vault_id id) scope v h m =
      login_vaults_sound U T sync v
        (find_sound (λ w. id_eq U w.id id) (login_vaults sync) v (one_vault_sound _ scope v h m)).0
  resolve_scope_vaults sync (vault_name name) scope v h m =
      login_vaults_sound U T sync v
        (match_vault_name_sound sync (login_vaults sync) name v (one_vault_sound _ scope v h m))
