-- ===== src/App/Doctor.antt =====
-- crates/heyl-app/src/doctor.rs: the hierarchy of keys, checked link by link. A report is the list of its
-- checks.
pub mod Links
pub mod Unlockable
pub mod Vaults
use heyl.Prelude.{
  ℕ, String, Bool, true, false, not, ◌&&◌, Option, none, some, List, [], ◌∷◌, ◌++◌, any, keep, find,
  get_last?, length, eqb, if◌then◌else◌,
}
use heyl.Prelude
use heyl.Prelude.Decimal.{print}
use heyl.Prelude.Results.{Result, ok, err, ok_or, map_err}
use heyl.Json.{Json}
use heyl.Domain.Ids.{Uuids, ProfileId, VaultId, show, id_eq}
use heyl.Domain.Time.{Jiff}
use heyl.Domain.Error.{DomainError}
use heyl.Domain.Kinds.{is_supported, debug_vault}
use heyl.Domain.Keys.{
  Crypto, ProfileSeed, storable, high_security, VaultSecret, ProtectedSecret,
  unlock_storable_profile_seed, unlock_high_security_profile_seed, unlock_vault, unlock_protected,
  identity_signing_key, vault_key_encryption_key, profile_key_encryption_key,
}
use heyl.Domain.Authenticator.{AuthenticatorPublicKeys}
use heyl.Domain.Login.{login_signing_key}
use heyl.Domain.Sync.{
  SyncSnapshot, Profile, ProfilePublicKeys, ProfileAuthenticatorLock, VaultSummary, VaultCommits,
  VaultProfileLock, Commit, profile, lock_for,
}
use heyl.Vault.Document.{VaultError, not_a_document, Document, decode, content_keys}
use heyl.Vault.Document
use heyl.App.Error.{AppError, vault, vault_content, crypto_failure, no_unlockable_profile}
use heyl.App.Error.Display.{show_domain, show_error}
use heyl.App.Ports.{Ports}
use heyl.App.Action.{◌>>=◌, pure, attempt, Action, call}
use heyl.App.Unlock.{Unlocked}
use heyl.App.Unlock
use heyl.App.Get.Vaults.{vault_err}
use Prim.Native.String.{◌++◌ as ◌+++◌}

pub data Outcome : Type 0 where
  pass fail skip : Outcome

unfoldable pub label : Outcome → String
label pass = "PASS"
label fail = "FAIL"
label skip = "SKIP"

pub record Check : Type 0 where
  pub name : String
  pub outcome : Outcome
  pub detail : Option String

abbrev pub Report : Type 0
Report = List Check

unfoldable pub bare : String → Outcome → Check
bare name outcome = record { name = name; outcome = outcome; detail = none }

unfoldable pub with_detail : String → Outcome → String → Check
with_detail name outcome detail = record { name = name; outcome = outcome; detail = some detail }

same_key : List ℕ → List ℕ → Bool
same_key [] [] = true
same_key [] (b ∷ bs) = false
same_key (a ∷ rest) [] = false
same_key (a ∷ rest) (b ∷ bs) = eqb a b && same_key rest bs

-- A key that the backend does not publish proves nothing either way.
unfoldable pub compare_keys : String → List ℕ → Option (List ℕ) → Check
unfolding bare with_detail same_key
compare_keys name derived none = with_detail name skip "the backend publishes no key to compare"
compare_keys name derived (some published) =
    if same_key published derived
    then bare name pass
    else with_detail name fail (
        "derived key does not match the published one — "
        +++ "the context salt for this link is wrong")

unfoldable pub is_outcome : Outcome → Outcome → Bool
is_outcome pass pass = true
is_outcome fail fail = true
is_outcome skip skip = true
is_outcome _ _ = false

unfoldable pub push : Report → Check → Report
push report check = report ++ check ∷ []

unfoldable pub has_failures : Report → Bool
unfolding is_outcome
has_failures report = any (λ c. is_outcome c.outcome fail) report

unfoldable pub count_of : Outcome → Report → ℕ
unfolding is_outcome
count_of o report = length (keep (λ c. is_outcome c.outcome o) report)

unfoldable pub tally : Report → ℕ × ℕ × ℕ
unfolding count_of
tally report = (count_of pass report, count_of fail report, count_of skip report)

module _ {U : Uuids} where
  unfoldable pub compare_derived :
      Report → String → Result (DomainError U) (List ℕ) → Option (List ℕ) → Report
  unfolding push compare_keys with_detail show_domain
  compare_derived report name (ok derived) published =
      push report (compare_keys name derived published)
  compare_derived report name (err e) published =
      push report (with_detail name fail (show_domain e))
