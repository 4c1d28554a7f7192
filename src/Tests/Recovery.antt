-- ===== src/Tests/Recovery.antt =====
-- Runs of a recovery and of the doctor's walk.
use heyl.Prelude.{
  ℕ, ◌≡◌, ◌≢◌, ◌↔◌, ◌⊎◌, refl, String, true, none, List, [], ◌∷◌, ◌++◌, map, All, In,
}
use heyl.Prelude.Results.{ok, err}
use heyl.Domain.Kinds.{connected}
use heyl.Domain.Authenticator.{RecoverySecret}
use heyl.Domain.Login.{standard}
use heyl.Domain.Sync.{Profile}
use heyl.Crypto.Recovery.{normalize_code, is_canonical, checksum_matches}
use heyl.Crypto.Recovery.Checksum.{checksum_matches_lem}
use heyl.App.Error.{wrong_recovery_code, no_unlockable_profile}
use heyl.App.Slots.{session_id, session_private_key, access_token, default_slot}
use heyl.App.Unlock.{Unlocked}
use heyl.App.Action.{◌>>=◌, when}
use heyl.Prelude.Trim.{trim}
use heyl.App.Recovery.{granted, given, run, recover_seed, derive_and_verify}
use heyl.App.Recovery.Stores.{run_other}
use heyl.App.Recovery.Verified.{IsBounded, derive_and_verify-ok}
use heyl.App.Doctor.{Report}
use heyl.App.Doctor.Vaults.{vault_name, run_with}
use heyl.App.Doctor.Unlockable.{CanUnlock}
use heyl.App.Doctor.Vaults.Walk.{names, run_with-vaults}
use heyl.Tests.Keys.{clear, account, keys, phone}
use heyl.Tests.Samples.{tags, noon, tag_discrete}
use heyl.Tests.Host.{memory, memory-IsKeychain, host, costs, challenged, phone_authenticator}

abbrev recovery_code : String
recovery_code = "1234-5678-1234-5678-1234-5678"

checksum_matches_lem_example :
    (checksum_matches clear (1 ∷ 2 ∷ []) (1 ∷ 3 ∷ []) ≡ true)
    ↔ (clear.hash_data (1 ∷ 2 ∷ []) ≡ 1 ∷ 3 ∷ [])
checksum_matches_lem_example = checksum_matches_lem clear (1 ∷ 2 ∷ []) (1 ∷ 3 ∷ [])

abbrev checked_secret : RecoverySecret
checked_secret = record { checksum = 1 ∷ []; salt = []; params = costs }

abbrev secret : RecoverySecret
secret = record { checksum = []; salt = []; params = costs }

derived : (derive_and_verify host recovery_code secret ((λ k. none), none)).1 ≡ ok []
unfolding derive_and_verify ◌>>=◌ trim when
derived = refl

derive_and_verify-ok_example :
    (from : List ℕ) × ([] ≡ clear.seed_from_bytes from)
    × (clear.hash_data from ≡ [])
    × (clear.argon2id (host.as_bytes (normalize_code recovery_code)) [] costs ≡ ok from)
    × (is_canonical (normalize_code recovery_code) ≡ true)
    × IsBounded costs
derive_and_verify-ok_example =
    derive_and_verify-ok host recovery_code secret [] ((λ k. none), none) derived

not_the_key : default_slot session_id ≢ default_slot session_private_key
not_the_key e = cc

not_the_token : default_slot session_id ≢ default_slot access_token
not_the_token e = cc

run_other_example :
    memory.get
      (run host "user@example.org" granted
        (given recovery_code)
        standard
        connected
        ((λ k. none), none)).0.0
      (default_slot session_id)
    ≡ memory.get (λ k. none) (default_slot session_id)
run_other_example =
    run_other host memory-IsKeychain "user@example.org" granted (given recovery_code) standard
      connected (default_slot session_id) ((λ k. none), none) not_the_key not_the_token

refused :
    (recover_seed host challenged granted (given recovery_code) ((λ k. none), none)).1
    ≡ err wrong_recovery_code
unfolding recover_seed ◌>>=◌ tag_discrete trim when
refused = refl

abbrev unlocked : Unlocked tags noon clear
unlocked = record {
  sync = account;
  authenticators = phone_authenticator ∷ [];
  authenticator_id = phone;
  seed = [];
  keys = keys;
}

run_with-vaults_example :
    (All (λ p. ¬ CanUnlock unlocked p) account.profiles
      × ((run_with host unlocked ((λ k. none), none)).1 ≡ err (no_unlockable_profile phone)))
    ⊎ ((p : Profile tags) × In p account.profiles
        × CanUnlock unlocked p
        × ((report : Report) × ((run_with host unlocked ((λ k. none), none)).1 ≡ ok report)
            × (earlier : List String) × (names report
                ≡ earlier ++ map (vault_name host) account.vaults)))
run_with-vaults_example = run_with-vaults host unlocked ((λ k. none), none)
