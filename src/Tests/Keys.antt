-- ===== src/Tests/Keys.antt =====
-- The chain of keys on one profile and one vault, with a cipher that hides nothing.
use heyl.Prelude.{ℕ, ◌≡◌, ◌≢◌, refl, ap, String, true, false, none, some, List, [], ◌∷◌, ◌⊎◌, ◌==◌}
use heyl.Prelude.Results.{Result, ok}
use heyl.Json.Sample.{sample}
use heyl.Domain.Ids.{AuthenticatorId, ProfileId, VaultId}
use heyl.Domain.Kinds.{private_vault}
use heyl.Domain.Keys.{
  Crypto, AuthenticatorKeys, ProfileSeed, storable, high_security, VaultSecret, ProtectedSecret,
  unlock_storable_profile_seed, unlock_high_security_profile_seed, unlock_vault, unlock_protected,
}
use heyl.Domain.Keys.Chain.{unlock_profile_seed-checks}
use heyl.Domain.Sync.{
  SyncSnapshot, VaultSummary, VaultCommits, VaultProfileLock, Profile, ProfilePublicKeys,
  ProfileAuthenticatorLock, profile, lock_for,
}
use heyl.Vault.Document.{Document, snappy, decode, empty_document}
use heyl.Vault.Merge.{fold, fold_content, merge_content, merge_name}
use heyl.App.Error.{ApiError}
use heyl.App.Get.Vaults.{open_vault}
use heyl.App.Get.Vaults.Opening.{AreUnwrapped, AreDecoded, open_vault-fold}
use heyl.Tests.Samples.{
  tag_discrete, tags, noon, ash, birch, cedar, ash_text, noon_text, one_element, codec,
}

abbrev pub clear : Crypto
clear = record {
  SigningKey = Unit {0};
  EncryptionPrivateKey = Unit {0};
  SymKey = List ℕ;
  Seed = List ℕ;
  derive_signing = λ seed salt context. ok tt;
  derive_encryption = λ seed salt context. ok tt;
  open_box = λ key box. ok box;
  seed_from_slice = λ bytes. ok bytes;
  expose_secret = λ seed. seed;
  sym_key_from_slice = λ bytes. ok bytes;
  sym_decrypt = λ key blob. ok blob;
  sym_encrypt = λ key nonce bytes. bytes;
  verifying_key = λ key. [];
  sign = λ key context bytes. bytes;
  sign_unprefixed = λ key bytes. bytes;
  public_key = λ key. [];
  seal = λ recipient ephemeral nonce bytes. bytes;
  key_from_bytes = λ bytes. tt;
  key_bytes = λ key. [];
  seed_from_bytes = λ bytes. bytes;
  hash_data = λ bytes. bytes;
  argon2id = λ code salt params. ok code;
}

abbrev pub phone : AuthenticatorId tags
phone = record { uuid = ash }

abbrev pub keys : AuthenticatorKeys tags clear
keys = record { id = phone; identity_signing = tt; profile_seed_encryption = tt }

abbrev person : ProfileId tags
person = record { uuid = birch }

abbrev lock_at : String → ProfileAuthenticatorLock tags
lock_at generation = record {
  authenticator_id = phone;
  profile_id = person;
  profile_key_generation_id = generation;
  encrypted_storable_profile_seed = 1 ∷ [];
  encrypted_high_security_profile_seed = 2 ∷ [];
}

abbrev vault_lock : VaultProfileLock tags
vault_lock = record {
  locking_profile_id = person;
  locking_profile_key_generation_id = "g2";
  encrypted_storable_vault_key = 3 ∷ [];
  encrypted_high_security_vault_key = 4 ∷ [];
  encrypted_vault_message_private_key = none;
}

apart : ◌≢◌ {A = String} "g1" "g2"
apart e = let clash : false ≡ true = ap (λ s. s == "g2") e in cc

apart_back : ◌≢◌ {A = String} "g2" "g1"
apart_back e = let clash : false ≡ true = ap (λ s. s == "g1") e in cc

unlock_profile_seed-checks_example :
    ((seed : ProfileSeed clear storable)
      → unlock_storable_profile_seed tags clear keys (lock_at "g2") "g2" ≡ ok seed
      → (phone ≡ phone) × (◌≡◌ {A = String} "g2" "g2"))
    × ((seed : ProfileSeed clear high_security)
        → unlock_high_security_profile_seed tags clear keys (lock_at "g2") "g2" ≡ ok seed
        → (phone ≡ phone) × (◌≡◌ {A = String} "g2" "g2"))
unlock_profile_seed-checks_example = unlock_profile_seed-checks tags clear keys (lock_at "g2") "g2"

abbrev low : ProfileSeed clear storable
low = record { bytes = 1 ∷ [] }

abbrev high : ProfileSeed clear high_security
high = record { bytes = 2 ∷ [] }

abbrev bank_vault : VaultSummary tags
bank_vault = record {
  id = record { uuid = cedar };
  vault_type = private_vault;
  generation_id = "1";
  commit_id = none;
  profile_ids = person ∷ [];
  associated_vault_id = none;
  organization_id = none;
}

abbrev no_keys : ProfilePublicKeys
no_keys = record {
  high_security_identity_sig = none;
  storable_sig = none;
  high_security_vault_key_enc = none;
  storable_vault_key_enc = none;
  high_security_profile_seed_enc = none;
  storable_profile_seed_enc = none;
  high_security_vault_key_enc_signature = none;
  storable_vault_key_enc_signature = none;
  high_security_profile_seed_enc_signature = none;
  storable_profile_seed_enc_signature = none;
  storable_sig_signature = none;
}

abbrev pub account : SyncSnapshot tags noon
account = record {
  server_time = none;
  token_refresh_needed = false;
  client_outdated = false;
  session_unlock = none;
  sessions = [];
  vaults = bank_vault ∷ [];
  profiles =
      record {
        id = person;
        key_generation_id = "g2";
        authenticator_locks = lock_at "g2" ∷ [];
        public_keys = no_keys;
      }
      ∷ [];
  organizations = [];
}

abbrev history : VaultCommits tags
history = record {
  current_generation_id = "1";
  commits = record { id = record { uuid = ash }; blob = 0x01 ∷ 7 ∷ 0x7b ∷ 0x7d ∷ [] } ∷ [];
  profile_lock = some vault_lock;
}

abbrev list_commits : VaultId tags → Result ApiError (VaultCommits tags)
list_commits id = ok history

abbrev bank_document : Document sample
bank_document = record {
  format = snappy;
  document_type = "login";
  version = 2;
  content = one_element ash_text "bank" noon_text;
}

abbrev bank_secret : ProtectedSecret clear
bank_secret = record { key = 4 ∷ [] }

opened :
    open_vault sample codec tags noon clear account phone keys list_commits bank_vault
    ≡ ok (bank_document, bank_secret)
unfolding open_vault profile tag_discrete lock_for unlock_storable_profile_seed
    unlock_high_security_profile_seed unlock_vault unlock_protected decode fold fold_content
    merge_content merge_name
opened = refl

open_vault-fold_example :
    (commits : VaultCommits tags) × (lock : VaultProfileLock tags) × (found : Profile tags)
    × (profile_lock : ProfileAuthenticatorLock tags) × (secret : VaultSecret clear)
    × (documents : List (Document sample)) × (list_commits bank_vault.id ≡ ok commits)
    × (commits.profile_lock ≡ some lock)
    × (profile account lock.locking_profile_id ≡ some found)
    × (lock_for found phone ≡ some profile_lock)
    × AreUnwrapped sample codec tags noon clear account phone keys list_commits lock found
        profile_lock secret bank_secret
    × AreDecoded sample codec tags noon clear secret commits.commits documents
    × (((documents ≡ []) × (bank_document ≡ empty_document sample))
        ⊎ (fold sample documents ≡ ok bank_document))
open_vault-fold_example =
    open_vault-fold sample codec tags noon clear account phone keys list_commits bank_vault
      bank_document bank_secret opened
