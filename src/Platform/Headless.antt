-- ===== src/Platform/Headless.antt =====
-- crates/heyl-platform/src/headless.rs: the keychain of a machine that has none, in the environment.
use heyl.Prelude.{refl, String, Bool, Option, any}
use heyl.Prelude.Results.{ok, err, ok_or}
use heyl.App.Error.{unavailable, not_found}
use heyl.App.Slots.{
  StoredSecret, access_token, session_private_key, session_id, slot_index, session_secrets,
  SecretStore, IsKeychain,
}
use Prim.Native.String.{◌++◌}

unfoldable pub variable : StoredSecret → String
variable access_token = "HEYL_TOKEN"
variable session_private_key = "HEYL_SESSION_KEY"
variable session_id = "HEYL_SESSION_ID"
variable slot_index = "HEYL_SLOTS"

-- `env::var`: a variable that is there and is a text.
module _ (env : String → Option String) where
  -- `defined` is `env::var_os(..).is_some()`.
  unfoldable pub is_configured : (defined : String → Bool) → Bool
  unfolding variable
  is_configured defined = any (λ secret. defined (variable secret)) session_secrets

  -- The account of a key is not looked at, a write fails, and a deletion does nothing.
  abbrev pub headless : SecretStore
  headless = record {
    State = Unit {0};
    get = λ s key. ok_or (not_found (variable key.secret)) (env (variable key.secret));
    set = λ s key value. (
      s,
      err (
          unavailable "write to the environment"
            ("headless mode cannot persist; set " ++ variable key.secret ++ " yourself")),
    );
    delete = λ s key. (s, ok tt);
  }

  -- The environment keeps the laws of a keychain: it never says that it has written.
  headless-IsKeychain : IsKeychain headless
  headless-IsKeychain = record { get-set = λ s k v done. cc; get-set_other = λ s k j v other. refl }
