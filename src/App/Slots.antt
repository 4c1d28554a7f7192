-- ===== src/App/Slots.antt =====
-- crates/heyl-app/src/session/mod.rs and crates/heyl-ports/src/secret_store.rs: the local names of
-- sessions, and the items of the keychain that they own.
pub mod Names
use heyl.Prelude.{◌≡◌, ◌≢◌, String, Option, none, some, List, [], ◌∷◌, if◌then◌else◌, ◌==◌, ◌||◌}
use heyl.Prelude.Results.{Result, ok}
use heyl.App.Error.{PortError}
use Prim.Native.String.{◌++◌}

pub data StoredSecret : Type 0 where
  access_token session_private_key slot_index session_id : StoredSecret

-- The items that a session owns.
abbrev pub session_secrets : List StoredSecret
session_secrets = access_token ∷ session_private_key ∷ session_id ∷ []

unfoldable pub secret_name : StoredSecret → String
secret_name access_token = "access_token"
secret_name session_private_key = "session_priv_key"
secret_name session_id = "session_id"
secret_name slot_index = "slots"

pub record SecretKey : Type 0 where
  pub account : Option String
  pub secret : StoredSecret

abbrev pub default_slot : StoredSecret → SecretKey
default_slot secret = record { account = none; secret = secret }

abbrev pub in_slot : String → StoredSecret → SecretKey
in_slot account secret = record { account = some account; secret = secret }

unfoldable pub service : SecretKey → String
service key = elim key.account [ none ↦ "heyl" | some account ↦ "heyl:" ++ account ]

abbrev pub default_slot_name : String
default_slot_name = "default"

abbrev pub default_display_name : String
default_display_name = "heyl CLI"

pub record Slot : Type 0 where
  pub name : Option String

-- The empty text and `default` name the default slot.
unfoldable pub new_slot : Option String → Slot
new_slot none = record { name = none }
new_slot (some n) =
    if (n == "") || (n == default_slot_name)
    then record { name = none }
    else record { name = some n }

unfoldable pub slot_name : Slot → String
slot_name slot = elim slot.name [ none ↦ default_slot_name | some n ↦ n ]

unfoldable pub default_display : Slot → String
default_display slot = elim slot.name [ none ↦ default_display_name | some n ↦ n ]

unfoldable pub slot_key : Slot → StoredSecret → SecretKey
slot_key slot secret = elim slot.name [ none ↦ default_slot secret | some n ↦ in_slot n secret ]

-- The port to the keychain, with a state of its own.
pub record SecretStore : Type 1 where
  pub State : Type 0
  pub get : State → SecretKey → Result PortError String
  pub set : State → SecretKey → String → State × Result PortError (Unit {0})
  pub delete : State → SecretKey → State × Result PortError (Unit {0})

-- What the port documents: a write replaces the item's value, and it touches no other item.
pub record IsKeychain (S : SecretStore) : Type 0 where
  pub get-set :
      (s : S.State) (k : SecretKey) (v : String)
      → (S.set s k v).1 ≡ ok tt
      → S.get (S.set s k v).0 k ≡ ok v
  pub get-set_other :
      (s : S.State) (k j : SecretKey) (v : String) → j ≢ k → S.get (S.set s k v).0 j ≡ S.get s j

-- A deletion takes the item away, and it touches no other item.
pub record DeletesItems (S : SecretStore) : Type 0 where
  pub get-delete :
      (s : S.State) (k : SecretKey) (v : String)
      → (S.delete s k).1 ≡ ok tt
      → S.get (S.delete s k).0 k ≢ ok v
  pub get-delete_other :
      (s : S.State) (k j : SecretKey) → j ≢ k → S.get (S.delete s k).0 j ≡ S.get s j
