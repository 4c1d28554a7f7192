-- ===== src/App/Slots/Names.antt =====
-- crates/heyl-app/src/session/mod.rs: the names of slots and the keychain items behind them.
use heyl.Prelude.{◌≡◌, refl, String, Option, none, some}
use heyl.App.Slots.{StoredSecret, slot_key}

pub slot_key-parts :
    (name : Option String) (i : StoredSecret)
    → ((slot_key (record { name = name }) i).account ≡ name)
      × ((slot_key (record { name = name }) i).secret ≡ i)
unfolding slot_key
slot_key-parts none i = (refl, refl)
slot_key-parts (some n) i = (refl, refl)
