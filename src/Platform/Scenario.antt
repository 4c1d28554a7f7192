-- ===== src/Platform/Scenario.antt =====
-- crates/heyl-platform/src/test_state.rs: the keychain and the random source of a scenario, in one file.
-- The disk, and the text of the derived serializers, are parameters. The lock is held for each operation.
pub mod Saving
pub mod Draws
use heyl.Prelude.{
  ℕ, zero, suc, ◌+◌, ◌%◌, ◌≡◌, ◌≢◌, String, Bool, false, true, not, Option, none, some, List, [],
  ◌∷◌, lookup, upsert, without, if◌then◌else◌, eqb, length, ◌&&◌,
}
use heyl.Prelude.Results.{Result, ok, err, ok_or, ◌>>=◌}
use heyl.Base64.{Base64}
use heyl.App.Error.{PortError, unavailable, not_found}
use heyl.App.Slots.{SecretKey, service, secret_name, SecretStore}
use Prim.Native.String.{◌++◌}

-- What is on disk between two steps of a scenario. `draws` is a `u8`.
pub record Saved : Type 0 where
  pub secrets : List (String × String)
  pub draws : ℕ

abbrev pub no_state : Saved
no_state = record { secrets = []; draws = 0 }

-- `std::fs` on the path of the state file, and `serde_json` on the state; the text stays opaque.
pub record Disk : Type 1 where
  pub Files : Type 0
  pub Text : Type 0
  pub read_to_string : Files → Option Text
  pub create_dir_all : Files → Files × Result String (Unit {0})
  pub write_file : Text → Files → Files × Result String (Unit {0})
  pub restrict : Files → Files
  pub from_str : Text → Option Saved
  pub to_string_pretty : Saved → Result String Text

-- What the standard library and `serde_json` document: a text that was written is read back, and it
-- stands for the same map and the same count.
pub record IsDisk (disk : Disk) : Type 0 where
  pub read-write :
      (text : disk.Text) (files : disk.Files)
      → (disk.write_file text files).1 ≡ ok tt
      → disk.read_to_string (disk.write_file text files).0 ≡ some text
  pub read-restrict :
      (files : disk.Files) → disk.read_to_string (disk.restrict files) ≡ disk.read_to_string files
  pub parse-print :
      (s : Saved) (text : disk.Text)
      → disk.to_string_pretty s ≡ ok text
      → (t : Saved) × (disk.from_str text ≡ some t)
        × (t.draws ≡ s.draws)
        × ((key : String) → lookup key t.secrets ≡ lookup key s.secrets)

module _ (b64 : Base64) where
  seed_of : Option (List ℕ) → Option (List ℕ)
  seed_of none = none
  seed_of (some bytes) = if eqb (length bytes) 32 then some bytes else none

  -- `TestState::new`: a seed that is given is 32 bytes.
  unfoldable pub new_state : Option String → Result String (Option (List ℕ))
  unfolding seed_of
  new_state none = ok none
  new_state (some raw) = do
    seed ← ok_or "HEYL_SEED is not 32 base64 bytes" (seed_of (b64.standard_decode raw))
    ok (some seed)

  -- `TestState::from_env`, by the two variables: no store, no scenario.
  unfoldable pub from_env :
      (store seed : Option String) → Result String (Option (String × Option (List ℕ)))
  unfolding new_state
  from_env none seed = ok none
  from_env (some path) seed = do found ← new_state seed; ok (some (path, found))

unfoldable pub drives_randomness : Option (List ℕ) → Bool
drives_randomness none = false
drives_randomness (some seed) = true

unfoldable pub slot_of : SecretKey → String
slot_of key = service key ++ "/" ++ secret_name key.secret

unfoldable pub or_no_state : Option Saved → Saved
or_no_state none = no_state
or_no_state (some s) = s

module _ (disk : Disk) where
  unfoldable pub parsed : Option disk.Text → Option Saved
  parsed none = none
  parsed (some text) = disk.from_str text

  -- A file that is missing or does not parse is the first step of a scenario.
  unfoldable pub read_state : disk.Files → Saved
  unfolding or_no_state parsed
  read_state files = or_no_state (parsed (disk.read_to_string files))

  unfoldable pub failed : String → disk.Files → String → disk.Files × Result PortError (Unit {0})
  failed operation files reason = (files, err (unavailable operation reason))

  -- The directory, the text, the file, and then its permissions, whose failure is ignored.
  unfoldable pub save : Saved → disk.Files → disk.Files × Result PortError (Unit {0})
  unfolding failed
  save s files =
      let dir = disk.create_dir_all files in
      elim dir.1 [
        | err e ↦ failed "create the test state directory" dir.0 e
        | ok _ ↦ elim (disk.to_string_pretty s) [
          | err e ↦ failed "render the test state" dir.0 e
          | ok text ↦
              let written = disk.write_file text dir.0 in
              elim written.1 [
                | err e ↦ failed "write the test state" written.0 e
                | ok _ ↦ (disk.restrict written.0, ok tt)
              ]
        ]
      ]

  abbrev pub scenario : SecretStore
  scenario = record {
    State = disk.Files;
    get = λ files key.
        ok_or (not_found (secret_name key.secret))
          (lookup (slot_of key) (read_state files).secrets);
    set = λ files key value.
        let s = read_state files in
        save (record s { secrets = upsert (slot_of key) value s.secrets }) files;
    delete = λ files key.
        let s = read_state files in
        save (record s { secrets = without (slot_of key) s.secrets }) files;
  }

  module _ (os_fill : ℕ → disk.Files → disk.Files × List ℕ) where
    unfoldable pub fill_bytes : ℕ → ℕ → List ℕ
    fill_bytes b zero = []
    fill_bytes b (suc n) = b ∷ fill_bytes b n

    -- The bytes of a draw: the seed where the count is one and 32 are asked for, and else the count.
    unfoldable pub drawn : (seed : List ℕ) (draws len : ℕ) → List ℕ
    unfolding fill_bytes
    drawn seed draws len = if eqb draws 1 && eqb len 32 then seed else fill_bytes draws len

    -- `fill`, by the length; `none` is the panic where the file cannot be written. Without a seed the
    -- operating system draws.
    unfoldable pub fill :
        (seed : Option (List ℕ)) (len : ℕ) → disk.Files → disk.Files × Option (List ℕ)
    unfolding drawn save read_state
    fill none len files = let done = os_fill len files in (done.0, some done.1)
    fill (some seed) len files =
        let s = read_state files in
        let draws = (s.draws + 1) % 256 in
        let saved = save (record s { draws = draws }) files in
        (saved.0, elim saved.1 [ ok _ ↦ some (drawn seed draws len) | err e ↦ none ])
