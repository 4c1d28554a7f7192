-- ===== src/App/Session/Settings.antt =====
-- crates/heyl-app/src/session/settings.rs: the settings of a slot, changed and read back, and the list
-- of the slots.
use heyl.Prelude.{String, Bool, true, false, Option, none, some, List, [], ◌∷◌, ◌==◌, if◌then◌else◌}
use heyl.Prelude.Results.{Result, ok, err, ok_or, map_err}
use heyl.Json.{Json}
use heyl.Domain.Ids.{Uuids, SessionId}
use heyl.Domain.Time.{Jiff}
use heyl.Domain.Session.{SessionPolicy, from_wire}
use heyl.Domain.Keys.{Crypto}
use heyl.Domain.Sync.{SyncSnapshot, Session, session}
use heyl.Vault.Document.{VaultError}
use heyl.Vault.Meta.{set_description}
use heyl.App.Error.{AppError, session_gone, vault_content}
use heyl.App.Slots.{Slot, new_slot, default_slot_name}
use heyl.App.Settings.{Setting, display_name, SettingValue, apply_setting, report}
use heyl.App.Ports.{Ports}
use heyl.App.Action.{◌>>=◌, when_some, when_ok, when, pure, attempt, Action, call, look}
use heyl.App.Unlock.{run_for}
use heyl.App.MetaVault.{open_meta, commit, is_some}
use heyl.App.Session.{adopt, write_policy}

pub record SlotStatus (T : Jiff) : Type 0 where
  pub slot : String
  pub known : Bool
  pub unlocked_until : Option T.Instant
  pub unlock_requested : Bool
  pub policy : Option SessionPolicy

unfoldable pub is_display_name : Setting → Bool
is_display_name display_name = true
is_display_name _ = false

module _ {U : Uuids} {T : Jiff} {K : Crypto} {J : Json} (P : Ports U T K J) where
  unfoldable pub policy_of : Session U T → SessionPolicy
  policy_of s = from_wire J P.text P.settings_from_seq s.unlock_time_limit_minutes s.client_settings

  -- The display name is vault content: it costs an unlock.
  unfoldable pub set_display_name : Slot → SessionId U → String → Action P (Unit {0})
  unfolding run_for open_meta look commit
  set_display_name slot id value = do
    session ← run_for P slot
    meta ← open_meta P session
    now ← look P P.clock.now
    let edited = set_description J U T meta.document id value now
    _ ← pure (map_err (λ (e : VaultError). vault_content meta.id e) edited.1)
    _ ← commit P (record meta { document = edited.0 })
    pure (ok tt)

  -- The rest rides on the session record. `none` is the arm that is unreachable.
  unfoldable pub set_on_record : Setting → SessionId U → String → Action P (Unit {0})
  unfolding call policy_of write_policy
  set_on_record setting id value = do
    sync ← call P P.api.sync
    s ← pure (ok_or session_gone (session sync id))
    when_some (apply_setting U setting value (policy_of s))
        (λ change. do policy ← pure change; write_policy P id policy s.client_settings)
        (pure (ok tt))

  unfoldable pub set : Slot → Setting → String → Action P (Unit {0})
  unfolding adopt is_display_name set_display_name set_on_record
  set slot setting value = do
    adopted ← adopt P slot
    when (is_display_name setting) (set_display_name slot adopted.id value)
        (set_on_record setting adopted.id value)

  unfoldable pub get : Slot → Option Setting → Action P (List (Setting × SettingValue))
  unfolding adopt call policy_of
  get slot setting = do
    adopted ← adopt P slot
    sync ← call P P.api.sync
    s ← pure (ok_or session_gone (session sync adopted.id))
    pure (ok (report (policy_of s) setting))

  -- What the account says of a session; a session that it does not know is shown as gone.
  unfoldable pub status_of : String → Option (Session U T) → SlotStatus T
  unfolding is_some policy_of
  status_of name none = record {
    slot = if name == "" then default_slot_name else name;
    known = false;
    unlocked_until = none;
    unlock_requested = false;
    policy = none;
  }
  status_of name (some s) = record {
    slot = if name == "" then default_slot_name else name;
    known = true;
    unlocked_until = s.unlocked_until;
    unlock_requested = is_some s.unlock_requested_at;
    policy = some (policy_of s);
  }

  found_in : Result (AppError U) (SyncSnapshot U T) → SessionId U → Option (Session U T)
  found_in (ok sync) id = session sync id
  found_in (err e) id = none

  -- One slot of the list; one that cannot be adopted is passed over.
  unfoldable pub status : String → Action P (Option (SlotStatus T))
  unfolding attempt adopt call status_of found_in
  status name = do
    adopted ← attempt (adopt P (new_slot (some name)))
    when_ok adopted
        (λ adopted. do
          answer ← attempt (call P P.api.sync)
          pure (ok (some (status_of name (found_in answer adopted.id)))))
        (λ e. pure (ok none))

  add_status : Option (SlotStatus T) → List (SlotStatus T) → List (SlotStatus T)
  add_status none rest = rest
  add_status (some s) rest = s ∷ rest

  unfoldable pub list : List String → Action P (List (SlotStatus T))
  unfolding status add_status
  list [] = pure (ok [])
  list (name ∷ names) = do found ← status name; rest ← list names; pure (ok (add_status found rest))
