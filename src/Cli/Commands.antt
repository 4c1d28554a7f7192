-- ===== src/Cli/Commands.antt =====
-- crates/heyl-cli/src/main.rs: the session commands, from their arguments to what they print. `print`
-- is what printing does to the outside, and `none` is a wait that is still going on.
pub mod Refusals
use heyl.Prelude.{ℕ, String, Bool, true, false, Option, none, some, List, [], ◌∷◌, if◌then◌else◌}
use heyl.Prelude.Results.{Result, ok, err}
use heyl.Prelude.Results
use heyl.Json.{Json}
use heyl.Domain.Ids.{Uuids}
use heyl.Domain.Time.{Jiff}
use heyl.Domain.Session.{SessionPolicy, min_timeout_minutes, default_timeout_minutes}
use heyl.Domain.Keys.{Crypto}
use heyl.App.Error.{AppError}
use heyl.App.Settings.{Setting, parse_setting, parse_timeout}
use heyl.App.Slots.{Slot, new_slot}
use heyl.App.Ports.{Ports, QrStyle}
use heyl.App.Action.{◌>>=◌, when_some, pure, Action, look, outside, World}
use heyl.App.Session.{slots}
use heyl.App.Session.Create.{create}
use heyl.App.Session.Wait.{unlock_and_wait, lock}
use heyl.App.Session.Remove.{remove}
use heyl.App.Session.Settings
use heyl.Cli.Output.{
  Format, Printed, Rendering, pairing_url, session_created, session_unlocked, session_locked,
  session_set, session_settings, session_removed, session_list,
}

-- The arguments of `session set`, of which the parser of the command line accepts two or three.
pub data SetArgs : Type 0 where
  of_selected : (key value : String) → SetArgs
  of_named : (name key value : String) → SetArgs

pub data SessionCommand : Type 0 where
  pair_session :
      (name display timeout : Option String) (strict auto_extend unlock_now : Bool) → SessionCommand
  unlock_session lock_session : (name : Option String) → SessionCommand
  set_setting : SetArgs → SessionCommand
  get_settings : (name key : Option String) → SessionCommand
  remove_session : (name : Option String) → (force : Bool) → SessionCommand
  list_sessions : SessionCommand

-- A slot that the command names, or the one that the invocation selects.
unfoldable pub pick : Slot → Option String → Slot
unfolding new_slot
pick selected none = selected
pick selected (some name) = new_slot (some name)

unfoldable pub set_args : Slot → SetArgs → Slot × String × String
unfolding new_slot
set_args selected (of_selected key value) = (selected, key, value)
set_args selected (of_named name key value) = (new_slot (some name), key, value)

module _ (U : Uuids) where
  -- Without a time-out a strict session has the shortest one.
  unfoldable pub policy_timeout : Option String → Bool → Result (AppError U) ℕ
  unfolding parse_timeout
  policy_timeout (some value) strict = parse_timeout U value
  policy_timeout none strict = ok (if strict then min_timeout_minutes else default_timeout_minutes)

  unfoldable pub parse_key : Option String → Result (AppError U) (Option Setting)
  unfolding parse_setting
  parse_key none = ok none
  parse_key (some key) = Results.◌>>=◌ (parse_setting U key) (λ setting. ok (some setting))

module _ {U : Uuids} {T : Jiff} {K : Crypto} {J : Json} (P : Ports U T K J) (R : Rendering J)
    (print : List Printed → P.Outside → P.Outside) where
  unfoldable pub show : List Printed → Action P (Option (Unit {0}))
  unfolding outside
  show lines = do _ ← outside P (λ w. (print lines w, tt)); pure (ok (some tt))

  unfoldable pub run_create :
      Slot
      → (display timeout : Option String) (strict auto_extend unlock_now : Bool) → QrStyle
      → Format
      → Action P (Option (Unit {0}))
  unfolding policy_timeout create pairing_url session_created show
  run_create slot display timeout strict auto_extend unlock_now qr format = do
    minutes ← pure (policy_timeout U timeout strict)
    let policy : SessionPolicy = record {
      timeout_minutes = minutes;
      strict = strict;
      auto_extend = auto_extend;
    }
    created ←
        create P slot display policy unlock_now qr
          (λ url w. print (pairing_url J R U T P.debug url format) w)
    when_some created (λ created. show (session_created J R U T P.debug slot created policy format))
        (pure (ok none))

  unfoldable pub run_set : Slot × String × String → Format → Action P (Option (Unit {0}))
  unfolding parse_setting session_set show
  run_set args format = do
    setting ← pure (parse_setting U args.1)
    _ ← Settings.set P args.0 setting args.2
    show (session_set J R U T P.debug args.0 setting args.2 format)

  unfoldable pub run_get : Slot → Option String → Format → Action P (Option (Unit {0}))
  unfolding parse_key session_settings show
  run_get slot key format = do
    setting ← pure (parse_key U key)
    values ← Settings.get P slot setting
    show (session_settings J R U T P.debug slot values format)

  unfoldable pub run_unlock : ℕ → Slot → Option ℕ → Format → Action P (Option (Unit {0}))
  unfolding unlock_and_wait session_unlocked show
  run_unlock fuel slot timeout format = do
    until ← unlock_and_wait P fuel slot timeout
    when_some until (λ until. show (session_unlocked J R U T P.debug slot until format))
        (pure (ok none))

  unfoldable pub session_command :
      (fuel : ℕ)
      → SessionCommand
      → (selected : Slot) (timeout : Option ℕ) → QrStyle
      → Format
      → Action P (Option (Unit {0}))
  unfolding run_create run_unlock run_set run_get pick set_args slots lock remove session_locked
      session_removed session_list show
  session_command fuel (pair_session name display timeout strict auto_extend unlock_now) selected
        wait qr format =
      run_create (pick selected name) display timeout strict auto_extend unlock_now qr format
  session_command fuel (unlock_session name) selected wait qr format =
      run_unlock fuel (pick selected name) wait format
  session_command fuel (lock_session name) selected wait qr format = do
    _ ← lock P (pick selected name)
    show (session_locked J R U T P.debug (pick selected name) format)
  session_command fuel (set_setting args) selected wait qr format =
      run_set (set_args selected args) format
  session_command fuel (get_settings name key) selected wait qr format =
      run_get (pick selected name) key format
  session_command fuel (remove_session name force) selected wait qr format = do
    removed ← remove P (pick selected name) force
    show (session_removed J R U T P.debug (pick selected name) removed format)
  session_command fuel list_sessions selected wait qr format = do
    names ← (λ w. (w, ok (slots P w)))
    statuses ← Settings.list P names
    show (session_list J R U T P.debug statuses format)
