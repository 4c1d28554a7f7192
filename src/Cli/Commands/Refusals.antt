-- ===== src/Cli/Commands/Refusals.antt =====
-- crates/heyl-cli/src/main.rs: an argument that cannot be read stops a session command before it starts.
use heyl.Prelude.{ℕ, ◌≡◌, refl, String, Bool, Option, some, List}
use heyl.Prelude.Results.{err}
use heyl.Json.{Json}
use heyl.Domain.Ids.{Uuids}
use heyl.Domain.Time.{Jiff}
use heyl.Domain.Keys.{Crypto}
use heyl.App.Error.{AppError}
use heyl.App.Settings.{parse_setting, parse_timeout}
use heyl.App.Slots.{Slot}
use heyl.App.Ports.{Ports, QrStyle}
use heyl.App.Action.{World}
use heyl.App.Action.Leaves.{>>=-err}
use heyl.Cli.Output.{Format, Printed, Rendering}
use heyl.Cli.Commands.{
  pair_session, get_settings, set_setting, of_named, of_selected, set_args, policy_timeout,
  parse_key, run_create, run_set, run_get, session_command,
}

module _ {U : Uuids} {T : Jiff} {K : Crypto} {J : Json} (P : Ports U T K J) (R : Rendering J)
    (print : List Printed → P.Outside → P.Outside) where
  parse_key-err :
      (key : String) (e : AppError U) → parse_setting U key ≡ err e → parse_key U (some key) ≡ err e
  unfolding parse_key
  parse_key-err key e h = rw h refl

  -- A time-out that `session create` cannot read, and a key that `session get` or `session set` cannot
  -- read, with a slot before it or without, ends the command with that error, and neither the keychain
  -- nor the outside has changed: nothing was asked of the backend or the phone, and nothing was printed.
  pub session-refuses :
      (fuel : ℕ) (selected : Slot) (name display : Option String) (value key : String)
      (strict auto_extend unlock_now : Bool) (slot_name setting_text : String) (wait : Option ℕ)
      (qr : QrStyle) (format : Format) (bad_timeout bad_key : AppError U) (w : World P)
      → parse_timeout U value ≡ err bad_timeout
      → parse_setting U key ≡ err bad_key
      → (session_command P R print fuel
            (pair_session name display (some value) strict auto_extend unlock_now)
            selected
            wait
            qr
            format
            w
          ≡ (w, err bad_timeout))
        × (session_command P R print fuel (get_settings name (some key)) selected wait qr format w
            ≡ (w, err bad_key))
        × (session_command P R print fuel
              (set_setting (of_named slot_name key setting_text))
              selected
              wait
              qr
              format
              w
            ≡ (w, err bad_key))
        × (session_command P R print fuel
              (set_setting (of_selected key setting_text))
              selected
              wait
              qr
              format
              w
            ≡ (w, err bad_key))
  unfolding session_command run_create run_get run_set policy_timeout set_args
  session-refuses fuel selected name display value key strict auto_extend unlock_now slot_name
        setting_text wait qr format bad_timeout bad_key w timeout_refused key_refused =
      (
        >>=-err _ _ w timeout_refused,
        >>=-err _ _ w (parse_key-err key bad_key key_refused),
        >>=-err _ _ w key_refused,
        >>=-err _ _ w key_refused,
      )
