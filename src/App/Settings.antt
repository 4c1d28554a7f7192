-- ===== src/App/Settings.antt =====
-- crates/heyl-app/src/session/settings.rs: the keys and values of a session's settings.
pub mod Timeouts
pub mod Keys
use heyl.Prelude.{
  ℕ, ◌*◌, ◌/◌, ◌%◌, ◌≡◌, String, Bool, true, false, Option, none, some, List, [], ◌∷◌, ltb, leb,
  eqb, if◌then◌else◌, ◌==◌, ◌||◌, map,
}
use heyl.Prelude.Decimal.{print, parse_u64}
use heyl.Prelude.Trim.{trim, strip_suffix}
use heyl.Prelude.Results.{Result, ok, err, ok_or, ◌>>=◌}
use heyl.Domain.Ids.{Uuids}
use heyl.Domain.Session.{SessionPolicy, min_timeout_minutes}
use heyl.App.Error.{AppError, unknown_setting, bad_setting_value, timeout_too_short}
use Prim.Native.String.{◌++◌}

pub data Setting : Type 0 where
  display_name timeout strict auto_extend : Setting

abbrev pub all_settings : List Setting
all_settings = display_name ∷ timeout ∷ strict ∷ auto_extend ∷ []

unfoldable pub name : Setting → String
name display_name = "display-name"
name timeout = "timeout"
name strict = "strict"
name auto_extend = "auto-extend"

unfoldable pub needs_unlock : Setting → Bool
needs_unlock display_name = true
needs_unlock _ = false

pub data SettingValue : Type 0 where
  minutes : ℕ → SettingValue
  toggle : Bool → SettingValue
  locked : SettingValue

unfoldable pub render_timeout : ℕ → String
render_timeout m = if eqb (m % 60) 0 then print (m / 60) ++ "h" else print m ++ "m"

unfoldable pub render_bool : Bool → String
render_bool true = "on"
render_bool false = "off"

unfoldable pub human : SettingValue → String
unfolding render_timeout
human (minutes m) = render_timeout m
human (toggle b) = render_bool b
human locked = "<locked>"

-- The number and the seconds in its unit; a bare number counts minutes.
unfoldable pub split_unit : String → String × ℕ
split_unit value = elim (strip_suffix b's' value) [
  | some rest ↦ (rest, 1)
  | none ↦ elim (strip_suffix b'm' value) [
    | some rest ↦ (rest, 60)
    | none ↦ elim (strip_suffix b'h' value) [ some rest ↦ (rest, 3600) | none ↦ (value, 60) ]
  ]
]

-- `checked_mul` on `u64`.
unfoldable pub checked_mul : ℕ → ℕ → Option ℕ
checked_mul a b = if ltb (a * b) 18446744073709551616 then some (a * b) else none

-- `u32::try_from`.
unfoldable pub to_u32 : ℕ → Option ℕ
to_u32 n = if ltb n 4294967296 then some n else none

module _ (U : Uuids) where
  unfoldable pub parse_setting : String → Result (AppError U) Setting
  parse_setting key =
      if key == "display-name"
      then ok display_name
      else if key == "timeout"
      then ok timeout
      else if key == "strict"
      then ok strict
      else if key == "auto-extend"
      then ok auto_extend
      else err (unknown_setting key)

  unfoldable pub bad_timeout : String → AppError U
  bad_timeout value = bad_setting_value (name timeout) value "a duration like 90s, 30m or 8h"

  unfoldable pub parse_timeout : String → Result (AppError U) ℕ
  unfolding split_unit checked_mul to_u32 bad_timeout
  parse_timeout value = do
    let split = split_unit value
    number ← ok_or (bad_timeout value) (parse_u64 (trim split.0))
    seconds ← ok_or (bad_timeout value) (checked_mul number split.1)
    number_of_minutes ← ok_or (bad_timeout value) (to_u32 (seconds / 60))
    if ltb number_of_minutes min_timeout_minutes
        then err (timeout_too_short min_timeout_minutes)
        else ok number_of_minutes

  unfoldable pub parse_bool : String → Result (AppError U) Bool
  parse_bool value =
      if (value == "on") || (value == "yes") || (value == "true")
      then ok true
      else if (value == "off") || (value == "no") || (value == "false")
      then ok false
      else err (bad_setting_value "boolean" value "on or off")

  -- The change of a policy that `set` writes. The display name is vault content, which `set` handles
  -- before: there the code panics, which is `none`.
  unfoldable pub apply_setting :
      Setting → String → SessionPolicy → Option (Result (AppError U) SessionPolicy)
  unfolding parse_timeout parse_bool
  apply_setting timeout value policy =
      some (do limit ← parse_timeout value; ok (record policy { timeout_minutes = limit }))
  apply_setting strict value policy =
      some (do flag ← parse_bool value; ok (record policy { strict = flag }))
  apply_setting auto_extend value policy =
      some (do flag ← parse_bool value; ok (record policy { auto_extend = flag }))
  apply_setting display_name value policy = none

-- What `get` reports of a policy.
unfoldable pub setting_value : SessionPolicy → Setting → SettingValue
setting_value policy display_name = locked
setting_value policy timeout = minutes policy.timeout_minutes
setting_value policy strict = toggle policy.strict
setting_value policy auto_extend = toggle policy.auto_extend

unfoldable pub wanted : Option Setting → List Setting
wanted none = all_settings
wanted (some s) = s ∷ []

unfoldable pub report : SessionPolicy → Option Setting → List (Setting × SettingValue)
unfolding wanted setting_value
report policy setting = map (λ key. (key, setting_value policy key)) (wanted setting)
