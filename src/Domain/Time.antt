-- ===== src/Domain/Time.antt =====
-- crates/heyl-domain/src/time.rs: timestamps with the one text form that the merge can compare.
use heyl.Prelude.{ℕ, ◌/◌, ◌%◌, String, ◌&&◌, not, Option, none, some, eqb, ltb, if◌then◌else◌}
use heyl.Prelude.Decimal.{print}
use heyl.Prelude.Int.{ℤ, pos, negsuc, is_negative, pred_ℤ, abs}
use heyl.Prelude.Results.{Result, ok_or}
use Prim.Native.String.{◌++◌}

-- A civil date and time, `jiff::civil::DateTime` without its fraction of a second.
pub record DateTime : Type 0 where
  pub year : ℤ
  pub month : ℕ
  pub day : ℕ
  pub hour : ℕ
  pub minute : ℕ
  pub second : ℕ

-- `jiff::Timestamp`, as far as it is used. The milliseconds are truncated toward zero, and the
-- fraction of a second has the sign of the instant.
pub record Jiff : Type 1 where
  pub Instant : Type 0
  pub from_str : String → Option Instant
  pub as_millisecond : Instant → ℤ
  pub subsec_nanosecond : Instant → ℤ
  pub from_millisecond : ℤ → Option Instant
  pub utc : Instant → DateTime

pub record ParseTimestampError : Type 0 where
  pub value : String

-- A decimal number, filled up with zeros to a width of two, three or four.
unfoldable pub pad2 : ℕ → String
pad2 n = if ltb n 10 then "0" ++ print n else print n

unfoldable pub pad3 : ℕ → String
unfolding pad2
pad3 n = if ltb n 100 then "0" ++ pad2 n else print n

unfoldable pub pad4 : ℕ → String
unfolding pad3
pad4 n = if ltb n 1000 then "0" ++ pad3 n else print n

-- `{:04}` of a year: the sign counts for the width.
unfoldable pub show_year : ℤ → String
unfolding pad3 pad4
show_year (pos n) = pad4 n
show_year (negsuc n) = "-" ++ pad3 (abs (negsuc n))

-- `{:03}` of `subsec_nanosecond() / 1_000_000`: the division truncates toward zero, and the sign of a
-- negative number counts for the width.
unfoldable pub show_millis : ℤ → String
unfolding pad2 pad3
show_millis (pos n) = pad3 (n / 1_000_000)
show_millis (negsuc n) =
    let millis = abs (negsuc n) / 1_000_000 in if eqb millis 0 then pad3 0 else "-" ++ pad2 millis

module _ (T : Jiff) where
  unfoldable pub parse : String → Result ParseTimestampError T.Instant
  parse s = ok_or (record { value = s }) (T.from_str s)

  or_self : T.Instant → Option T.Instant → T.Instant
  or_self t none = t
  or_self t (some u) = u

  -- The whole milliseconds at or before the instant, before the epoch too.
  unfoldable pub floor_millis : T.Instant → ℤ
  floor_millis t =
      let ms = T.as_millisecond t in
      let nanos = T.subsec_nanosecond t in
      if is_negative nanos && not (eqb (abs nanos % 1_000_000) 0) then pred_ℤ ms else ms

  unfoldable pub truncate_to_millis : T.Instant → T.Instant
  unfolding or_self floor_millis
  truncate_to_millis t = or_self t (T.from_millisecond (floor_millis t))

  unfoldable pub display : T.Instant → String
  unfolding truncate_to_millis show_millis pad2 show_year
  display t =
      let truncated = truncate_to_millis t in
      let dt = T.utc truncated in
      show_year dt.year
      ++ "-"
      ++ pad2 dt.month
      ++ "-"
      ++ pad2 dt.day
      ++ "T"
      ++ pad2 dt.hour
      ++ ":"
      ++ pad2 dt.minute
      ++ ":"
      ++ pad2 dt.second
      ++ "."
      ++ show_millis (T.subsec_nanosecond truncated)
      ++ "Z"
