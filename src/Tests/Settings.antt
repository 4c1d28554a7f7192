-- ===== src/Tests/Settings.antt =====
-- Settings read and changed.
use heyl.Prelude.{◌≡◌, refl, true, some, ◌≤◌, ◌<◌, ℕ, ◌*◌, ◌/◌}
use heyl.Prelude.Decimal.{parse_u64}
use heyl.Prelude.Trim.{trim, strip_suffix}
use heyl.Prelude.Results.{ok}
use heyl.Domain.Session.{SessionPolicy, default_policy}
use heyl.App.Settings.{strict, parse_timeout, split_unit, apply_setting}
use heyl.App.Settings.Timeouts.{parse_timeout_bounds}
use heyl.Tests.Samples.{tags}

two_minutes : parse_timeout tags "150s" ≡ ok 2
unfolding parse_timeout parse_u64 trim strip_suffix
two_minutes = refl

parse_timeout_bounds_example :
    (1 ≤ 2)
    × (2 < 4294967296)
    × (n : ℕ) × (parse_u64 (trim (split_unit "150s").0) ≡ some n)
    × (2 ≡ n * (split_unit "150s").1 / 60)
parse_timeout_bounds_example = parse_timeout_bounds tags "150s" 2 two_minutes

abbrev strict_default : SessionPolicy
strict_default = record default_policy { strict = true }

strict_on : apply_setting tags strict "yes" default_policy ≡ some (ok strict_default)
unfolding apply_setting
strict_on = refl
