-- ===== src/App/Settings/Timeouts.antt =====
-- Timeouts as texts: what is read, what is refused, and that a printed timeout reads back.
use heyl.Prelude.{ℕ, ◌*◌, ◌/◌, ◌≤◌, ◌<◌, ◌≡◌, String, some, arith, inl, inr, Option-cases}
use heyl.Prelude.Decimal.{parse_u64}
use heyl.Prelude.Trim.{trim}
use heyl.Prelude.Results.{ok}
use heyl.Domain.Ids.{Uuids}
use heyl.App.Settings.{split_unit, checked_mul, to_u32, parse_timeout}

module _ (U : Uuids) where
  parsed :
      (value s : String) (scale n : ℕ)
      → split_unit value ≡ (s, scale)
      → parse_u64 (trim s) ≡ some n
      → n * scale < 18446744073709551616
      → n * scale / 60 < 4294967296
      → 1 ≤ n * scale / 60
      → parse_timeout U value ≡ ok (n * scale / 60)
  unfolding parse_timeout checked_mul to_u32
  parsed value s scale n e p a b c = rw (e, p) (ground arith)

  -- An accepted timeout is at least one minute and fits 32 bits, and is the number read, in its unit,
  -- rounded down to minutes.
  pub parse_timeout_bounds :
      (value : String) (m : ℕ)
      → parse_timeout U value ≡ ok m
      → (1 ≤ m)
        × (m < 4294967296)
        × (n : ℕ) × (parse_u64 (trim (split_unit value).0) ≡ some n)
        × (m ≡ n * (split_unit value).1 / 60)
  unfolding parse_timeout checked_mul to_u32
  parse_timeout_bounds value m h = elim (Option-cases (parse_u64 (trim (split_unit value).0))) [
    | inl e ↦ let r = (rw (parse_timeout, e) at h) in ground arith
    | inr (n, e) ↦ let r = (rw (parse_timeout, e) at h) in ground arith
  ]
