-- ===== src/Grpc/Map/Clock.antt =====
-- crates/heyl-grpc/src/map.rs: a time that goes out over the wire and comes back.
use heyl.Prelude.{ℕ, ◌+◌, ◌*◌, ◌≤◌, ◌≡◌, refl, ap, arith, some}
use heyl.Prelude.Int.{ℤ, pos, negsuc, abs}
use heyl.Domain.Time.{Jiff}
use heyl.Grpc.Map.{
  checked, timestamp, timestamp_to_proto, div_euclid_1000, rem_euclid_1000, div_million, times_1000,
  ◌+ℤ◌,
}

-- The milliseconds of the instants that `jiff` has, the years -9999 to 9999, are at most these.
abbrev pub max_millis : ℕ
max_millis = 377_705_023_201_000

checked-small : (i : ℤ) → abs i ≤ max_millis + 1000 → checked i ≡ some i
unfolding checked
checked-small (pos n) h = ground arith
checked-small (negsuc n) h = ground arith

sum : (millis : ℤ) → ℤ
sum millis =
    times_1000 (div_euclid_1000 millis) +ℤ div_million (pos (rem_euclid_1000 millis * 1_000_000))

sum-same : (millis : ℤ) → sum millis ≡ millis
unfolding sum
sum-same (pos n) = ap pos (omega arith)
sum-same (negsuc n) = ground arith

times-small :
    (i : ℤ) → abs i ≤ max_millis → abs (times_1000 (div_euclid_1000 i)) ≤ max_millis + 1000
times-small (pos n) h = omega arith
times-small (negsuc n) h = omega arith

module _ (T : Jiff) where
  -- A time of the years that `jiff` has comes back from the wire as what its milliseconds give.
  pub timestamp-timestamp_to_proto :
      (t : T.Instant)
      → abs (T.as_millisecond t) ≤ max_millis
      → timestamp T (timestamp_to_proto T t) ≡ T.from_millisecond (T.as_millisecond t)
  unfolding timestamp timestamp_to_proto sum
  timestamp-timestamp_to_proto t h =
      let millis = T.as_millisecond t in
      rw
        (
          checked-small (times_1000 (div_euclid_1000 millis)) (times-small millis h),
          sum-same millis,
          checked-small millis (omega arith),
        )
        refl
