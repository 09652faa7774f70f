-- ===== src/Time.antt =====
-- chrono's `DateTime<Utc>` and `Duration`, as the program uses them: an instant is a number of
-- nanoseconds since the Unix epoch (every reading of the clock is later than that), a duration is
-- a signed number of nanoseconds. `num_seconds` and `num_milliseconds` round towards zero.
use kronical.Prelude.{ℕ, ◌+◌, ◌/◌}
use kronical.Prelude.Int.{ℤ, pos, negsuc, neg, sub_ℕ}

abbrev pub DateTime : Type 0
DateTime = ℕ

abbrev pub Duration : Type 0
Duration = ℤ

abbrev pub second : ℕ
second = 1_000_000_000

abbrev pub millisecond : ℕ
millisecond = 1_000_000

-- `now - earlier`, also `signed_duration_since`.
abbrev pub since : DateTime → DateTime → Duration
since now earlier = sub_ℕ now earlier

abbrev pub num_seconds : Duration → ℤ
num_seconds (pos n) = pos (n / second)
num_seconds (negsuc n) = neg ((n + 1) / second)

abbrev pub num_milliseconds : Duration → ℤ
num_milliseconds (pos n) = pos (n / millisecond)
num_milliseconds (negsuc n) = neg ((n + 1) / millisecond)

-- `timestamp_millis`.
abbrev pub timestamp_millis : DateTime → ℕ
timestamp_millis t = t / millisecond
