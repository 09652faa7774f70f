-- ===== src/Monitor.antt =====
-- What the monitor of the command line shows (src/bin/kronictl.rs): the period of sleep, from which it lists
-- the apps, and their tree. The local time zone and the arithmetic of `f64` are records of
-- operations.
pub mod Sleep
pub mod Segments
pub mod Best
pub mod Periods
pub mod Night
pub mod Labels
use kronical.Prelude.{
  ℕ, ◌+◌, ◌-◌, ◌*◌, ◌/◌, min, max, String, Bool, true, false, Option, none, some, List, [], ◌∷◌,
  leb, if◌then◌else◌,
}
use kronical.Prelude.Int.{ℤ, pos, pos_part}
use kronical.Pipeline.Publish.Apps as Publish
use kronical.Pipeline.Publish.Durations.{pretty_format_duration}
use kronical.Records.Apps.{AggregatedActivity}
use kronical.Snapshot.{SnapshotApp}
use kronical.Time.{DateTime, since, second, num_seconds}

-- chrono's `Local`: the clock on the wall at an instant, and the first or the last instant at a full
-- hour of the day of an instant.
pub record LocalTime : Type 0 where
  pub hour : DateTime → ℕ
  pub num_seconds_from_midnight : DateTime → ℕ
  pub earliest : DateTime → ℕ → Option DateTime
  pub latest : DateTime → ℕ → Option DateTime

-- `f64`: whole numbers and their ratios, and a literal as the ratio of two whole numbers.
pub record Doubles {ℓ} (F : Type ℓ) : Type ℓ where
  pub as_f64 : ℤ → F
  pub literal : ℕ → ℕ → F
  pub add : F → F → F
  pub sub : F → F → F
  pub mul : F → F → F
  pub div : F → F → F
  pub min : F → F → F
  pub gt : F → F → Bool

abbrev pub monitor_sleep_min_secs : ℕ
monitor_sleep_min_secs = 4 * 60 * 60

abbrev pub monitor_sleep_merge_gap_secs : ℕ
monitor_sleep_merge_gap_secs = 60 * 60

abbrev pub monitor_sleep_window_start_hour : ℕ
monitor_sleep_window_start_hour = 21

abbrev pub monitor_sleep_target_hour : ℕ
monitor_sleep_target_hour = 4

abbrev pub monitor_sleep_night_start_hour : ℕ
monitor_sleep_night_start_hour = 22

abbrev pub monitor_sleep_night_end_hour : ℕ
monitor_sleep_night_end_hour = 10

abbrev pub monitor_sleep_midpoint_max_diff_secs : ℕ
monitor_sleep_midpoint_max_diff_secs = 6 * 60 * 60

abbrev pub hours : ℕ → ℕ
hours n = n * 3600 * second

abbrev pub unwrap_or : Option DateTime → DateTime → DateTime
unwrap_or none t = t
unwrap_or (some t) u = t

abbrev pub or_latest : Option DateTime → Option DateTime → Option DateTime
or_latest none u = u
or_latest (some t) u = some t

unfoldable pub overlap_seconds : DateTime → DateTime → DateTime → DateTime → ℕ
overlap_seconds start last window_start window_end =
    pos_part (num_seconds (since (min last window_end) (max start window_start)))

module _ (local : LocalTime) where
  unfoldable pub local_midnight : DateTime → DateTime
  local_midnight now = unwrap_or (or_latest (local.earliest now 0) (local.latest now 0)) now

  unfoldable pub sleep_window_bounds : DateTime → DateTime × DateTime
  sleep_window_bounds now =
      let start_today = unwrap_or (local.earliest now monitor_sleep_window_start_hour) now in
      if leb monitor_sleep_window_start_hour (local.hour now)
      then (start_today, start_today + hours 24)
      else (start_today - hours 24, start_today)

  -- `start + (end - start) / 2`, for an end that is not before the start.
  abbrev pub midpoint_of : DateTime → DateTime → DateTime
  midpoint_of start last = start + (last - start) / 2

  unfoldable pub night_band_overlap_seconds : DateTime → DateTime → ℕ
  night_band_overlap_seconds start last =
      let midpoint = midpoint_of start last in
      let band_start =
        unwrap_or (local.earliest midpoint monitor_sleep_night_start_hour) midpoint in
      overlap_seconds start last band_start
        (band_start + hours (24 - monitor_sleep_night_start_hour + monitor_sleep_night_end_hour))

  -- Seconds from the target hour on the clock, up to the greatest difference that counts.
  abbrev pub midpoint_diff : DateTime → ℕ
  midpoint_diff midpoint =
      let secs = local.num_seconds_from_midnight midpoint in
      let target_secs = monitor_sleep_target_hour * 3600 in
      min ((secs - target_secs) + (target_secs - secs)) monitor_sleep_midpoint_max_diff_secs

  module _ {ℓ} {F : Type ℓ} (f : Doubles F) where
    unfoldable pub midpoint_score : DateTime → F
    midpoint_score midpoint = f.sub (f.literal 1 1) (
        f.div (f.as_f64 (pos (midpoint_diff midpoint)))
          (f.as_f64 (pos monitor_sleep_midpoint_max_diff_secs)))

    -- The score of a clipped period.
    unfoldable pub score : DateTime → DateTime → ℤ → F
    score clipped_start clipped_end duration_secs =
        let duration_hours = f.div (f.as_f64 duration_secs) (f.literal 3600 1) in
        let duration_score = f.div (f.min duration_hours (f.literal 12 1)) (f.literal 12 1) in
        let night_overlap = night_band_overlap_seconds clipped_start clipped_end in
        let night_score =
          if leb (pos_part duration_secs) 0
          then f.literal 0 1
          else f.div (f.as_f64 (pos night_overlap)) (f.as_f64 duration_secs) in
        f.add
          (f.add (f.mul (f.literal 5 10) duration_score)
            (f.mul (f.literal 3 10) (midpoint_score (midpoint_of clipped_start clipped_end))))
          (f.mul (f.literal 2 10) night_score)

-- Both are the code of the snapshot stage once more.
abbrev pub pretty_duration : ℕ → String
pretty_duration = pretty_format_duration

abbrev pub build_app_tree :
    List AggregatedActivity → ℕ → ℕ → (String → DateTime × DateTime) → List SnapshotApp
build_app_tree = Publish.build_app_tree
