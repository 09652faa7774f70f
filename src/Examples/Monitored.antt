-- ===== src/Examples/Monitored.antt =====
-- The period of sleep at concrete inputs: a clock of UTC, and whole numbers for `f64`.
use kronical.Logs.Chars.{is_whitespace, trim_start}
use kronical.Prelude.Sort.{sort_by}
use kronical.Prelude.Loops.{emit_each}
use kronical.Prelude.{
  ℕ, ◌+◌, ◌-◌, ◌*◌, ◌/◌, ◌%◌, ◌≡◌, ◌⊎◌, refl, ap, ltb, String, true, false, none, some, List, [],
  ◌∷◌, All, Exists, arith, if◌then◌else◌,
}
use kronical.Prelude.Int.{ℤ, pos, pos_part}
use kronical.Prelude.Text.{codes, eq_ignore_ascii_case}
use kronical.Events.Model.{ActivityState}
use kronical.Records.{ActivityRecord}
use kronical.Time.{second, since, num_seconds}
use kronical.Monitor.{LocalTime, Doubles, hours, night_band_overlap_seconds, overlap_seconds}
use kronical.Monitor.Sleep.{
  Period, segments_of, merge_segments, is_candidate, clipped, score_of,
  find_sleep_period_with_window, consider, merge_segment, see_record,
}
use kronical.Monitor.Best.{IsNoBetter, IsGreater, find_sleep_period-IsBest}
use kronical.Monitor.Periods.{IsStay, find_sleep_period-IsStay}
use kronical.Monitor.Night.{IsSteady, night_band_overlap-one_night}
use kronical.Monitor.Labels.{
  group_label_for_display, canonical_of, strip_group_prefix, strip_prefix,
}

abbrev day : ℕ
day = hours 24

abbrev utc : LocalTime
utc = record {
  hour = λ t. t % day / hours 1;
  num_seconds_from_midnight = λ t. t % day / second;
  earliest = λ t hour. some (t / day * day + hours hour);
  latest = λ t hour. some (t / day * day + hours hour);
}

abbrev whole : Doubles ℕ
whole = record {
  as_f64 = pos_part;
  literal = λ n m. n;
  add = λ a b. a + b;
  sub = λ a b. a - b;
  mul = λ a b. a * b;
  div = λ a b. a / b;
  min = λ a b. if ltb a b then a else b;
  gt = λ a b. ltb b a;
}

whole-IsGreater :
    (window : Period) (min_duration_secs : ℤ) → IsGreater utc whole window min_duration_secs
whole-IsGreater window min_duration_secs = record {
  irrefl = λ a. ground arith;
  below = λ a b c h k. ground (arith, h, k);
}

abbrev at_app : String → ℕ → ℕ → ActivityRecord
at_app app start last = record {
  record_id = 0;
  run_id = none;
  start_time = start;
  end_time = some last;
  state = ActivityState.active;
  focus_info = some (record {
    pid = pos 1;
    process_start_time = 0;
    app_name = app;
    window_title = "title";
    window_id = 1;
    window_instance_start = start;
    window_position = none;
    window_size = none;
  });
  event_count = 0;
  triggering_events = [];
}

-- From 23:00 to 1:00, to 7:00 of the second day, then at work.
abbrev night : List ActivityRecord
night =
    at_app "LoginWindow" (hours 23) (hours 25)
    ∷ at_app "loginwindow" (hours 25) (hours 31)
    ∷ at_app "Terminal" (hours 31) (hours 33)
    ∷ []

abbrev evening_on : Period
evening_on = (hours 21, hours 45)

slept :
    find_sleep_period_with_window utc whole night (hours 34) evening_on (pos 14400)
    ≡ some (hours 23, hours 31)
unfolding find_sleep_period_with_window segments_of emit_each see_record eq_ignore_ascii_case
    merge_segments sort_by merge_segment consider is_candidate overlap_seconds
slept = refl

find_sleep_period-IsStay_example :
    IsStay night (hours 34) evening_on (pos 14400) (hours 23, hours 31)
find_sleep_period-IsStay_example =
    find_sleep_period-IsStay night (hours 34) evening_on (pos 14400) utc whole (hours 23, hours 31)
      slept

find_sleep_period-IsBest_example :
    let found = find_sleep_period_with_window utc whole night (hours 34) evening_on (pos 14400) in
    let merged = merge_segments (segments_of (hours 34) night) in
    ((found ≡ none) × All (λ s. is_candidate evening_on (pos 14400) s ≡ false) merged)
    ⊎ ((period : Period) × (found ≡ some period)
        × Exists
            (λ s. (is_candidate evening_on (pos 14400) s ≡ true) × (period ≡ clipped evening_on s))
            merged
        × All (IsNoBetter utc whole evening_on (pos 14400) (score_of utc whole period)) merged)
find_sleep_period-IsBest_example =
    find_sleep_period-IsBest utc whole evening_on (pos 14400)
      (whole-IsGreater evening_on (pos 14400)) night (hours 34)

abbrev utc_days : IsSteady utc
utc_days = record {
  midnight = λ d. d * day;
  next = λ d. omega arith;
  hour_of_day = λ t d h from until hour. ap some (ground (arith, from, until));
}

-- From 23:00 to 7:00: the midpoint is after midnight.
night_band_overlap-one_night_example : night_band_overlap_seconds utc (hours 23) (hours 31) ≡ (
    if ltb (hours 23 + hours 31) (2 * (1 * day))
    then pos_part (num_seconds (since (hours 31) (hours 23)))
    else 0)
night_band_overlap-one_night_example =
    night_band_overlap-one_night utc utc_days 0 (hours 23) (hours 31) (omega arith) (omega arith)
      (omega arith)

-- The whole night has no night in it, but three hours up to 1:00 have.
nights :
    (night_band_overlap_seconds utc (hours 23) (hours 31) ≡ 0)
    × (night_band_overlap_seconds utc (hours 22) (hours 25) ≡ 10800)
unfolding night_band_overlap_seconds overlap_seconds
nights = (refl, refl)

label :
    group_label_for_display (codes "group:inbox") (codes "inbox (short-lived)")
    ≡ codes "(short-lived)"
unfolding group_label_for_display trim_start canonical_of strip_prefix strip_group_prefix
    is_whitespace
label = refl
