-- ===== src/Monitor/Sleep.antt =====
-- The period of sleep (src/bin/kronictl.rs, `find_sleep_period_with_window`): of the stays at the login window
-- that are long enough, the one with the best score.
use kronical.Prelude.{
  min, max, Bool, true, false, not, ◌&&◌, Option, none, some, List, [], ◌∷◌, ◌++◌, ltb, is_empty,
  if◌then◌else◌,
}
use mathlib.Core.List.{reverse, foldl}
use mathlib.Core.Option
use kronical.Prelude.Int.{ℤ, pos, leb_ℤ, ltb_ℤ}
use kronical.Prelude.Loops.{emit_each}
use kronical.Prelude.Sort.{sort_by_key}
use kronical.Prelude.Text.{eq_ignore_ascii_case}
use kronical.Events.{WindowFocusInfo}
use kronical.Records.{ActivityRecord}
use kronical.Time.{DateTime, since, num_seconds}
use kronical.Tracker.{loginwindow_app}
use kronical.Monitor.{
  LocalTime, Doubles, monitor_sleep_merge_gap_secs, monitor_sleep_min_secs, overlap_seconds,
  sleep_window_bounds, local_midnight, score, unwrap_or,
}

-- A start and an end.
abbrev pub Period : Type 0
Period = DateTime × DateTime

abbrev pub login_focus : Option WindowFocusInfo → Bool
login_focus none = false
login_focus (some f) = eq_ignore_ascii_case f.app_name loginwindow_app

abbrev pub is_loginwindow : ActivityRecord → Bool
is_loginwindow activity = login_focus activity.focus_info

abbrev pub rec_end : DateTime → ActivityRecord → DateTime
rec_end now activity = unwrap_or activity.end_time now

-- `current_start` and `current_end`, which are set and taken together.
abbrev pub extended : Option Period → DateTime → DateTime → Period
extended none start_time last = (start_time, last)
extended (some (start, current_end)) start_time last =
    (start, if ltb current_end last then last else current_end)

abbrev pub finished : Option Period → List Period
finished none = []
finished (some period) = period ∷ []

unfoldable pub see_record : DateTime → Option Period → ActivityRecord → Option Period × List Period
see_record now current activity =
    if is_loginwindow activity
    then (some (extended current activity.start_time (rec_end now activity)), [])
    else (none, finished current)

unfoldable pub segments_of : DateTime → List ActivityRecord → List Period
segments_of now records =
    let (current, segments) = emit_each (see_record now) none records in
    segments ++ finished current

-- The merged segments, the last one first.
unfoldable pub merge_segment : List Period → Period → List Period
merge_segment [] segment = segment ∷ []
merge_segment (last ∷ merged) (start, finish) =
    let gap = num_seconds (since start last.1) in
    if leb_ℤ (pos 0) gap && leb_ℤ gap (pos monitor_sleep_merge_gap_secs)
    then (last.0, if ltb last.1 finish then finish else last.1) ∷ merged
    else (start, finish) ∷ last ∷ merged

unfoldable pub merge_segments : List Period → List Period
merge_segments segments = reverse (foldl merge_segment [] (sort_by_key (λ s. s.0) segments))

abbrev pub clipped : Period → Period → Period
clipped window segment = (max segment.0 window.0, min segment.1 window.1)

-- Those that are not passed over by `continue`.
unfoldable pub is_candidate : Period → ℤ → Period → Bool
is_candidate window min_duration_secs segment =
    let period = clipped window segment in
    ltb 0 (overlap_seconds segment.0 segment.1 window.0 window.1)
    && not (ltb_ℤ (num_seconds (since period.1 period.0)) min_duration_secs)

module _ {ℓ} {F : Type ℓ} (local : LocalTime) (f : Doubles F) where
  abbrev pub score_of : Period → F
  score_of period = score local f period.0 period.1 (num_seconds (since period.1 period.0))

  abbrev pub is_better : Option (F × Period) → F → Bool
  is_better none score = true
  is_better (some (best_score, period)) score = f.gt score best_score

  unfoldable pub consider : Period → ℤ → Option (F × Period) → Period → Option (F × Period)
  consider window min_duration_secs best segment =
      let period = clipped window segment in
      if is_candidate window min_duration_secs segment && is_better best (score_of period)
      then some (score_of period, period)
      else best

  unfoldable pub find_sleep_period_with_window :
      List ActivityRecord → DateTime → Period → ℤ → Option Period
  find_sleep_period_with_window records now window min_duration_secs =
      let segments = segments_of now records in
      if is_empty segments
      then none
      else Option.map (λ best. best.1)
          (foldl (consider window min_duration_secs) none (merge_segments segments))

  -- With the two readings of the clock.
  unfoldable pub find_sleep_period : List ActivityRecord → DateTime → DateTime → ℤ → Option Period
  find_sleep_period records now now_local min_duration_secs =
      find_sleep_period_with_window records now (sleep_window_bounds local now_local)
        min_duration_secs

  -- `select_apps_period`: the time from which apps are listed. The clock is read twice for the local
  -- time.
  unfoldable pub select_apps_since : List ActivityRecord → DateTime → DateTime → DateTime → DateTime
  select_apps_since records now now_local sleep_now =
      since_of now_local (find_sleep_period records now sleep_now (pos monitor_sleep_min_secs))
    where
      since_of : DateTime → Option Period → DateTime
      since_of now_local none = local_midnight local now_local
      since_of now_local (some period) = period.0
