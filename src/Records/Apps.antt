-- ===== src/Records/Apps.antt =====
-- `aggregate_activities_since` (crates/core/src/records.rs), its first loop: records as apps with their
-- windows. Maps are lists in the order of their iteration.
use kronical.Prelude.{
  ℕ, zero, suc, ◌+◌, ◌-◌, ◌%◌, ◌^◌, min, max, String, not, ◌&&◌, Option, none, some, List, [], ◌∷◌,
  ltb, leb, if◌then◌else◌,
}
use kronical.Prelude.Classes.{Eq, nat_eq, string_eq, pair_eq}
use kronical.Prelude.Int.{ℤ, pos, negsuc}
use kronical.Prelude.Text.{str_eq}
use kronical.Common.Maps.{lookup, insert}
use kronical.Events.{WindowFocusInfo}
use kronical.Records.{ActivityRecord, u64_mod}
use kronical.Time
use kronical.Time.{DateTime, num_seconds, second}

pub record WindowActivity : Type 0 where
  pub window_id : ℕ
  pub window_title : String
  pub duration_seconds : ℕ
  pub first_seen : DateTime
  pub last_seen : DateTime
  pub record_count : ℕ

pub record EphemeralGroup : Type 0 where
  pub title_key : String
  pub distinct_ids : List ℕ
  pub occurrence_count : ℕ
  pub total_duration_seconds : ℕ
  pub first_seen : DateTime
  pub last_seen : DateTime

pub record TemporalGroup : Type 0 where
  pub title_key : String
  pub distinct_ids : List ℕ
  pub occurrence_count : ℕ
  pub total_duration_seconds : ℕ
  pub max_duration_seconds : ℕ
  pub first_seen : DateTime
  pub last_seen : DateTime
  pub anchor_last_seen : DateTime

pub record AggregatedActivity : Type 0 where
  pub app_name : String
  pub pid : ℤ
  pub process_start_time : ℕ
  pub windows : List (ℕ × WindowActivity)
  pub ephemeral_groups : List (String × EphemeralGroup)
  pub temporal_groups : List TemporalGroup
  pub total_duration_seconds : ℕ
  pub first_seen : DateTime
  pub last_seen : DateTime

abbrev pub AppKey : Type 0
AppKey = ℕ × ℕ

abbrev pub AppMap : Type 0
AppMap = List (AppKey × AggregatedActivity)

-- `as u32` of an `i32`.
abbrev pub as_u32 : ℤ → ℕ
as_u32 (pos n) = n
as_u32 (negsuc n) = 2 ^ 32 - 1 - n

-- The part of a record that counts, with its whole seconds.
pub record Span : Type 0 where
  pub rec_start : DateTime
  pub rec_end : DateTime
  pub duration : ℕ

-- `dur <= 0` skips the record.
abbrev pub whole_seconds : DateTime → DateTime → ℤ → Option Span
whole_seconds rec_start rec_end (pos zero) = none
whole_seconds rec_start rec_end (pos (suc n)) =
    some (record { rec_start = rec_start; rec_end = rec_end; duration = suc n })
whole_seconds rec_start rec_end (negsuc n) = none

abbrev pub end_or : DateTime → Option DateTime → DateTime
end_or now none = now
end_or now (some end) = end

unfoldable pub span_of : DateTime → DateTime → ActivityRecord → Option Span
span_of since now r =
    let rec_start = max r.start_time since in
    let rec_end = end_or now r.end_time in
    if leb rec_end since
    then none
    else whole_seconds rec_start rec_end (num_seconds (Time.since rec_end rec_start))

abbrev pub or_default {ℓ} : {A : Type ℓ} → A → Option A → A
or_default default none = default
or_default default (some a) = a

-- `entry(key).or_insert_with(default)` and a change of the entry.
unfoldable pub update_entry {ℓ} :
    {K V : Type ℓ} ⦃e : Eq K⦄ → K → V → (V → V) → List (K × V) → List (K × V)
update_entry k default change m = insert k (change (or_default default (lookup k m))) m

abbrev pub window_entry : WindowFocusInfo → Span → WindowActivity
window_entry f s = record {
  window_id = f.window_id;
  window_title = f.window_title;
  duration_seconds = 0;
  first_seen = s.rec_start;
  last_seen = s.rec_end;
  record_count = 0;
}

abbrev pub see_window : WindowFocusInfo → Span → WindowActivity → WindowActivity
see_window f s w = record w {
  window_title = f.window_title;
  duration_seconds = (w.duration_seconds + s.duration) % u64_mod;
  first_seen = min w.first_seen s.rec_start;
  last_seen = max w.last_seen s.rec_end;
  record_count = (w.record_count + 1) % 2 ^ 32;
}

-- Only a window with a title and an id is kept apart.
unfoldable pub see_windows :
    WindowFocusInfo → Span → List (ℕ × WindowActivity) → List (ℕ × WindowActivity)
see_windows f s windows =
    if not (str_eq f.window_title "") && ltb 0 f.window_id
    then update_entry f.window_id (window_entry f s) (see_window f s) windows
    else windows

abbrev pub app_entry : WindowFocusInfo → Span → AggregatedActivity
app_entry f s = record {
  app_name = f.app_name;
  pid = f.pid;
  process_start_time = f.process_start_time;
  windows = [];
  ephemeral_groups = [];
  temporal_groups = [];
  total_duration_seconds = 0;
  first_seen = s.rec_start;
  last_seen = s.rec_end;
}

abbrev pub see_app : WindowFocusInfo → Span → AggregatedActivity → AggregatedActivity
see_app f s a = record a {
  total_duration_seconds = (a.total_duration_seconds + s.duration) % u64_mod;
  first_seen = min a.first_seen s.rec_start;
  last_seen = max a.last_seen s.rec_end;
  windows = see_windows f s a.windows;
}

abbrev pub add_span : WindowFocusInfo → AppMap → Option Span → AppMap
add_span f m none = m
add_span f m (some s) =
    update_entry (as_u32 f.pid, f.process_start_time) (app_entry f s) (see_app f s) m

-- The body of the loop over the records.
abbrev pub add_focused :
    DateTime → DateTime → AppMap → ActivityRecord → Option WindowFocusInfo → AppMap
add_focused since now m r none = m
add_focused since now m r (some f) = add_span f m (span_of since now r)

unfoldable pub app_map : DateTime → DateTime → AppMap → List ActivityRecord → AppMap
app_map since now m [] = m
app_map since now m (r ∷ records) =
    app_map since now (add_focused since now m r r.focus_info) records
