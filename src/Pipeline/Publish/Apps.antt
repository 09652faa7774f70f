-- ===== src/Pipeline/Publish/Apps.antt =====
-- `build_app_tree` (src/daemon/pipeline/snapshot_stage.rs): the apps of a snapshot. `clock` gives, for
-- the name of a group of short-lived apps, the two readings of the clock that its loop starts from.
pub mod Groups
use Prim.Native.String as Native
use mathlib.Core.List.{foldl, flat_map, map}
use kronical.Prelude.{
  ℕ, zero, suc, ◌+◌, ◌*◌, ◌/◌, String, Bool, true, false, List, [], ◌∷◌, ◌++◌, length, ltb, leb,
  if◌then◌else◌,
}
use kronical.Prelude.Classes.{nat_eq, string_eq}
use kronical.Prelude.Int.{ℤ, pos, saturating_add}
use kronical.Prelude.Sort.{sort_by, descending}
use kronical.Pipeline.Publish.{AppTree}
use kronical.Pipeline.Publish.Durations.{decimal, pretty_format_duration}
use kronical.Records.Aggregate.{AggregateConfig, aggregate_activities_since}
use kronical.Records.Apps.{
  AggregatedActivity, WindowActivity, EphemeralGroup, TemporalGroup, update_entry,
}
use kronical.Snapshot.{SnapshotApp, SnapshotWindow}
use kronical.Time.{DateTime, second}

infixr 65 ◌<>◌
abbrev ◌<>◌ : String → String → String
s <> t = Native.◌++◌ s t

abbrev average : ℕ → ℕ → ℕ
average total count = if ltb 0 count then total / count else 0

abbrev pub window_of : ℕ × WindowActivity → SnapshotWindow
window_of (id, w) = record {
  window_id = decimal w.window_id;
  window_title = w.window_title;
  first_seen = w.first_seen;
  last_seen = w.last_seen;
  duration_seconds = w.duration_seconds;
  is_group = false;
}

abbrev pub ephemeral_window : String × EphemeralGroup → SnapshotWindow
ephemeral_window (title_key, g) = record {
  window_id = "group:" <> g.title_key;
  window_title =
      "(short-lived) ×"
      <> decimal (length g.distinct_ids)
      <> " avg "
      <> pretty_format_duration (average g.total_duration_seconds g.occurrence_count);
  first_seen = g.first_seen;
  last_seen = g.last_seen;
  duration_seconds = g.total_duration_seconds;
  is_group = true;
}

abbrev pub temporal_window : ℕ → TemporalGroup → SnapshotWindow
temporal_window idx g = record {
  window_id =
      "group-temporal:"
      <> g.title_key
      <> ":"
      <> decimal (g.anchor_last_seen / second)
      <> ":"
      <> decimal idx;
  window_title =
      "(temporal locality) ×"
      <> decimal g.occurrence_count
      <> " avg "
      <> pretty_format_duration (average g.total_duration_seconds g.occurrence_count)
      <> " max "
      <> pretty_format_duration g.max_duration_seconds;
  first_seen = g.first_seen;
  last_seen = g.last_seen;
  duration_seconds = g.total_duration_seconds;
  is_group = true;
}

-- `iter().enumerate()`.
abbrev pub temporal_windows : ℕ → List TemporalGroup → List SnapshotWindow
temporal_windows idx [] = []
temporal_windows idx (g ∷ groups) = temporal_window idx g ∷ temporal_windows (idx + 1) groups

abbrev pub last_seen_window : SnapshotWindow → DateTime
last_seen_window w = w.last_seen

unfoldable pub app_of : AggregatedActivity → SnapshotApp
unfolding pretty_format_duration decimal
app_of agg = record {
  app_name = agg.app_name;
  pid = agg.pid;
  process_start_time = agg.process_start_time;
  windows = sort_by (descending last_seen_window) (
      map window_of agg.windows
      ++ map ephemeral_window agg.ephemeral_groups
      ++ temporal_windows 0 agg.temporal_groups);
  total_duration_secs = agg.total_duration_seconds;
  total_duration_pretty = pretty_format_duration agg.total_duration_seconds;
}

-- `short_per_name` and `normal`.
abbrev pub Lanes : Type 0
Lanes = List (String × List AggregatedActivity) × List AggregatedActivity

unfoldable pub split_lanes : ℕ → Lanes → List AggregatedActivity → Lanes
split_lanes app_short_max_duration_secs lanes [] = lanes
split_lanes app_short_max_duration_secs (short_per_name, normal) (agg ∷ aggs) =
    let short : Lanes =
      (update_entry agg.app_name [] (λ v. v ++ agg ∷ []) short_per_name, normal) in
    split_lanes app_short_max_duration_secs
      (if leb agg.total_duration_seconds app_short_max_duration_secs
        then short
        else (short_per_name, normal ++ agg ∷ []))
      aggs

-- The variables of the loop over the apps of one name.
pub record ShortGroup : Type 0 where
  pub total : ℕ
  pub first_seen : DateTime
  pub last_seen : DateTime
  pub rep_pid : ℤ
  pub rep_start : ℕ
  pub max_dur : ℕ

abbrev pub add_short : ShortGroup → AggregatedActivity → ShortGroup
add_short g agg =
    let longer = ltb g.max_dur agg.total_duration_seconds in
    record {
      total = saturating_add g.total agg.total_duration_seconds;
      first_seen = if ltb agg.first_seen g.first_seen then agg.first_seen else g.first_seen;
      last_seen = if ltb g.last_seen agg.last_seen then agg.last_seen else g.last_seen;
      max_dur = if longer then agg.total_duration_seconds else g.max_dur;
      rep_pid = if longer then agg.pid else g.rep_pid;
      rep_start = if longer then agg.process_start_time else g.rep_start;
    }

abbrev pub no_short : DateTime × DateTime → ShortGroup
no_short (now, later) = record {
  total = 0;
  first_seen = now;
  last_seen = later;
  rep_pid = pos 0;
  rep_start = 0;
  max_dur = 0;
}

unfoldable pub short_group : DateTime × DateTime → List AggregatedActivity → ShortGroup
short_group readings v = foldl add_short (no_short readings) v

abbrev pub group_app_of : String → ℕ → ShortGroup → SnapshotApp
group_app_of name count g = record {
  app_name = name;
  pid = g.rep_pid;
  process_start_time = g.rep_start;
  windows =
      record {
        window_id = "app-group:" <> name;
        window_title =
            "×" <> decimal count <> " avg " <> pretty_format_duration (average g.total count);
        first_seen = g.first_seen;
        last_seen = g.last_seen;
        duration_seconds = g.total;
        is_group = true;
      }
      ∷ [];
  total_duration_secs = g.total;
  total_duration_pretty = pretty_format_duration g.total;
}

-- A name with too few short-lived apps is left out.
unfoldable pub short_app :
    ℕ → (String → DateTime × DateTime) → String × List AggregatedActivity → List SnapshotApp
short_app app_short_min_distinct clock (name, v) =
    if leb app_short_min_distinct (length v)
    then group_app_of name (length v) (short_group (clock name) v) ∷ []
    else []

-- The last sighting of the first window, or the epoch.
abbrev pub first_window_seen : List SnapshotWindow → DateTime
first_window_seen [] = 0
first_window_seen (w ∷ ws) = w.last_seen

abbrev pub app_last_seen : SnapshotApp → DateTime
app_last_seen a = first_window_seen a.windows

unfoldable pub build_app_tree :
    List AggregatedActivity → ℕ → ℕ → (String → DateTime × DateTime) → List SnapshotApp
build_app_tree aggregated_activities app_short_max_duration_secs app_short_min_distinct clock =
    let (short_per_name, normal) =
      split_lanes app_short_max_duration_secs ([], []) aggregated_activities in
    sort_by (descending app_last_seen)
      (map app_of normal ++ flat_map (short_app app_short_min_distinct clock) short_per_name)

-- The app tree of `publish_snapshot`: the records of the window, aggregated and laid out.
unfoldable pub app_tree :
    (String → String) → AggregateConfig → ℕ → ℕ → (String → DateTime × DateTime) → AppTree
app_tree normalize_title cfg app_eph_max app_eph_min clock records since now =
    build_app_tree (aggregate_activities_since normalize_title cfg records since now) app_eph_max
      app_eph_min clock
