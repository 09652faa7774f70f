-- ===== src/Examples/Aggregates.antt =====
-- Records aggregated into apps and laid out for a snapshot, at concrete inputs. Titles are left as
-- they are.
use mathlib.Core.List.{flat_map, map}
use kronical.Prelude.{
  ℕ, ◌+◌, ◌%◌, ◌≤◌, ◌≡◌, refl, String, Bool, true, false, Option, none, some, List, [], ◌∷◌, length,
  is_empty, arith, All,
}
use kronical.Prelude.Chunks.{chunk_by}
use kronical.Prelude.Int.{saturating_add}
use kronical.Prelude.Loops.{emit_each}
use kronical.Prelude.Sort.{sort_by, descending, IsSorted}
use kronical.Common.Maps.{lookup, insert, remove}
use kronical.Common.Sums.{sum_by}
use kronical.Events.{WindowFocusInfo}
use kronical.Events.Model.{ActivityState}
use kronical.Examples.Data.{window, secs}
use kronical.Pipeline.Publish.Apps.{split_lanes, app_last_seen, build_app_tree}
use kronical.Pipeline.Publish.Apps.Groups.{left_out, secs_of, build_app_tree-Conserves}
use kronical.Pipeline.Publish.Durations.{pretty_format_duration}
use kronical.Records.{ActivityRecord, u64_mod}
use kronical.Records.Aggregate.{
  WindowEntry, AggregateConfig, last_seen_of, last_seen_app, group_app, trim_windows,
  group_temporal, by_title, group_ephemeral, keep_groups, stage_windows, insert_id, on_window,
  clusters_of, build_temporal_group, aggregate_activities_since,
}
use kronical.Records.Apps.{AggregatedActivity, app_map, span_of, update_entry, see_windows}
use kronical.Records.Aggregate.Clusters.{
  near, of_two, IsBounded, clusters_of-chunk_by, aggregate-IsBounded,
}
use kronical.Records.Aggregate.Totals.{total_of, counted, aggregate-Conserves}
use kronical.Time.{DateTime}

abbrev activity : ℕ → ℕ → WindowFocusInfo → ActivityRecord
activity from to focus = record {
  record_id = from;
  run_id = none;
  start_time = secs from;
  end_time = some (secs to);
  state = ActivityState.active;
  focus_info = some focus;
  event_count = 0;
  triggering_events = [];
}

abbrev records : List ActivityRecord
records =
    activity 10 100 (window "Editor" 5 "notes")
    ∷ activity 100 130 (window "Editor" 6 "notes")
    ∷ activity 130 140 (window "Editor" 7 "draft")
    ∷ []

abbrev cfg : AggregateConfig
cfg = record { short_thresh_secs = 60; ephemeral_min_distinct_ids = 3; max_windows_per_app = 1 }

abbrev as_it_is : String → String
as_it_is title = title

abbrev apps : List AggregatedActivity
apps = aggregate_activities_since as_it_is cfg records (secs 20) (secs 200)

-- The first ten seconds lie before the window; the two windows of one title form a group.
apps_total : map total_of apps ≡ 120 ∷ []
unfolding aggregate_activities_since app_map span_of update_entry see_windows group_app trim_windows
    group_temporal flat_map by_title group_ephemeral keep_groups stage_windows insert_id clusters_of
    build_temporal_group on_window sort_by lookup insert remove emit_each
apps_total = refl

apps_windows : map (λ a. length a.windows) apps ≡ 1 ∷ []
unfolding aggregate_activities_since app_map span_of update_entry see_windows group_app trim_windows
    group_temporal flat_map by_title group_ephemeral keep_groups stage_windows insert_id clusters_of
    build_temporal_group on_window sort_by lookup insert remove emit_each
apps_windows = refl

aggregate-Conserves_example :
    sum_by total_of apps % u64_mod ≡ sum_by (counted (secs 20) (secs 200)) records % u64_mod
aggregate-Conserves_example = aggregate-Conserves as_it_is cfg records (secs 20) (secs 200)

aggregate-IsBounded_example :
    IsSorted (descending last_seen_app) apps × All (IsBounded cfg.max_windows_per_app) apps
aggregate-IsBounded_example = aggregate-IsBounded as_it_is cfg records (secs 20) (secs 200)

abbrev seen : ℕ → ℕ → ℕ → WindowEntry
seen id from to = (
  id,
  record {
    window_id = id;
    window_title = "notes";
    duration_seconds = 5;
    first_seen = secs from;
    last_seen = secs to;
    record_count = 1;
  },
)

abbrev windows : List WindowEntry
windows = seen 1 0 10 ∷ seen 2 10 5000 ∷ seen 3 20 8000 ∷ []

-- The first window was last seen more than an hour before the second.
windows_clusters : map (λ (e, rest). length rest) (clusters_of windows) ≡ 1 ∷ []
unfolding clusters_of emit_each sort_by on_window
windows_clusters = refl

clusters_of-chunk_by_example :
    clusters_of windows
    ≡ flat_map of_two (chunk_by near (sort_by (descending last_seen_of) windows))
clusters_of-chunk_by_example = clusters_of-chunk_by windows

pretty_hour : pretty_format_duration 90061 ≡ "1d1h1m1s"
unfolding pretty_format_duration
pretty_hour = refl

abbrev clock : String → DateTime × DateTime
clock name = (secs 1000, secs 1000)

abbrev brief : AggregatedActivity
brief = record {
  app_name = "Mail";
  pid = kronical.Prelude.Int.pos 4;
  process_start_time = 1;
  windows = [];
  ephemeral_groups = [];
  temporal_groups = [];
  total_duration_seconds = 30;
  first_seen = secs 10;
  last_seen = secs 40;
}

build_app_tree-Conserves_example :
    (sum_by secs_of (build_app_tree (brief ∷ brief ∷ []) 60 1 clock)
        + sum_by (left_out 1) (split_lanes 60 ([], []) (brief ∷ brief ∷ [])).0
      ≡ 60)
    × IsSorted (descending app_last_seen) (build_app_tree (brief ∷ brief ∷ []) 60 1 clock)
build_app_tree-Conserves_example =
    build_app_tree-Conserves clock 1 (brief ∷ brief ∷ []) 60 (omega arith)
