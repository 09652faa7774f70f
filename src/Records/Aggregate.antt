-- ===== src/Records/Aggregate.antt =====
-- `aggregate_activities_since` (crates/core/src/records.rs): an app's windows as groups, their trim,
-- and the apps. Maps and sets are lists in the order of their iteration. What the standard library's
-- `trim` and `to_lowercase` do to a title is an argument.
pub mod Totals
pub mod Clusters
use mathlib.Core.List.{foldl, flat_map, map}
use kronical.Prelude.{
  ℕ, zero, suc, ◌+◌, ◌-◌, ◌*◌, ◌%◌, ◌^◌, min, max, String, Bool, true, false, not, ◌&&◌, ◌||◌,
  Option, none, some, List, [], ◌∷◌, ◌++◌, length, take, ltb, leb, ◌==◌, if◌then◌else◌,
}
use kronical.Prelude.Classes.{Eq, nat_eq, string_eq, pair_eq}
use kronical.Prelude.Int.{ℤ, pos, negsuc, leb_ℤ, saturating_add}
use kronical.Prelude.Loops.{emit_each}
use kronical.Prelude.Sort.{sort_by, descending}
use kronical.Prelude.Text.{str_eq}
use kronical.Common.Maps.{lookup, insert, remove}
use kronical.Events.{WindowFocusInfo}
use kronical.Records.{ActivityRecord, u64_mod}
use kronical.Time
use kronical.Time.{DateTime, num_seconds, second}
use kronical.Records.Apps.{
  WindowActivity, EphemeralGroup, TemporalGroup, AggregatedActivity, or_default, update_entry,
  app_map,
}

-- A `HashSet<u32>`.
unfoldable pub insert_id : ℕ → List ℕ → List ℕ
insert_id i [] = i ∷ []
insert_id i (j ∷ ids) = let rest = insert_id i ids in if j == i then j ∷ ids else j ∷ rest

abbrev pub WindowEntry : Type 0
WindowEntry = ℕ × WindowActivity

module _ (normalize_title : String → String) where
  abbrev pub Staged : Type 0
  Staged = List (String × EphemeralGroup) × List (String × List ℕ)

  abbrev pub group_entry : String → WindowActivity → EphemeralGroup
  group_entry title_key w = record {
    title_key = title_key;
    distinct_ids = [];
    occurrence_count = 0;
    total_duration_seconds = 0;
    first_seen = w.first_seen;
    last_seen = w.last_seen;
  }

  abbrev pub see_group : ℕ → WindowActivity → EphemeralGroup → EphemeralGroup
  see_group id w g = record g {
    distinct_ids = insert_id id g.distinct_ids;
    occurrence_count = (g.occurrence_count + 1) % 2 ^ 32;
    total_duration_seconds = (g.total_duration_seconds + w.duration_seconds) % u64_mod;
    first_seen = min g.first_seen w.first_seen;
    last_seen = max g.last_seen w.last_seen;
  }

  -- The first pass: the groups that short windows may form, and their members.
  unfoldable pub stage_windows : ℕ → Staged → List WindowEntry → Staged
  stage_windows short_thresh_secs st [] = st
  stage_windows short_thresh_secs (staged, members) ((id, w) ∷ windows) =
      let title_key = normalize_title w.window_title in
      let st : Staged = (
        update_entry title_key (group_entry title_key w) (see_group id w) staged,
        update_entry title_key [] (λ ids. ids ++ id ∷ []) members,
      ) in
      stage_windows short_thresh_secs
        (if ltb w.duration_seconds short_thresh_secs then st else (staged, members)) windows

abbrev pub remove_ids : List ℕ → List WindowEntry → List WindowEntry
remove_ids ids m = foldl (λ m id. remove id m) m ids

-- A staged group of enough windows takes the place of its members.
abbrev pub keep_group :
    ℕ → List (String × List ℕ) → AggregatedActivity → String → EphemeralGroup → AggregatedActivity
keep_group min_ids members a title_key group =
    if leb min_ids (length group.distinct_ids)
    then record a {
      ephemeral_groups = insert title_key group a.ephemeral_groups;
      windows = remove_ids (or_default [] (lookup title_key members)) a.windows;
    }
    else a

unfoldable pub keep_groups :
    ℕ
    → List (String × List ℕ)
    → AggregatedActivity
    → List (String × EphemeralGroup)
    → AggregatedActivity
keep_groups min_ids members a [] = a
keep_groups min_ids members a ((title_key, group) ∷ staged) =
    keep_groups min_ids members (keep_group min_ids members a title_key group) staged

unfoldable pub group_ephemeral : (String → String) → ℕ → ℕ → AggregatedActivity → AggregatedActivity
group_ephemeral normalize_title short_thresh_secs min_ids a =
    let (staged, members) = stage_windows normalize_title short_thresh_secs ([], []) a.windows in
    keep_groups min_ids members a staged

-- A cluster that is open: `current`, never empty, and the last `last_seen`.
pub record Cluster : Type 0 where
  pub first : WindowEntry
  pub rest : List WindowEntry
  pub prev_last_seen : DateTime

abbrev pub locality : ℤ
locality = pos (60 * (60 * second))

abbrev pub open_cluster : WindowEntry → Cluster
open_cluster (id, w) = record { first = (id, w); rest = []; prev_last_seen = w.last_seen }

-- A cluster of one window is no group.
abbrev pub close_cluster : Cluster → List (WindowEntry × List WindowEntry)
close_cluster c = if leb 2 (suc (length c.rest)) then (c.first, c.rest) ∷ [] else []

unfoldable pub on_window :
    Option Cluster → WindowEntry → Option Cluster × List (WindowEntry × List WindowEntry)
on_window none e = (some (open_cluster e), [])
on_window (some c) (id, w) =
    if leb_ℤ (Time.since c.prev_last_seen w.last_seen) locality
    then (some (record c { rest = c.rest ++ (id, w) ∷ []; prev_last_seen = w.last_seen }), [])
    else (some (open_cluster (id, w)), close_cluster c)

abbrev pub close_last : Option Cluster → List (WindowEntry × List WindowEntry)
close_last none = []
close_last (some c) = close_cluster c

abbrev pub last_seen_of : WindowEntry → DateTime
last_seen_of (id, w) = w.last_seen

-- The windows of one title: `continue` for a single one.
unfoldable pub clusters_of : List WindowEntry → List (WindowEntry × List WindowEntry)
clusters_of items =
    let (last, out) = emit_each on_window none (sort_by (descending last_seen_of) items) in
    if ltb (length items) 2 then [] else out ++ close_last last

abbrev pub see_member : TemporalGroup → WindowEntry → TemporalGroup
see_member g (id, w) = record g {
  distinct_ids = insert_id id g.distinct_ids;
  total_duration_seconds = saturating_add g.total_duration_seconds w.duration_seconds;
  max_duration_seconds = max g.max_duration_seconds w.duration_seconds;
  first_seen = if ltb w.first_seen g.first_seen then w.first_seen else g.first_seen;
  last_seen = if ltb g.last_seen w.last_seen then w.last_seen else g.last_seen;
}

-- `occurrence` and `anchor_last_seen`, after the loop.
abbrev pub sealed : TemporalGroup → TemporalGroup
sealed g = record g {
  occurrence_count = length g.distinct_ids % 2 ^ 32;
  anchor_last_seen = g.last_seen;
}

unfoldable pub build_temporal_group : String → WindowEntry × List WindowEntry → TemporalGroup
build_temporal_group title_key ((id, w), rest) = sealed (
    foldl see_member
      (record {
        title_key = title_key;
        distinct_ids = [];
        occurrence_count = 0;
        total_duration_seconds = 0;
        max_duration_seconds = 0;
        first_seen = w.first_seen;
        last_seen = w.last_seen;
        anchor_last_seen = w.last_seen;
      })
      ((id, w) ∷ rest))

unfoldable pub by_title :
    (String → String)
    → List (String × List WindowEntry)
    → List WindowEntry
    → List (String × List WindowEntry)
by_title normalize_title m [] = m
by_title normalize_title m ((id, w) ∷ windows) =
    by_title normalize_title
      (update_entry (normalize_title w.window_title) [] (λ items. items ++ (id, w) ∷ []) m) windows

abbrev pub title_clusters :
    String × List WindowEntry → List (String × (WindowEntry × List WindowEntry))
title_clusters (title_key, items) = map (λ c. (title_key, c)) (clusters_of items)

abbrev pub member_ids : String × (WindowEntry × List WindowEntry) → List ℕ
member_ids (title_key, (e, rest)) = map (λ (id, w). id) (e ∷ rest)

-- The secondary pass.
unfoldable pub group_temporal : (String → String) → AggregatedActivity → AggregatedActivity
group_temporal normalize_title a =
    let clusters = flat_map title_clusters (by_title normalize_title [] a.windows) in
    record a {
      windows = remove_ids (flat_map member_ids clusters) a.windows;
      temporal_groups = map (λ (title_key, c). build_temporal_group title_key c) clusters;
    }

-- `insert` of each, into the cleared map.
abbrev pub insert_all : List WindowEntry → List WindowEntry
insert_all entries = foldl (λ m (k, v). insert k v m) [] entries

unfoldable pub trim_windows : ℕ → AggregatedActivity → AggregatedActivity
trim_windows max_windows_per_app a =
    if ltb 0 max_windows_per_app && ltb max_windows_per_app (length a.windows)
    then record a {
      windows = insert_all (take max_windows_per_app (sort_by (descending last_seen_of) a.windows));
    }
    else a

pub record AggregateConfig : Type 0 where
  pub short_thresh_secs : ℕ
  pub ephemeral_min_distinct_ids : ℕ
  pub max_windows_per_app : ℕ

unfoldable pub group_app :
    (String → String) → AggregateConfig → AggregatedActivity → AggregatedActivity
group_app normalize_title cfg a = trim_windows cfg.max_windows_per_app (
    group_temporal normalize_title
      (group_ephemeral normalize_title cfg.short_thresh_secs cfg.ephemeral_min_distinct_ids a))

abbrev pub last_seen_app : AggregatedActivity → DateTime
last_seen_app a = a.last_seen

unfoldable pub aggregate_activities_since :
    (String → String)
    → AggregateConfig
    → List ActivityRecord
    → DateTime
    → DateTime
    → List AggregatedActivity
aggregate_activities_since normalize_title cfg records since now =
    sort_by (descending last_seen_app)
      (map (λ (k, a). group_app normalize_title cfg a) (app_map since now [] records))
