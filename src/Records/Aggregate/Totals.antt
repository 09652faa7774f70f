-- ===== src/Records/Aggregate/Totals.antt =====
-- No time is lost or counted twice: the apps' totals against the records that count.
use mathlib.Core.List.{map}
use kronical.Prelude.{
  ℕ, ◌+◌, ◌%◌, ◌≡◌, refl, ap, ◌∙◌, String, ◌&&◌, Option, none, some, List, [], ◌∷◌, arith, ltb, leb,
  length, if_elim,
}
use kronical.Prelude.Classes.{Eq, pair_eq, nat_eq}
use kronical.Prelude.Sort.{descending}
use kronical.Common.Maps.{lookup}
use kronical.Common.Sums.{sum_by, was, value_of, sum_by-insert, sum_by-sort_by}
use kronical.Events.{WindowFocusInfo}
use kronical.Records.{ActivityRecord, u64_mod}
use kronical.Records.Aggregate.{
  AggregateConfig, keep_group, keep_groups, group_ephemeral, group_temporal, trim_windows,
  group_app, last_seen_app, aggregate_activities_since,
}
use kronical.Records.Apps.{
  AggregatedActivity, AppMap, Span, EphemeralGroup, as_u32, span_of, or_default, update_entry,
  app_entry, see_app, add_span, add_focused, app_map,
}
use kronical.Time.{DateTime}

-- The seconds of a record that count.
abbrev pub seconds_of : Option Span → ℕ
seconds_of none = 0
seconds_of (some s) = s.duration

abbrev pub counted_focused : DateTime → DateTime → ActivityRecord → Option WindowFocusInfo → ℕ
counted_focused since now r none = 0
counted_focused since now r (some f) = seconds_of (span_of since now r)

abbrev pub counted : DateTime → DateTime → ActivityRecord → ℕ
counted since now r = counted_focused since now r r.focus_info

grows {ℓ} :
    {V : Type ℓ} (g : V → ℕ) (d : ℕ) (default : V) (change : V → V)
    → g default ≡ 0
    → ((v : V) → g (change v) ≡ (g v + d) % u64_mod)
    → (o : Option V) → g (change (or_default default o)) ≡ (was g o + d) % u64_mod
grows g d default change zero_ adds none = adds default ∙ ap (λ n. (n + d) % u64_mod) zero_
grows g d default change zero_ adds (some v) = adds v

module _ {ℓ} {K V : Type ℓ} ⦃e : Eq K⦄ (g : V → ℕ) where
  sum_by-update_entry :
      (d : ℕ) (k : K) (default : V) (change : V → V) (m : List (K × V))
      → g default ≡ 0
      → ((v : V) → g (change v) ≡ (g v + d) % u64_mod)
      → sum_by (value_of g) (update_entry k default change m) % u64_mod
        ≡ (sum_by (value_of g) m + d) % u64_mod
  unfolding update_entry
  sum_by-update_entry d k default change m zero_ adds = omega (
    arith,
    sum_by-insert g k (change (or_default default (lookup k m))) m,
    grows g d default change zero_ adds (lookup k m),
  )

abbrev pub total_of : AggregatedActivity → ℕ
total_of a = a.total_duration_seconds

add_span-total :
    (f : WindowFocusInfo) (m : AppMap) (o : Option Span)
    → sum_by (value_of total_of) (add_span f m o) % u64_mod
      ≡ (sum_by (value_of total_of) m + seconds_of o) % u64_mod
add_span-total f m none = omega arith
add_span-total f m (some s) =
    sum_by-update_entry total_of s.duration (as_u32 f.pid, f.process_start_time) (app_entry f s)
      (see_app f s) m refl (λ a. refl)

add_focused-total :
    (since now : DateTime) (m : AppMap) (r : ActivityRecord) (o : Option WindowFocusInfo)
    → sum_by (value_of total_of) (add_focused since now m r o) % u64_mod
      ≡ (sum_by (value_of total_of) m + counted_focused since now r o) % u64_mod
add_focused-total since now m r none = omega arith
add_focused-total since now m r (some f) = add_span-total f m (span_of since now r)

app_map-total :
    (since now : DateTime) (m : AppMap) (records : List ActivityRecord)
    → sum_by (value_of total_of) (app_map since now m records) % u64_mod
      ≡ (sum_by (value_of total_of) m + sum_by (counted since now) records) % u64_mod
unfolding app_map
app_map-total since now m [] = omega arith
app_map-total since now m (r ∷ records) = omega (
  arith,
  app_map-total since now (add_focused since now m r r.focus_info) records,
  add_focused-total since now m r r.focus_info,
)

-- Grouping moves windows, and leaves the app's total and its last sighting.
keep_groups-total :
    (min_ids : ℕ) (members : List (String × List ℕ)) (a : AggregatedActivity)
    (staged : List (String × EphemeralGroup))
    → total_of (keep_groups min_ids members a staged) ≡ total_of a
unfolding keep_groups
keep_groups-total min_ids members a [] = refl
keep_groups-total min_ids members a ((title_key, group) ∷ staged) =
    keep_groups-total min_ids members (keep_group min_ids members a title_key group) staged
    ∙ if_elim (λ b. total_of b ≡ total_of a) (leb min_ids (length group.distinct_ids)) _ a
        (λ _. refl) λ _. refl

group_ephemeral-total :
    (normalize_title : String → String) (n m : ℕ) (a : AggregatedActivity)
    → total_of (group_ephemeral normalize_title n m a) ≡ total_of a
unfolding group_ephemeral
group_ephemeral-total normalize_title n m a = keep_groups-total m _ a _

group_temporal-total :
    (normalize_title : String → String) (a : AggregatedActivity)
    → total_of (group_temporal normalize_title a) ≡ total_of a
unfolding group_temporal
group_temporal-total normalize_title a = refl

trim_windows-total : (n : ℕ) (a : AggregatedActivity) → total_of (trim_windows n a) ≡ total_of a
unfolding trim_windows
trim_windows-total n a =
    if_elim (λ b. total_of b ≡ total_of a) (ltb 0 n && ltb n (length a.windows)) _ a (λ _. refl)
      λ _. refl

group_app-total :
    (normalize_title : String → String) (cfg : AggregateConfig) (a : AggregatedActivity)
    → total_of (group_app normalize_title cfg a) ≡ total_of a
unfolding group_app
group_app-total normalize_title cfg a =
    trim_windows-total cfg.max_windows_per_app _
    ∙ (group_temporal-total normalize_title _
        ∙ group_ephemeral-total normalize_title cfg.short_thresh_secs cfg.ephemeral_min_distinct_ids
            a)

sum_by-grouped :
    (normalize_title : String → String) (cfg : AggregateConfig) (m : AppMap)
    → sum_by total_of (map (λ (k, a). group_app normalize_title cfg a) m)
      ≡ sum_by (value_of total_of) m
sum_by-grouped normalize_title cfg [] = refl
sum_by-grouped normalize_title cfg ((k, a) ∷ m) =
    omega (arith, group_app-total normalize_title cfg a, sum_by-grouped normalize_title cfg m)

-- The apps' totals add up to the counted seconds of the records, on 64 bits: no time is lost or
-- counted twice, whatever is grouped, trimmed or sorted.
pub aggregate-Conserves :
    (normalize_title : String → String) (cfg : AggregateConfig) (records : List ActivityRecord)
    (since now : DateTime)
    → sum_by total_of (aggregate_activities_since normalize_title cfg records since now) % u64_mod
      ≡ sum_by (counted since now) records % u64_mod
unfolding aggregate_activities_since
aggregate-Conserves normalize_title cfg records since now = omega (
  arith,
  sum_by-sort_by total_of (descending last_seen_app)
      (map (λ (k, a). group_app normalize_title cfg a) (app_map since now [] records)),
  sum_by-grouped normalize_title cfg (app_map since now [] records),
  app_map-total since now [] records,
)
