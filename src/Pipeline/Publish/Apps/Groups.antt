-- ===== src/Pipeline/Publish/Apps/Groups.antt =====
-- The apps of a snapshot: their totals against those of the aggregated apps, their order, and the
-- last sighting of a group of short-lived apps.
use mathlib.Core.List.{foldl, flat_map, map}
use kronical.Prelude.{
  Bool-cases, inl, inr, if◌then◌else◌, ℕ, ◌+◌, ◌≤◌, ◌≡◌, refl, ◌∙◌, String, Option, none, some,
  List, [], ◌∷◌, ◌++◌, length, leb, arith, if_elim, All,
}
use kronical.Prelude.Classes.{string_eq}
use kronical.Prelude.Sort.{descending, IsSorted, sort_by-IsSorted, descending-IsOrder}
use kronical.Common.Maps.{lookup}
use kronical.Pipeline.Publish.Apps.{
  Lanes, ShortGroup, no_short, app_of, split_lanes, add_short, short_group, short_app,
  app_last_seen, build_app_tree,
}
use kronical.Records.Apps.{AggregatedActivity, or_default, update_entry}
use kronical.Common.Sums.{sum_by, was, sum_by-insert, sum_by-sort_by, sum_by-append}
use kronical.Records.Aggregate.Totals.{total_of}
use kronical.Snapshot.{SnapshotApp}
use kronical.Time.{DateTime}

-- The loop starts `last_seen` at the present, so no app of the group moves it.
fold_last_seen :
    (g : ShortGroup) (v : List AggregatedActivity)
    → All (λ (a : AggregatedActivity). a.last_seen ≤ g.last_seen) v
    → (foldl add_short g v).last_seen ≡ g.last_seen
fold_last_seen g [] h = refl
fold_last_seen g (a ∷ v) h =
    let same : (add_short g a).last_seen ≡ g.last_seen = ground (arith, h.0) in
    fold_last_seen (add_short g a) v (rw same h.1) ∙ same

-- A group of short-lived apps, all last seen before the clock was read, is shown as last seen at the
-- reading, however long ago its apps were used.
pub short_app-last_seen_now :
    (app_short_min_distinct : ℕ) (clock : String → DateTime × DateTime) (name : String)
    (v : List AggregatedActivity)
    → All (λ (a : AggregatedActivity). a.last_seen ≤ (clock name).1) v
    → All (λ a. app_last_seen a ≡ (clock name).1) (short_app app_short_min_distinct clock (name, v))
unfolding short_app short_group
short_app-last_seen_now app_short_min_distinct clock name v h =
    if_elim (All (λ a. app_last_seen a ≡ (clock name).1)) (leb app_short_min_distinct (length v)) _
      [] (λ _. (fold_last_seen (no_short (clock name)) v h, tt)) λ _. tt

abbrev name_total : String × List AggregatedActivity → ℕ
name_total (name, v) = sum_by total_of v

abbrev lanes_total : Lanes → ℕ
lanes_total (short, normal) = sum_by name_total short + sum_by total_of normal

-- One more app under its name.
added_total :
    (agg : AggregatedActivity) (o : Option (List AggregatedActivity))
    → sum_by total_of (or_default [] o ++ agg ∷ []) ≡ was (sum_by total_of) o + total_of agg
added_total agg none = omega arith
added_total agg (some v) = omega (arith, sum_by-append total_of v (agg ∷ []))

update_entry-total :
    (agg : AggregatedActivity) (short : List (String × List AggregatedActivity))
    → sum_by name_total (update_entry agg.app_name [] (λ v. v ++ agg ∷ []) short)
      ≡ sum_by name_total short + total_of agg
unfolding update_entry
update_entry-total agg short =
    let before = lookup agg.app_name short in
    omega (
      arith,
      sum_by-insert (sum_by total_of) agg.app_name (or_default [] before ++ agg ∷ []) short,
      added_total agg before,
    )

split_lanes-total :
    (limit : ℕ) (lanes : Lanes) (aggs : List AggregatedActivity)
    → lanes_total (split_lanes limit lanes aggs) ≡ lanes_total lanes + sum_by total_of aggs
unfolding split_lanes
split_lanes-total limit lanes [] = omega arith
split_lanes-total limit (short, normal) (agg ∷ aggs) =
    let is_short : Lanes = (update_entry agg.app_name [] (λ v. v ++ agg ∷ []) short, normal) in
    let is_normal : Lanes = (short, normal ++ agg ∷ []) in
    if_elim
      (λ (l : Lanes).
        lanes_total (split_lanes limit l aggs)
        ≡ lanes_total (short, normal) + (total_of agg + sum_by total_of aggs))
      (leb agg.total_duration_seconds limit) is_short is_normal
      (λ _. omega (arith, split_lanes-total limit is_short aggs, update_entry-total agg short))
      λ _.
        omega
          (arith, split_lanes-total limit is_normal aggs, sum_by-append total_of normal (agg ∷ []))

abbrev pub secs_of : SnapshotApp → ℕ
secs_of a = a.total_duration_secs

abbrev pub max_u64 : ℕ
max_u64 = 0xffff_ffff_ffff_ffff

fold_total :
    (g : ShortGroup) (v : List AggregatedActivity)
    → g.total + sum_by total_of v ≤ max_u64
    → (foldl add_short g v).total ≡ g.total + sum_by total_of v
fold_total g [] h = omega arith
fold_total g (a ∷ v) h = omega (arith, fold_total (add_short g a) v (omega arith))

-- What the tree leaves out: the apps of a name with too few of them.
abbrev pub left_out : ℕ → String × List AggregatedActivity → ℕ
left_out min_distinct (name, v) = if leb min_distinct (length v) then 0 else name_total (name, v)

module _ (clock : String → DateTime × DateTime) (min_distinct : ℕ) where
  short_app-total :
      (name : String) (v : List AggregatedActivity)
      → sum_by total_of v ≤ max_u64
      → sum_by secs_of (short_app min_distinct clock (name, v)) + left_out min_distinct (name, v)
        ≡ sum_by total_of v
  unfolding short_app short_group
  short_app-total name v h = elim (Bool-cases (leb min_distinct (length v))) [
    | inl shown ↦ rw shown (omega (arith, fold_total (no_short (clock name)) v (omega (arith, h))))
    | inr few ↦ rw few (omega arith)
  ]

  short_apps-total :
      (short : List (String × List AggregatedActivity))
      → sum_by name_total short ≤ max_u64
      → sum_by secs_of (flat_map (short_app min_distinct clock) short)
          + sum_by (left_out min_distinct) short
        ≡ sum_by name_total short
  unfolding flat_map
  short_apps-total [] h = refl
  short_apps-total ((name, v) ∷ short) h = omega (
    arith,
    sum_by-append secs_of (short_app min_distinct clock (name, v))
        (flat_map (short_app min_distinct clock) short),
    short_app-total name v (omega arith),
    short_apps-total short (omega arith),
  )

  normal_apps-total :
      (normal : List AggregatedActivity)
      → sum_by secs_of (map app_of normal) ≡ sum_by total_of normal
  unfolding app_of
  normal_apps-total [] = refl
  normal_apps-total (a ∷ normal) = omega (arith, normal_apps-total normal)

  -- Where the times together fit in 64 bits, the times of the apps of the snapshot, and of the
  -- short-lived apps of the names with too few of them for a group, add up to those of the aggregated
  -- apps. The apps are in the order of the last sighting of their first window, latest first.
  pub build_app_tree-Conserves :
      (aggs : List AggregatedActivity) (limit : ℕ)
      → sum_by total_of aggs ≤ max_u64
      → let apps = build_app_tree aggs limit min_distinct clock in
        (sum_by secs_of apps + sum_by (left_out min_distinct) (split_lanes limit ([], []) aggs).0
          ≡ sum_by total_of aggs)
        × IsSorted (descending app_last_seen) apps
  unfolding build_app_tree
  build_app_tree-Conserves aggs limit h =
      let (short, normal) = split_lanes limit ([], []) aggs in
      let kept = split_lanes-total limit ([], []) aggs in
      let apps = map app_of normal ++ flat_map (short_app min_distinct clock) short in
      (
        omega (
          arith,
          sum_by-sort_by secs_of (descending app_last_seen) apps,
          sum_by-append secs_of (map app_of normal) (flat_map (short_app min_distinct clock) short),
          normal_apps-total normal,
          short_apps-total short (omega (arith, kept)),
          kept,
        ),
        sort_by-IsSorted (descending app_last_seen) (descending-IsOrder app_last_seen) apps,
      )
