-- ===== src/Records/Aggregate/Clusters.antt =====
-- The temporal groups and the limit on windows: which windows of a title form a group, what a group
-- says of them, and how many windows an app keeps.
use mathlib.Core.List.{flat_map, foldl, map, append-nil, append_assoc}
use mathlib.Core.Path.{subst}
use kronical.Prelude.{
  ℕ, zero, suc, ◌+◌, ◌≤◌, ◌<◌, All-append, All-imp, ◌≡◌, refl, sym, String, Bool, true, false, ◌&&◌,
  Option, none, some, List, [], ◌∷◌, ◌++◌, length, take, arith, leb, ltb, if◌then◌else◌, if_elim,
  Bool-cases, inl, inr, All, ltb→lt,
}
use kronical.Prelude.Chunks.{chunk_by, chunk_tail, last_of, last_of_end, emit_each-chunk_by}
use kronical.Prelude.Int.{leb_ℤ, saturating_add}
use kronical.Prelude.Loops.{emit_each}
use kronical.Prelude.Sort.{
  sort_by, descending, IsSorted, sort_by-All, sort_by-IsSorted, descending-IsOrder,
}
use kronical.Prelude.Classes.{nat_eq}
use kronical.Common.Maps.{insert, length-insert-le}
use kronical.Records.{ActivityRecord}
use kronical.Records.Aggregate.{
  WindowEntry, AggregateConfig, Cluster, locality, close_last, last_seen_of, on_window, clusters_of,
  see_member, build_temporal_group, trim_windows, group_app, last_seen_app,
  aggregate_activities_since,
}
use kronical.Records.Apps.{AggregatedActivity, AppMap, TemporalGroup, app_map}
use kronical.Common.Sums.{sum_by}
use kronical.Time
use kronical.Time.{DateTime}

-- Two windows, the later one first, were last seen within the hour.
abbrev pub near : WindowEntry → WindowEntry → Bool
near a b = leb_ℤ (Time.since (last_seen_of a) (last_seen_of b)) locality

abbrev pub of_two : List WindowEntry → List (WindowEntry × List WindowEntry)
of_two [] = []
of_two (e ∷ es) = if leb 2 (suc (length es)) then (e, es) ∷ [] else []

abbrev cluster_of : WindowEntry → List WindowEntry → Option Cluster
cluster_of e es =
    some (record { first = e; rest = es; prev_last_seen = last_seen_of (last_of e es) })

stays :
    (e : WindowEntry) (es : List WindowEntry) (y : WindowEntry)
    → near (last_of e es) y ≡ true
    → on_window (cluster_of e es) y ≡ (cluster_of e (es ++ y ∷ []), [])
unfolding on_window
stays e es y same = rw same (simp last_of_end)

cuts :
    (e : WindowEntry) (es : List WindowEntry) (y : WindowEntry)
    → near (last_of e es) y ≡ false
    → on_window (cluster_of e es) y ≡ (cluster_of y [], of_two (e ∷ es))
unfolding on_window
cuts e es y other = rw other refl

loop-chunks :
    (items : List WindowEntry)
    → (emit_each on_window none items).1 ++ close_last (emit_each on_window none items).0
      ≡ flat_map of_two (chunk_by near items)
unfolding emit_each on_window chunk_by flat_map
loop-chunks [] = refl
loop-chunks (e ∷ es) =
    emit_each-chunk_by near on_window close_last of_two cluster_of stays cuts (λ e es. refl) e es

-- The `continue` on a single window changes nothing.
single :
    (items : List WindowEntry)
    → length items < 2
    → flat_map of_two (chunk_by near (sort_by (descending last_seen_of) items)) ≡ []
unfolding flat_map chunk_by chunk_tail sort_by
single [] h = refl
single (e ∷ []) h = refl
single (e ∷ f ∷ items) h = absurd (omega arith)

-- The clusters of a title's windows are the runs of two windows at least in which each, in the
-- order of the last sighting, latest first, was last seen within an hour of the one before it.
pub clusters_of-chunk_by :
    (items : List WindowEntry)
    → clusters_of items ≡ flat_map of_two (chunk_by near (sort_by (descending last_seen_of) items))
unfolding clusters_of
clusters_of-chunk_by items = elim (Bool-cases (ltb (length items) 2)) [
  | inl few ↦ rw few (sym (single items (ltb→lt (length items) 2 few)))
  | inr many ↦ rw many (loop-chunks (sort_by (descending last_seen_of) items))
]

-- What a group says of a member.
pub record Covers (g : TemporalGroup) (e : WindowEntry) : Type 0 where
  pub starts : g.first_seen ≤ e.1.first_seen
  pub ends : e.1.last_seen ≤ g.last_seen
  pub longest : e.1.duration_seconds ≤ g.max_duration_seconds

abbrev pub duration_of : WindowEntry → ℕ
duration_of (id, w) = w.duration_seconds

-- A member more only widens a group.
wider :
    (g : TemporalGroup) (x : WindowEntry) (es : List WindowEntry)
    → All (Covers g) es
    → All (Covers (see_member g x)) es
wider g x [] h = tt
wider g x (e ∷ es) h = (
  record {
    starts = ground (arith, h.0.starts);
    ends = ground (arith, h.0.ends);
    longest = ground (arith, h.0.longest);
  },
  wider g x es h.1,
)

see_member-Covers : (g : TemporalGroup) (x : WindowEntry) → Covers (see_member g x) x
see_member-Covers g x = record {
  starts = ground arith;
  ends = ground arith;
  longest = ground arith;
}

fold-Covers :
    (g : TemporalGroup) (seen es : List WindowEntry)
    → All (Covers g) seen
    → All (Covers (foldl see_member g es)) (seen ++ es)
fold-Covers g seen [] h = rw append-nil h
fold-Covers g seen (x ∷ es) h =
    let more =
      All-append (Covers (see_member g x)) seen (x ∷ []) (wider g x seen h)
        (see_member-Covers g x, tt) in
    subst (λ l. All (Covers (foldl see_member (see_member g x) es)) l)
      (append_assoc seen (x ∷ []) es) (fold-Covers (see_member g x) (seen ++ x ∷ []) es more)

fold-total :
    (g : TemporalGroup) (es : List WindowEntry)
    → g.total_duration_seconds ≤ 0xffff_ffff_ffff_ffff
    → (foldl see_member g es).total_duration_seconds
      ≡ saturating_add g.total_duration_seconds (sum_by duration_of es)
fold-total g [] h = omega arith
fold-total g (x ∷ es) h = omega (arith, fold-total (see_member g x) es (omega arith))

-- A temporal group spans its members: it starts no later and ends no earlier than each, its maximum
-- is at least each duration, and its total is the sum of the durations, at most 2^64 - 1.
pub build_temporal_group-Covers :
    (title_key : String) (e : WindowEntry) (es : List WindowEntry)
    → let g = build_temporal_group title_key (e, es) in
      All (Covers g) (e ∷ es)
      × (g.total_duration_seconds ≡ saturating_add 0 (sum_by duration_of (e ∷ es)))
unfolding build_temporal_group
build_temporal_group-Covers title_key (id, w) es = (
  All-imp (Covers _) (Covers _)
      (λ x c. record { starts = c.starts; ends = c.ends; longest = c.longest }) ((id, w) ∷ es)
      (fold-Covers _ [] ((id, w) ∷ es) tt),
  fold-total _ ((id, w) ∷ es) (omega arith),
)

-- Inserting entries adds at most as many.
length-insert_all :
    (m entries : List WindowEntry)
    → length (foldl (λ m (k, v). insert k v m) m entries) ≤ length m + length entries
length-insert_all m [] = omega arith
length-insert_all m ((k, v) ∷ entries) =
    omega (arith, length-insert_all (insert k v m) entries, length-insert-le k v m)

length-take-le {ℓ} : {A : Type ℓ} (n : ℕ) (l : List A) → length (take n l) ≤ n
length-take-le zero l = omega arith
length-take-le (suc n) [] = omega arith
length-take-le (suc n) (x ∷ l) = omega (arith, length-take-le n l)

abbrev pub IsBounded : ℕ → AggregatedActivity → Type 0
IsBounded n a = 0 < n → length a.windows ≤ n

trim_windows-IsBounded : (n : ℕ) (a : AggregatedActivity) → IsBounded n (trim_windows n a)
unfolding trim_windows
trim_windows-IsBounded n a positive =
    if_elim (λ (b : AggregatedActivity). length b.windows ≤ n) (ltb 0 n && ltb n (length a.windows))
      _ a
      (λ _. omega (
        arith,
        length-insert_all [] (take n (sort_by (descending last_seen_of) a.windows)),
        length-take-le n (sort_by (descending last_seen_of) a.windows),
      ))
      λ fits. ground arith

module _ (normalize_title : String → String) (cfg : AggregateConfig) where
  grouped-IsBounded :
      (m : AppMap)
      → All (IsBounded cfg.max_windows_per_app) (map (λ (k, a). group_app normalize_title cfg a) m)
  unfolding group_app
  grouped-IsBounded [] = tt
  grouped-IsBounded ((k, a) ∷ m) =
      (trim_windows-IsBounded cfg.max_windows_per_app _, grouped-IsBounded m)

  -- The apps come in the order of their last sighting, latest first, and where the limit on windows
  -- is not 0, no app keeps more windows on its own than the limit.
  pub aggregate-IsBounded :
      (records : List ActivityRecord) (since now : DateTime)
      → let apps = aggregate_activities_since normalize_title cfg records since now in
        IsSorted (descending last_seen_app) apps × All (IsBounded cfg.max_windows_per_app) apps
  unfolding aggregate_activities_since
  aggregate-IsBounded records since now =
      let apps = map (λ (k, a). group_app normalize_title cfg a) (app_map since now [] records) in
      (
        sort_by-IsSorted (descending last_seen_app) (descending-IsOrder last_seen_app) apps,
        sort_by-All (descending last_seen_app) (IsBounded cfg.max_windows_per_app) apps
            (grouped-IsBounded (app_map since now [] records)),
      )
