-- ===== src/Examples/Snapshots.antt =====
-- The snapshot bus at concrete inputs.
use kronical.Prelude.{◌≡◌, refl, none, some, [], ◌∷◌, ◌++◌, last_n}
use kronical.Events.Model.{ActivityState}
use kronical.Snapshot.{
  Transition, SnapshotBus, Published, no_counts, default_config, empty, push_health,
}
use kronical.Snapshot.Bus.{push_health-last_n}
use kronical.Examples.Data.{secs}
use mathlib.Core.List.{foldl}

abbrev woke : Transition
woke = record {
  from = ActivityState.inactive;
  to = ActivityState.active;
  at = secs 1;
  by_signal = some "KeyboardInput";
  run_id = none;
}

abbrev rested : Transition
rested = record {
  from = ActivityState.active;
  to = ActivityState.passive;
  at = secs 40;
  by_signal = some "IdleTimeout";
  run_id = none;
}

abbrev bus : SnapshotBus
bus = record {
  seq = 3;
  run_id = some "run-1";
  snapshot = empty 0;
  health = [];
  transitions = woke ∷ [];
}

push_health-last_n_example :
    (foldl push_health bus ("slow" ∷ "late" ∷ [])).health ≡ last_n 64 ([] ++ ("slow" ∷ "late" ∷ []))
push_health-last_n_example = push_health-last_n bus [] ("slow" ∷ "late" ∷ []) refl

abbrev values : Published
values = record {
  state = ActivityState.active;
  focus = none;
  last_transition = some woke;
  records = [];
  counts = no_counts;
  cadence_ms = 0;
  cadence_reason = "none";
  next_timeout = none;
  storage = record { backlog_count = 0; last_flush_at = none };
  config = default_config;
  health = [];
  aggregated_apps = [];
}
