-- ===== src/Snapshot.antt =====
-- `SnapshotBus` and the snapshot's parts (crates/core/src/snapshot.rs). A watch channel holds one
-- value, and its receivers are kept by the bus, so `send` replaces that value; a `VecDeque` is a
-- list with its front first. `monotonic_ns` is a reading of the clock, an argument here.
pub mod Ring
pub mod Bus
use kronical.Prelude.{
  ℕ, ◌+◌, ◌%◌, ◌-◌, min, String, Bool, Option, none, some, List, [], ◌∷◌, ◌++◌, leb, length, take,
  drop, if◌then◌else◌,
}
use kronical.Prelude.Int.{ℤ}
use kronical.Events.{WindowFocusInfo}
use kronical.Events.Model.{ActivityState}
use kronical.Records.{ActivityRecord}
use kronical.Time.{DateTime}
use mathlib.Core.List.{reverse}

pub record Transition : Type 0 where
  pub from : ActivityState
  pub to : ActivityState
  pub at : DateTime
  pub by_signal : Option String
  pub run_id : Option String

pub record Counts : Type 0 where
  pub signals_seen : ℕ
  pub hints_seen : ℕ
  pub records_emitted : ℕ

pub record StorageInfo : Type 0 where
  pub backlog_count : ℕ
  pub last_flush_at : Option DateTime

pub record ConfigSummary : Type 0 where
  pub active_grace_secs : ℕ
  pub idle_threshold_secs : ℕ
  pub retention_minutes : ℕ
  pub ephemeral_max_duration_secs : ℕ
  pub ephemeral_min_distinct_ids : ℕ
  pub ephemeral_app_max_duration_secs : ℕ
  pub ephemeral_app_min_distinct_procs : ℕ

abbrev pub default_config : ConfigSummary
default_config = record {
  active_grace_secs = 0;
  idle_threshold_secs = 0;
  retention_minutes = 0;
  ephemeral_max_duration_secs = 0;
  ephemeral_min_distinct_ids = 0;
  ephemeral_app_max_duration_secs = 0;
  ephemeral_app_min_distinct_procs = 0;
}

pub record SnapshotWindow : Type 0 where
  pub window_id : String
  pub window_title : String
  pub first_seen : DateTime
  pub last_seen : DateTime
  pub duration_seconds : ℕ
  pub is_group : Bool

pub record SnapshotApp : Type 0 where
  pub app_name : String
  pub pid : ℤ
  pub process_start_time : ℕ
  pub windows : List SnapshotWindow
  pub total_duration_secs : ℕ
  pub total_duration_pretty : String

pub record Snapshot : Type 0 where
  pub seq : ℕ
  pub mono_ns : ℕ
  pub run_id : Option String
  pub activity_state : ActivityState
  pub focus : Option WindowFocusInfo
  pub last_transition : Option Transition
  pub transitions_recent : List Transition
  pub counts : Counts
  pub cadence_ms : ℕ
  pub cadence_reason : String
  pub next_timeout : Option DateTime
  pub storage : StorageInfo
  pub config : ConfigSummary
  pub health : List String
  pub aggregated_apps : List SnapshotApp
  pub records : List ActivityRecord

-- `Counts::default`.
abbrev pub no_counts : Counts
no_counts = record { signals_seen = 0; hints_seen = 0; records_emitted = 0 }

unfoldable pub empty : ℕ → Snapshot
empty mono_ns = record {
  seq = 0;
  mono_ns = mono_ns;
  run_id = none;
  activity_state = ActivityState.inactive;
  focus = none;
  last_transition = none;
  transitions_recent = [];
  counts = no_counts;
  cadence_ms = 0;
  cadence_reason = "";
  next_timeout = none;
  storage = record { backlog_count = 0; last_flush_at = none };
  config = default_config;
  health = [];
  aggregated_apps = [];
  records = [];
}

pub record SnapshotBus : Type 0 where
  pub seq : ℕ
  pub run_id : Option String
  pub snapshot : Snapshot
  pub health : List String
  pub transitions : List Transition

unfoldable pub new : ℕ → SnapshotBus
unfolding empty
new mono_ns = record {
  seq = 0;
  run_id = none;
  snapshot = empty mono_ns;
  health = [];
  transitions = [];
}

unfoldable pub new_with_run_id : ℕ → String → SnapshotBus
unfolding new
new_with_run_id mono_ns run_id = record (new mono_ns) { run_id = some run_id }

-- Appends to a queue of at most 64, whose front makes room.
unfoldable pub push_bounded {ℓ} : {A : Type ℓ} → List A → A → List A
push_bounded buf a = (if leb 64 (length buf) then drop 1 buf else buf) ++ (a ∷ [])

unfoldable pub push_transition : SnapshotBus → Transition → SnapshotBus
unfolding push_bounded
push_transition bus t = record bus { transitions = push_bounded bus.transitions t }

unfoldable pub push_health : SnapshotBus → String → SnapshotBus
unfolding push_bounded
push_health bus msg = record bus { health = push_bounded bus.health msg }

unfoldable pub recent_transitions : SnapshotBus → ℕ → List Transition
recent_transitions bus limit =
    let n = min limit (length bus.transitions) in take n (reverse bus.transitions)

-- The arguments of `publish_basic`.
pub record Published : Type 0 where
  pub state : ActivityState
  pub focus : Option WindowFocusInfo
  pub last_transition : Option Transition
  pub records : List ActivityRecord
  pub counts : Counts
  pub cadence_ms : ℕ
  pub cadence_reason : String
  pub next_timeout : Option DateTime
  pub storage : StorageInfo
  pub config : ConfigSummary
  pub health : List String
  pub aggregated_apps : List SnapshotApp

unfoldable pub publish_basic : SnapshotBus → ℕ → Published → SnapshotBus
unfolding recent_transitions
publish_basic bus mono_ns p =
    let seq = (bus.seq + 1) % 0x1_0000_0000_0000_0000 in
    record bus {
      seq = seq;
      snapshot = record {
        seq = seq;
        mono_ns = mono_ns;
        run_id = bus.run_id;
        activity_state = p.state;
        focus = p.focus;
        last_transition = p.last_transition;
        transitions_recent = recent_transitions bus 5;
        counts = p.counts;
        cadence_ms = p.cadence_ms;
        cadence_reason = p.cadence_reason;
        next_timeout = p.next_timeout;
        storage = p.storage;
        config = p.config;
        health = p.health;
        aggregated_apps = p.aggregated_apps;
        records = p.records;
      };
    }
