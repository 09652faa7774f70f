-- ===== src/Pipeline/Publish.antt =====
-- The snapshot stage (src/daemon/pipeline/snapshot_stage.rs): updates, records and requests to
-- publish become the published snapshot. The app tree of the records (`aggregate_activities_since`
-- and `build_app_tree`) is an argument, of the records, the start of the retention and the current
-- time; `app_tree` of Publish/Apps is the program's. Its sends are to storage; a failed one is ignored, as in the code. An instant
-- before the epoch, which `now - retention` can be, is the epoch here: no record ends before either.
pub mod State
pub mod Shutdown
pub mod Durations
pub mod Apps
use Prim.Native.Char.{Char}
use kronical.Prelude.{
  ℕ, ◌+◌, ◌-◌, ◌*◌, min, String, Bool, true, false, not, ◌&&◌, Option, none, some, List, [], ◌∷◌,
  ◌++◌, ltb, leb, ◌==◌, is_none, length, drop, last_n, if◌then◌else◌,
}
use kronical.Events.{WindowFocusInfo}
use kronical.Events.Model.{ActivityState}
use kronical.Pipeline.{StorageCommand, SnapshotUpdate, SnapshotMessage}
use kronical.Pipeline.Envelope.Agreement.{state_of}
use kronical.Records.{ActivityRecord}
use kronical.Prelude.Int.{saturating_add}
use kronical.Snapshot
use kronical.Snapshot.{Transition, SnapshotBus, SnapshotApp, StorageInfo, ConfigSummary}
use kronical.Time.{DateTime, second, millisecond}

-- The stage's local state, the bus and the cadence that the poller reads.
pub record SnapshotStage : Type 0 where
  pub counts : Snapshot.Counts
  pub recent_records : List ActivityRecord
  pub current_state : ActivityState
  pub current_focus : Option WindowFocusInfo
  pub last_transition : Option Transition
  pub state_hist : List Char
  pub bus : SnapshotBus
  pub poll_ms : ℕ
  pub shutdown_requested : Bool
  pub hints_complete : Bool
  pub storage_shutdown_sent : Bool

-- What one publication reads: the clock twice, the monotonic clock and the storage metrics.
pub record Moment : Type 0 where
  pub now : DateTime
  pub later : DateTime
  pub mono_ns : ℕ
  pub storage : StorageInfo

pub record StageConfig : Type 0 where
  pub cfg_summary : ConfigSummary
  pub retention_minutes : ℕ

unfoldable pub attach_run_id : SnapshotBus → Transition → Transition
attach_run_id bus t = if is_none t.run_id then record t { run_id = bus.run_id } else t

abbrev pub latest {ℓ} : {A : Type ℓ} → Option A → Option A → Option A
latest none old = old
latest (some a) old = some a

abbrev pub retitle : Option (ℕ × String) → Option WindowFocusInfo → Option WindowFocusInfo
retitle none focus = focus
retitle (some _) none = none
retitle (some (window_id, title)) (some focus) =
    some (if focus.window_id == window_id then record focus { window_title = title } else focus)

abbrev on_transition : SnapshotStage → Option Transition → SnapshotStage × List StorageCommand
on_transition s none = (s, [])
on_transition s (some t) =
    let transition = attach_run_id s.bus t in
    (
      record s {
        bus = Snapshot.push_transition s.bus transition;
        last_transition = some transition;
      },
      StorageCommand.transition transition ∷ [],
    )

unfoldable pub apply_update : SnapshotStage → SnapshotUpdate → SnapshotStage × List StorageCommand
unfolding attach_run_id
apply_update s u =
    let noted : SnapshotStage = record s {
      counts = record s.counts {
        hints_seen = saturating_add s.counts.hints_seen u.hints_delta;
        signals_seen = saturating_add s.counts.signals_seen u.signals_delta;
      };
      current_focus = retitle u.focus_title (latest u.focus s.current_focus);
      current_state = state_of u.state s.current_state;
    } in
    on_transition noted u.transition

abbrev pub letter : ActivityState → Char
letter ActivityState.active = "A"
letter ActivityState.passive = "P"
letter ActivityState.inactive = "I"
letter ActivityState.locked = "L"

abbrev ends_in : List Char → Char → Bool
ends_in [] c = false
ends_in (a ∷ []) c = Prim.Native.Char.code a == Prim.Native.Char.code c
ends_in (_ ∷ b ∷ l) c = ends_in (b ∷ l) c

unfoldable pub push_state : List Char → Char → List Char
push_state hist ch =
    let pushed = hist ++ (ch ∷ []) in
    if ends_in hist ch then hist else if leb (length pushed) 10 then pushed else drop 1 pushed

unfoldable pub update_records : SnapshotStage → ActivityRecord → SnapshotStage
unfolding push_state
update_records s r = record s {
  state_hist = push_state s.state_hist (letter r.state);
  recent_records = s.recent_records ++ (r ∷ []);
  counts = record s.counts { records_emitted = saturating_add s.counts.records_emitted 1 };
}

abbrev end_or : Option DateTime → DateTime → DateTime
end_or none now = now
end_or (some end) now = end

-- The records at the front that ended before the retention.
unfoldable pub drop_expired : DateTime → DateTime → List ActivityRecord → List ActivityRecord
drop_expired since now [] = []
drop_expired since now (r ∷ rs) =
    let rest = drop_expired since now rs in
    if ltb (end_or r.end_time now) since then rest else r ∷ rs

abbrev pub cadence : ActivityState → ℕ
cadence ActivityState.active = 2000
cadence ActivityState.passive = 10000
cadence ActivityState.inactive = 20000
cadence ActivityState.locked = 0

abbrev pub reason : ActivityState → String
reason ActivityState.active = "Active"
reason ActivityState.passive = "Passive"
reason ActivityState.inactive = "Inactive"
reason ActivityState.locked = "Locked"

abbrev pub AppTree : Type 0
AppTree = List ActivityRecord → DateTime → DateTime → List SnapshotApp

module _ (cfg : StageConfig) (app_tree : AppTree) where
  unfoldable pub publish_snapshot : SnapshotStage → Moment → SnapshotStage
  unfolding drop_expired
  publish_snapshot s at =
      let since = at.now - cfg.retention_minutes * 60 * second in
      let records = drop_expired since at.now s.recent_records in
      let ms = cadence s.current_state in
      record s {
        recent_records = records;
        poll_ms = ms;
        bus = Snapshot.publish_basic s.bus at.mono_ns (record {
          state = s.current_state;
          focus = s.current_focus;
          last_transition = s.last_transition;
          records = records;
          counts = s.counts;
          cadence_ms = ms;
          cadence_reason = reason s.current_state;
          next_timeout = some (at.later + ms * millisecond);
          storage = at.storage;
          config = cfg.cfg_summary;
          health = s.bus.health;
          aggregated_apps = app_tree records since at.now;
        });
      }

  -- Also whether it finalized.
  unfoldable pub maybe_finalize :
      SnapshotStage → Bool → Bool → Moment → (SnapshotStage × List StorageCommand) × Bool
  unfolding publish_snapshot
  maybe_finalize s shutdown_requested hints_complete at =
      if shutdown_requested && (hints_complete && not s.storage_shutdown_sent)
      then (
        (
          record (publish_snapshot s at) { storage_shutdown_sent = true },
          StorageCommand.shutdown ∷ [],
        ),
        true,
      )
      else ((s, []), false)

  -- One message: the stage after it, its sends, and whether the loop ends.
  unfoldable pub on_message :
      SnapshotStage → SnapshotMessage → Moment → (SnapshotStage × List StorageCommand) × Bool
  unfolding apply_update update_records publish_snapshot maybe_finalize
  on_message s (SnapshotMessage.update u) at = (apply_update s u, false)
  on_message s (SnapshotMessage.activity r) at = ((update_records s r, []), false)
  on_message s SnapshotMessage.publish at = ((publish_snapshot s at, []), false)
  on_message s SnapshotMessage.hints_complete at =
      let told = record s { hints_complete = true } in
      maybe_finalize told told.shutdown_requested true at
  on_message s SnapshotMessage.shutdown at =
      let told = record s { shutdown_requested = true } in
      maybe_finalize told true told.hints_complete at

  -- The loop over what it receives: the stage then, all its sends, and whether it has ended.
  unfoldable pub receive :
      SnapshotStage → List (SnapshotMessage × Moment) → (SnapshotStage × List StorageCommand) × Bool
  unfolding on_message
  receive s [] = ((s, []), false)
  receive s ((m, at) ∷ ms) =
      let ((s', sent), ended) = on_message s m at in
      let ((last, rest), over) = receive s' ms in
      if ended then ((s', sent), true) else ((last, sent ++ rest), over)

  -- The whole stage, until it ends or its channel closes.
  unfoldable pub run_stage :
      SnapshotStage → List (SnapshotMessage × Moment) → Moment → SnapshotStage × List StorageCommand
  unfolding receive maybe_finalize
  run_stage s ms at =
      let ((last, sent), over) = receive s ms in
      let ((final, rest), _) = maybe_finalize last true true at in (final, sent ++ rest)

  -- The stage at its start, with what storage had kept.
  unfoldable pub hydrate : SnapshotStage → List Transition → SnapshotStage
  unfolding attach_run_id
  hydrate s [] = s
  hydrate s (t ∷ ts) =
      let transition = attach_run_id s.bus t in
      hydrate
        (record s {
          current_state = transition.to;
          last_transition = some transition;
          bus = Snapshot.push_transition s.bus transition;
        })
        ts

  unfoldable pub start_stage :
      SnapshotBus → List ActivityRecord → List Transition → Moment → ℕ → SnapshotStage
  unfolding hydrate publish_snapshot
  start_stage bus initial_records initial_transitions at poll_ms =
      publish_snapshot
        (hydrate
          (record {
            counts = Snapshot.no_counts;
            recent_records = initial_records;
            current_state = ActivityState.inactive;
            current_focus = none;
            last_transition = none;
            state_hist = [];
            bus = bus;
            poll_ms = poll_ms;
            shutdown_requested = false;
            hints_complete = false;
            storage_shutdown_sent = false;
          })
          initial_transitions)
        at
