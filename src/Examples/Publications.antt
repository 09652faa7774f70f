-- ===== src/Examples/Publications.antt =====
-- The snapshot stage at concrete inputs, behind the envelope stage's run of a session.
use kronical.Prelude.{◌≡◌, refl, false, none, List, [], ◌∷◌, ap, All}
use kronical.Events.Model.{ActivityState}
use kronical.Pipeline.{DeriveCommand, SnapshotUpdate, no_update, SnapshotMessage}
use kronical.Events.DeriveHint
use kronical.Events.Engine
use kronical.Pipeline.Envelope.{start, run, handle}
use kronical.Pipeline.Envelope.Agreement.{updates_of}
use kronical.Pipeline.Envelope.Counts.{hint_of, signal_of, total}
use kronical.Pipeline.Envelope.Totals.{Balanced, run-Balanced}
use kronical.Pipeline.Publish.{SnapshotStage, StageConfig, AppTree, Moment, receive, run_stage}
use kronical.Pipeline.Publish.Shutdown.{EndsOnce, run_stage-EndsOnce}
use kronical.Pipeline.Publish.State.{received, IsEarly, receive-engine_state}
use kronical.Snapshot.{SnapshotBus, no_counts, default_config, empty}
use kronical.Examples.Data.{secs, session_batch}

abbrev config : StageConfig
config = record { cfg_summary = default_config; retention_minutes = 60 }

abbrev no_apps : AppTree
no_apps records since now = []

abbrev bus : SnapshotBus
bus = record { seq = 0; run_id = none; snapshot = empty 0; health = []; transitions = [] }

abbrev stage : SnapshotStage
stage = record {
  counts = no_counts;
  recent_records = [];
  current_state = ActivityState.inactive;
  current_focus = none;
  last_transition = none;
  state_hist = [];
  bus = bus;
  poll_ms = 20000;
  shutdown_requested = false;
  hints_complete = false;
  storage_shutdown_sent = false;
}

abbrev at : Moment
at = record {
  now = secs 10;
  later = secs 11;
  mono_ns = 0;
  storage = record { backlog_count = 0; last_flush_at = none };
}

abbrev commands : List DeriveCommand
commands = DeriveCommand.batch session_batch ∷ DeriveCommand.shutdown ∷ []

abbrev as_messages : List SnapshotUpdate → List (SnapshotMessage × Moment)
as_messages [] = []
as_messages (u ∷ us) = (SnapshotMessage.update u, at) ∷ as_messages us

run-Balanced_example : Balanced (run (start (secs 0) 30 300) commands).1
run-Balanced_example = run-Balanced (start (secs 0) 30 300) commands

-- What the stage has received of the session: its updates, and a request to publish.
abbrev messages : List (SnapshotMessage × Moment)
messages =
    (SnapshotMessage.publish, at)
    ∷ as_messages (updates_of (run (start (secs 0) 30 300) commands).1)

received-as_messages : (us : List SnapshotUpdate) → received (as_messages us) ≡ us
received-as_messages [] = refl
received-as_messages (u ∷ us) = ap (λ l. u ∷ l) (received-as_messages us)

as_messages-IsEarly : (us : List SnapshotUpdate) → All IsEarly (as_messages us)
as_messages-IsEarly [] = tt
as_messages-IsEarly (u ∷ us) = ((λ h. cc), as_messages-IsEarly us)

messages-IsEarly : All IsEarly messages
messages-IsEarly =
    ((λ h. cc), as_messages-IsEarly (updates_of (run (start (secs 0) 30 300) commands).1))

receive-engine_state_example :
    (receive config no_apps stage messages).0.0.current_state
    ≡ (run (start (secs 0) 30 300) commands).0.state_deriver.engine.current
receive-engine_state_example =
    receive-engine_state config no_apps (secs 0) 30 300 commands stage messages refl refl
      messages-IsEarly (received-as_messages (updates_of (run (start (secs 0) 30 300) commands).1))

-- A run of one tick: one hint, and no signal.
abbrev tick_only : List DeriveCommand
tick_only = DeriveCommand.tick (secs 5) ∷ []

abbrev tick_messages : List (SnapshotMessage × Moment)
tick_messages = as_messages (updates_of (run (start (secs 0) 30 300) tick_only).1)

tick_counts :
    (total hint_of (run (start (secs 0) 30 300) tick_only).1 ≡ 1)
    × (total signal_of (run (start (secs 0) 30 300) tick_only).1 ≡ 0)
unfolding run start handle DeriveHint.on_tick Engine.on_tick DeriveHint.new Engine.new
    Engine.compute
tick_counts = (refl, refl)

abbrev ending : List (SnapshotMessage × Moment)
ending =
    (SnapshotMessage.update no_update, at)
    ∷ (SnapshotMessage.hints_complete, at)
    ∷ (SnapshotMessage.publish, at)
    ∷ (SnapshotMessage.shutdown, at)
    ∷ []

run_stage-EndsOnce_example : EndsOnce (run_stage config no_apps stage ending at).1
run_stage-EndsOnce_example = run_stage-EndsOnce config no_apps stage ending at refl
