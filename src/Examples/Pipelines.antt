-- ===== src/Examples/Pipelines.antt =====
-- The stages of the pipeline at concrete inputs.
use kronical.Prelude.{ltb, ◌≡◌, some, List, [], ◌∷◌, map}
use kronical.Compression.{CompactEvent}
use kronical.Events.Adapter
use kronical.Events.DeriveSignal
use kronical.Events.DeriveSignal.{LockDeriver}
use kronical.Events.Model.{ActivityState}
use kronical.Pipeline.{DeriveCommand, StorageCommand, to_storage}
use kronical.Pipeline.Compress.{forward_raw_events}
use kronical.Pipeline.Compress.Forwarding.{forward_raw_events_all}
use kronical.Pipeline.Envelope.{start, process_batch, process_tick, run}
use kronical.Pipeline.Envelope.Counts.{
  hint_of, signal_of, hints_delta_of, signals_delta_of, total, process_batch_counts,
  process_tick_counts,
}
use kronical.Pipeline.Envelope.Delivery.{Cut, deliver, deliver-Cut}
use kronical.Pipeline.Envelope.Runs.{run-Links}
use kronical.Pipeline.Envelope.Transitions.{Links, reported}
use kronical.Pipeline.Hints.{
  with_run, stored_records, shown_records, stored_envelopes, hints_stage, hints_stage-records,
}
use kronical.Records.{with_next_record_id}
use kronical.Records.Builder.{Hint, records}
use kronical.Examples.Data.{window, focus_hint, state_change, secs, session, session_batch}

abbrev commands : List DeriveCommand
commands =
    DeriveCommand.batch session_batch
    ∷ DeriveCommand.tick (secs 6)
    ∷ DeriveCommand.tick (secs 100)
    ∷ DeriveCommand.shutdown
    ∷ []

run-Links_example :
    let (s, sends) = run (start (secs 0) 30 300) commands in
    Links ActivityState.inactive (reported sends) s.state_deriver.engine.current
run-Links_example = run-Links (secs 0) 30 300 commands

process_batch_counts_example :
    let sends = (process_batch (start (secs 0) 30 300) session_batch).1 in
    (total hints_delta_of sends ≡ total hint_of sends)
    × (total signals_delta_of sends ≡ total signal_of sends)
process_batch_counts_example = process_batch_counts (start (secs 0) 30 300) session_batch

process_tick_counts_example :
    let sends = (process_tick (start (secs 0) 30 300) (secs 6)).1 in
    (total hints_delta_of sends ≡ total hint_of sends)
    × (total signals_delta_of sends ≡ total signal_of sends)
process_tick_counts_example = process_tick_counts (start (secs 0) 30 300) (secs 6)

abbrev locked_out : LockDeriver
locked_out = record { locked = mathlib.Core.Bool.true }

forward_raw_events_all_example :
    forward_raw_events
      (DeriveSignal.derive locked_out (Adapter.adapt_batch Adapter.new session).1).1
      session
    ≡ map (λ e. to_storage (StorageCommand.raw_event e)) session
forward_raw_events_all_example =
    forward_raw_events_all locked_out (Adapter.adapt_batch Adapter.new session).1 session

abbrev compacted : List CompactEvent
compacted =
    CompactEvent.keyboard (record {
      start_time = secs 1;
      end_time = secs 2;
      keystrokes = 4;
      keys_per_minute = 0;
      density_per_sec = 0;
      raw_event_ids = some (record { table = "raw_events"; ids = 1 ∷ 2 ∷ [] });
    })
    ∷ []

abbrev pub hints : List Hint
hints =
    (
      state_change (secs 1) 1 ActivityState.inactive ActivityState.active,
      record { ended = secs 1; started = secs 1 },
    )
    ∷ (
      focus_hint (secs 2) 2 (window "Editor" 5 "notes"),
      record { ended = secs 2; started = secs 2 },
    )
    ∷ []

hints_stage-records_example :
    let sends = hints_stage (some "run-1") 40 hints (secs 9) in
    let made =
      map
        (with_run (some "run-1"))
        (records (with_next_record_id ActivityState.inactive 40) hints (secs 9)) in
    (stored_records sends ≡ made)
    × (shown_records sends ≡ made)
    × (stored_envelopes sends ≡ map (λ h. h.0) hints)
hints_stage-records_example = hints_stage-records (some "run-1") 40 hints (secs 9)

-- Only the first three sends of the session arrive.
deliver-Cut_example :
    let (s, sends) = run (start (secs 0) 30 300) commands in
    Cut ActivityState.inactive
      (reported sends)
      (reported (deliver (λ n. ltb n 3) 0 sends))
      s.state_deriver.engine.current
deliver-Cut_example = deliver-Cut (λ n. ltb n 3) (secs 0) 30 300 commands
