-- ===== src/Examples/Storing.antt =====
-- The storage at concrete inputs.
use kronical.Prelude.{◌≡◌, refl, false, none, some, List, [], ◌∷◌, ◌++◌, All, arith}
use kronical.Examples.Data.{secs}
use kronical.Examples.Pipelines.{hints}
use kronical.Events.Model.{ActivityState}
use kronical.Pipeline.{StorageCommand}
use kronical.Pipeline.Hints.{hints_stage}
use kronical.Pipeline.Storage.{run_storage, next_record_id, max_record_id, hydrate_recent_records}
use kronical.Pipeline.Storage.Restarts.{
  storage_commands, records_in, before_shutdown, traced, IsNewer, run_storage-Continues,
}
use kronical.Records.{ActivityRecord, finalize_all, on_hint, with_next_record_id}
use kronical.Storage.{StorageBackend}

-- A backend whose records can be read, and which refuses every write.
abbrev read_only : StorageBackend (List ActivityRecord)
read_only = record {
  add_events = λ s es. (s, false);
  add_compact_events = λ s es. (s, false);
  add_envelopes = λ s es. (s, false);
  add_records = λ s rs. (s, false);
  add_transitions = λ s ts. (s, false);
  fetch_records_since = λ s since run_id. (s, some s);
  fetch_recent_transitions = λ s since run_id limit. (s, some []);
}

abbrev earlier : List ActivityRecord
earlier =
    record {
      record_id = 41;
      run_id = some "run-1";
      start_time = secs 1;
      end_time = some (secs 2);
      state = ActivityState.active;
      focus_info = none;
      event_count = 0;
      triggering_events = [];
    }
    ∷ []

-- The run goes on at 42.
restart-number : next_record_id (some "run-1") earlier ≡ 42
unfolding next_record_id max_record_id
restart-number = refl

-- What the hints stage sends, then the shutdown and a command too late.
abbrev sent : List StorageCommand
sent =
    storage_commands (hints_stage (some "run-1") 42 hints (secs 9))
    ++ StorageCommand.shutdown ∷ StorageCommand.compact_events [] ∷ []

run_storage-Continues_example :
    (run_storage (traced read_only) (earlier, []) sent
      ≡ (run_storage read_only earlier sent, before_shutdown sent))
    × All (IsNewer earlier) (records_in (before_shutdown sent))
unfolding hydrate_recent_records next_record_id max_record_id hints_stage on_hint
    with_next_record_id finalize_all
run_storage-Continues_example =
    run_storage-Continues read_only earlier 60 "run-1" (secs 9) hints (secs 9) sent (omega arith)
      refl
