-- ===== src/Pipeline/Storage.antt =====
-- The storage stage (src/daemon/pipeline/storage.rs), and what src/daemon/pipeline.rs reads of the
-- storage before it starts the stages. A failed write is logged, and the stage goes on.
pub mod Restarts
use kronical.Prelude.{ℕ, ◌-◌, ◌*◌, ◌<◌, String, max, Option, none, some, List, [], ◌∷◌}
use kronical.Pipeline.{StorageCommand}
use kronical.Prelude.Int.{saturating_add}
use kronical.Records.{ActivityRecord}
use kronical.Snapshot
use kronical.Storage.{StorageBackend}
use kronical.Time.{DateTime, second}

-- One command of the loop.
unfoldable pub store_command : {S : Type 0} → StorageBackend S → S → StorageCommand → S
store_command b s (StorageCommand.raw_event event) = (b.add_events s (event ∷ [])).0
store_command b s (StorageCommand.activity r) = (b.add_records s (r ∷ [])).0
store_command b s (StorageCommand.envelope env) = (b.add_envelopes s (env ∷ [])).0
store_command b s (StorageCommand.compact_events events) = (b.add_compact_events s events).0
store_command b s (StorageCommand.transition transition) = (b.add_transitions s (transition ∷ [])).0
store_command b s StorageCommand.shutdown = s

-- The loop: it ends at a shutdown, or where the senders are gone.
unfoldable pub run_storage : {S : Type 0} → StorageBackend S → S → List StorageCommand → S
run_storage b s [] = s
run_storage b s (StorageCommand.shutdown ∷ commands) = s
run_storage b s (StorageCommand.raw_event event ∷ commands) =
    run_storage b (store_command b s (StorageCommand.raw_event event)) commands
run_storage b s (StorageCommand.activity r ∷ commands) =
    run_storage b (store_command b s (StorageCommand.activity r)) commands
run_storage b s (StorageCommand.envelope env ∷ commands) =
    run_storage b (store_command b s (StorageCommand.envelope env)) commands
run_storage b s (StorageCommand.compact_events events ∷ commands) =
    run_storage b (store_command b s (StorageCommand.compact_events events)) commands
run_storage b s (StorageCommand.transition transition ∷ commands) =
    run_storage b (store_command b s (StorageCommand.transition transition)) commands

-- Nothing is hydrated where the storage fails.
abbrev pub or_empty : {A : Type 0} → Option (List A) → List A
or_empty none = []
or_empty (some found) = found

unfoldable pub hydrate_recent_records :
    {S : Type 0} → StorageBackend S → S → ℕ → Option String → DateTime → S × List ActivityRecord
hydrate_recent_records b s retention_minutes run_id now =
    let (s', found) = b.fetch_records_since s (now - retention_minutes * 60 * second) run_id in
    (s', or_empty found)

unfoldable pub hydrate_recent_transitions :
    {S : Type 0}
    → StorageBackend S
    → S
    → ℕ
    → Option String
    → ℕ
    → DateTime
    → S × List Snapshot.Transition
hydrate_recent_transitions b s retention_minutes run_id limit now =
    let (s', found) =
      b.fetch_recent_transitions s (now - retention_minutes * 60 * second) run_id limit in
    (s', or_empty found)

-- `iter().map(record_id).max()`.
abbrev pub greater : ℕ → Option ℕ → ℕ
greater n none = n
greater n (some m) = max n m

unfoldable pub max_record_id : List ActivityRecord → Option ℕ
max_record_id [] = none
max_record_id (r ∷ records) = some (greater r.record_id (max_record_id records))

abbrev pub after_id : Option ℕ → ℕ
after_id none = 0
after_id (some max_id) = saturating_add max_id 1

-- The number that the hints stage starts from: without a run, 0.
unfoldable pub next_record_id : Option String → List ActivityRecord → ℕ
next_record_id none initial_records = 0
next_record_id (some run_id) initial_records = after_id (max_record_id initial_records)
