-- ===== src/Pipeline/Hints.antt =====
-- The hints stage (src/daemon/pipeline/hints.rs): hints into records. All its sends are made
-- whether or not an earlier one succeeded. Each hint comes with the readings of the clock that
-- the record builder makes for it.
use kronical.Prelude.{ℕ, String, ◌≡◌, Option, none, some, List, [], ◌∷◌, ◌++◌, map, arith}
use kronical.Events.Model.{ActivityState, EventEnvelope}
use kronical.Pipeline.{StorageCommand, SnapshotMessage, Send, to_storage, to_snapshot}
use kronical.Records.{ActivityRecord, RecordBuilder, with_next_record_id, on_hint, finalize_all}
use kronical.Records.Builder.{Hint, records}
use kronical.Time.{DateTime}

abbrev pub with_run : Option String → ActivityRecord → ActivityRecord
with_run run_id r = record r { run_id = run_id }

abbrev send_record : Option String → Option ActivityRecord → List Send
send_record run_id none = []
send_record run_id (some r) =
    to_storage (StorageCommand.activity (with_run run_id r))
    ∷ to_snapshot (SnapshotMessage.activity (with_run run_id r))
    ∷ []

unfoldable pub hints_loop : Option String → RecordBuilder → List Hint → DateTime → List Send
hints_loop run_id b [] end =
    send_record run_id (finalize_all b end).1 ++ (to_snapshot SnapshotMessage.hints_complete ∷ [])
hints_loop run_id b ((env, now) ∷ hints) end =
    let (b', completed) = on_hint b env now in
    to_storage (StorageCommand.envelope env)
    ∷ (send_record run_id completed ++ hints_loop run_id b' hints end)

-- The stage from its first hint until the channel closes.
unfoldable pub hints_stage : Option String → ℕ → List Hint → DateTime → List Send
unfolding hints_loop
hints_stage run_id next_record_id hints end =
    hints_loop run_id (with_next_record_id ActivityState.inactive next_record_id) hints end

abbrev pub stored_records : List Send → List ActivityRecord
stored_records [] = []
stored_records (to_storage (StorageCommand.activity r) ∷ sends) = r ∷ stored_records sends
stored_records (_ ∷ sends) = stored_records sends

abbrev pub shown_records : List Send → List ActivityRecord
shown_records [] = []
shown_records (to_snapshot (SnapshotMessage.activity r) ∷ sends) = r ∷ shown_records sends
shown_records (_ ∷ sends) = shown_records sends

abbrev pub stored_envelopes : List Send → List EventEnvelope
stored_envelopes [] = []
stored_envelopes (to_storage (StorageCommand.envelope e) ∷ sends) = e ∷ stored_envelopes sends
stored_envelopes (_ ∷ sends) = stored_envelopes sends

hints_loop-records :
    (run_id : Option String) (b : RecordBuilder) (hints : List Hint) (end : DateTime)
    → let sends = hints_loop run_id b hints end in
      (stored_records sends ≡ map (with_run run_id) (records b hints end))
      × (shown_records sends ≡ map (with_run run_id) (records b hints end))
      × (stored_envelopes sends ≡ map (λ h. h.0) hints)
unfolding hints_loop records
hints_loop-records run_id b [] end = ground arith
hints_loop-records run_id b ((env, now) ∷ hints) end =
    let (b', completed) = on_hint b env now in
    ground (arith, hints_loop-records run_id b' hints end)

-- Storage and the snapshot stage are given the same records in the same order: those that the
-- record builder completes, the last one included, each under the run's id. Every hint is stored.
pub hints_stage-records :
    (run_id : Option String) (next : ℕ) (hints : List Hint) (end : DateTime)
    → let sends = hints_stage run_id next hints end in
      let made =
        map
          (with_run run_id)
          (records (with_next_record_id ActivityState.inactive next) hints end) in
      (stored_records sends ≡ made)
      × (shown_records sends ≡ made)
      × (stored_envelopes sends ≡ map (λ h. h.0) hints)
unfolding hints_stage
hints_stage-records run_id next hints end =
    hints_loop-records run_id (with_next_record_id ActivityState.inactive next) hints end
