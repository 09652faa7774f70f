-- ===== src/Pipeline/Storage/Restarts.antt =====
-- A run that goes on from the records that the storage has of it: the records that the hints stage
-- makes (src/daemon/pipeline/hints.rs) against those that are found.
use mathlib.Core.List.{append_assoc, append-nil}
use kronical.Prelude.{
  ℕ, ◌+◌, ◌<◌, Bool, ◌≤◌, ◌≡◌, refl, sym, ap, ◌∙◌, String, Option, none, some, List, [], ◌∷◌, ◌++◌,
  map, length, All, All-imp, arith,
}
use kronical.Events.Model.{ActivityState}
use kronical.Pipeline.{StorageCommand, Send, to_storage, to_snapshot, to_hints, to_compression}
use kronical.Pipeline.Hints.{hints_stage, stored_records, with_run, hints_stage-records}
use kronical.Pipeline.Storage.{
  hydrate_recent_records, store_command, run_storage, max_record_id, greater, after_id,
  next_record_id,
}
use kronical.Records.{ActivityRecord, with_next_record_id}
use kronical.Records.Builder.{Hint, records, Numbered, records-Numbered, new-IsOpen}
use kronical.Storage.{StorageBackend}
use kronical.Time.{DateTime}

-- What reaches the storage of a stage's sends.
abbrev pub storage_commands : List Send → List StorageCommand
storage_commands [] = []
storage_commands (to_storage c ∷ sends) = c ∷ storage_commands sends
storage_commands (_ ∷ sends) = storage_commands sends

-- Numbered after all of the old ones.
abbrev pub IsNewer : List ActivityRecord → ActivityRecord → Type 0
IsNewer old r = All (λ (o : ActivityRecord). o.record_id < r.record_id) old

abbrev max_id : ℕ
max_id = 0xffff_ffff_ffff_ffff

abbrev UpTo : ℕ → ActivityRecord → Type 0
UpTo n r = r.record_id < n

after_greater :
    (id n : ℕ) (o : Option ℕ)
    → after_id (some (greater id o)) ≤ n
    → n < max_id
    → (id < n) × (after_id o ≤ n)
after_greater id n none h l = (ground arith, omega arith)
after_greater id n (some m) h l = (ground arith, ground arith)

max_record_id-UpTo :
    (old : List ActivityRecord) (n : ℕ)
    → after_id (max_record_id old) ≤ n
    → n < max_id
    → All (UpTo n) old
unfolding max_record_id
max_record_id-UpTo [] n h l = tt
max_record_id-UpTo (r ∷ old) n h l =
    let (newer, rest) = after_greater r.record_id n (max_record_id old) h l in
    (newer, max_record_id-UpTo old n rest l)

Numbered-IsNewer :
    (old : List ActivityRecord) (n : ℕ) (rs : List ActivityRecord)
    → All (UpTo n) old
    → Numbered n rs
    → All (IsNewer old) rs
Numbered-IsNewer old n [] h d = tt
Numbered-IsNewer old n (r ∷ rs) h d = (
  All-imp (UpTo n) (λ (o : ActivityRecord). o.record_id < r.record_id)
      (λ o lt. omega (arith, lt, d.0)) old h,
  Numbered-IsNewer old (n + 1) rs
      (All-imp (UpTo n) (UpTo (n + 1)) (λ o lt. omega (arith, lt)) old h) d.1,
)

with_run-IsNewer :
    (run_id : Option String) (old rs : List ActivityRecord)
    → All (IsNewer old) rs
    → All (IsNewer old) (map (with_run run_id) rs)
with_run-IsNewer run_id old [] h = tt
with_run-IsNewer run_id old (r ∷ rs) h = (h.0, with_run-IsNewer run_id old rs h.1)

-- The records among the commands.
abbrev pub records_in : List StorageCommand → List ActivityRecord
records_in [] = []
records_in (StorageCommand.activity r ∷ commands) = r ∷ records_in commands
records_in (_ ∷ commands) = records_in commands

-- The records that reach the storage are those of the sends.
pub storage_commands-records :
    (sends : List Send) → records_in (storage_commands sends) ≡ stored_records sends
storage_commands-records [] = refl
storage_commands-records (to_storage (StorageCommand.raw_event e) ∷ sends) =
    storage_commands-records sends
storage_commands-records (to_storage (StorageCommand.activity r) ∷ sends) =
    ap (λ rs. r ∷ rs) (storage_commands-records sends)
storage_commands-records (to_storage (StorageCommand.envelope e) ∷ sends) =
    storage_commands-records sends
storage_commands-records (to_storage (StorageCommand.compact_events es) ∷ sends) =
    storage_commands-records sends
storage_commands-records (to_storage (StorageCommand.transition t) ∷ sends) =
    storage_commands-records sends
storage_commands-records (to_storage StorageCommand.shutdown ∷ sends) =
    storage_commands-records sends
storage_commands-records (to_hints e ∷ sends) = storage_commands-records sends
storage_commands-records (to_compression c ∷ sends) = storage_commands-records sends
storage_commands-records (to_snapshot m ∷ sends) = storage_commands-records sends

-- What the loop comes to: the commands before the first shutdown.
abbrev pub before_shutdown : List StorageCommand → List StorageCommand
before_shutdown [] = []
before_shutdown (StorageCommand.shutdown ∷ commands) = []
before_shutdown (StorageCommand.raw_event e ∷ commands) =
    StorageCommand.raw_event e ∷ before_shutdown commands
before_shutdown (StorageCommand.activity r ∷ commands) =
    StorageCommand.activity r ∷ before_shutdown commands
before_shutdown (StorageCommand.envelope e ∷ commands) =
    StorageCommand.envelope e ∷ before_shutdown commands
before_shutdown (StorageCommand.compact_events es ∷ commands) =
    StorageCommand.compact_events es ∷ before_shutdown commands
before_shutdown (StorageCommand.transition t ∷ commands) =
    StorageCommand.transition t ∷ before_shutdown commands

module _ {S : Type 0} (b : StorageBackend S) where
  abbrev noted : S × Bool → List StorageCommand → (S × List StorageCommand) × Bool
  noted (s, done) trace = ((s, trace), done)

  -- The backend with a note of what it is asked to write, whatever it answers.
  abbrev pub traced : StorageBackend (S × List StorageCommand)
  traced = record {
    add_events =
        λ (s, trace) es. noted (b.add_events s es) (trace ++ map StorageCommand.raw_event es);
    add_compact_events = λ (s, trace) es.
        noted (b.add_compact_events s es) (trace ++ StorageCommand.compact_events es ∷ []);
    add_envelopes =
        λ (s, trace) es. noted (b.add_envelopes s es) (trace ++ map StorageCommand.envelope es);
    add_records =
        λ (s, trace) rs. noted (b.add_records s rs) (trace ++ map StorageCommand.activity rs);
    add_transitions =
        λ (s, trace) ts. noted (b.add_transitions s ts) (trace ++ map StorageCommand.transition ts);
    fetch_records_since = λ (s, trace) since run_id.
        (let (s', found) = b.fetch_records_since s since run_id in ((s', trace), found));
    fetch_recent_transitions = λ (s, trace) since run_id limit.
        (let (s', found) = b.fetch_recent_transitions s since run_id limit in ((s', trace), found));
  }

  -- A command that is noted in front of the rest.
  one_more :
      (s : S) (trace rest : List StorageCommand) (c : StorageCommand)
      (commands : List StorageCommand)
      → run_storage traced (s, trace ++ c ∷ []) commands
        ≡ (run_storage b s commands, (trace ++ c ∷ []) ++ rest)
      → run_storage traced (s, trace ++ c ∷ []) commands
        ≡ (run_storage b s commands, trace ++ c ∷ rest)
  one_more s trace rest c commands h =
      h ∙ ap (λ t. (run_storage b s commands, t)) (append_assoc trace (c ∷ []) rest)

  run_storage-traced :
      (s : S) (trace commands : List StorageCommand)
      → run_storage traced (s, trace) commands
        ≡ (run_storage b s commands, trace ++ before_shutdown commands)
  unfolding run_storage store_command
  run_storage-traced s trace [] = ap (λ t. (s, t)) (sym (append-nil trace))
  run_storage-traced s trace (StorageCommand.shutdown ∷ commands) =
      ap (λ t. (s, t)) (sym (append-nil trace))
  run_storage-traced s trace (StorageCommand.raw_event e ∷ commands) =
      one_more _ trace _ (StorageCommand.raw_event e) commands (
        run_storage-traced (b.add_events s (e ∷ [])).0 (trace ++ StorageCommand.raw_event e ∷ [])
          commands)
  run_storage-traced s trace (StorageCommand.activity r ∷ commands) =
      one_more _ trace _ (StorageCommand.activity r) commands (
        run_storage-traced (b.add_records s (r ∷ [])).0 (trace ++ StorageCommand.activity r ∷ [])
          commands)
  run_storage-traced s trace (StorageCommand.envelope e ∷ commands) =
      one_more _ trace _ (StorageCommand.envelope e) commands (
        run_storage-traced (b.add_envelopes s (e ∷ [])).0 (trace ++ StorageCommand.envelope e ∷ [])
          commands)
  run_storage-traced s trace (StorageCommand.compact_events es ∷ commands) =
      one_more _ trace _ (StorageCommand.compact_events es) commands (
        run_storage-traced (b.add_compact_events s es).0
          (trace ++ StorageCommand.compact_events es ∷ []) commands)
  run_storage-traced s trace (StorageCommand.transition t ∷ commands) =
      one_more _ trace _ (StorageCommand.transition t) commands (
        run_storage-traced (b.add_transitions s (t ∷ [])).0
          (trace ++ StorageCommand.transition t ∷ []) commands)

-- The hints stage's records are numbered after those of the run that were found at the start.
made-IsNewer :
    (run_id : String) (old : List ActivityRecord) (hints : List Hint) (end : DateTime)
    → next_record_id (some run_id) old + length hints < max_id
    → All
        (IsNewer old)
        (stored_records (hints_stage (some run_id) (next_record_id (some run_id) old) hints end))
unfolding next_record_id with_next_record_id
made-IsNewer run_id old hints end room =
    let next = after_id (max_record_id old) in
    let b = with_next_record_id ActivityState.inactive next in
    rw (hints_stage-records (some run_id) next hints end).0 (
      with_run-IsNewer (some run_id) old (records b hints end) (
        Numbered-IsNewer old next (records b hints end)
          (max_record_id-UpTo old next (omega arith) (omega (arith, room)))
          (records-Numbered b hints end (new-IsOpen ActivityState.inactive next)
            (omega (arith, room)))))

-- A run that starts again from the records that the storage finds of it, while its numbers do not run
-- out, and that is given, up to the shutdown, the records of the hints stage among other commands:
-- with any backend, and whichever writes it refuses, the stage asks it to write each command before
-- the shutdown, once and in order; and each record among them is numbered after every record that
-- was found.
pub run_storage-Continues :
    {S : Type 0} (b : StorageBackend S) (s : S) (retention_minutes : ℕ) (run_id : String)
    (now : DateTime) (hints : List Hint) (end : DateTime) (commands : List StorageCommand)
    → let (s', old) = hydrate_recent_records b s retention_minutes (some run_id) now in
      let made =
        stored_records (hints_stage (some run_id) (next_record_id (some run_id) old) hints end) in
      next_record_id (some run_id) old + length hints < max_id
      → records_in (before_shutdown commands) ≡ made
      → (run_storage (traced b) (s', []) commands
          ≡ (run_storage b s' commands, before_shutdown commands))
        × All (IsNewer old) (records_in (before_shutdown commands))
run_storage-Continues b s retention_minutes run_id now hints end commands room given =
    let (s', old) = hydrate_recent_records b s retention_minutes (some run_id) now in
    (run_storage-traced b s' [] commands, rw given (made-IsNewer run_id old hints end room))
