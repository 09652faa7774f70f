-- ===== src/Records/Builder.antt =====
-- The records of a whole run: their numbers, and what they show.
use kronical.Prelude.{
  ℕ, ◌+◌, ◌%◌, ◌≤◌, ◌<◌, ◌≡◌, Option, none, some, List, [], ◌∷◌, arith, length, ◌⊎◌,
}
use kronical.Events.Model.{ActivityState, EventKind, EventPayload, EventEnvelope}
use kronical.Records.{
  ActivityRecord, RecordBuilder, closed_at, Readings, with_next_record_id, u64_mod, apply_hint,
  on_hint, finalize_all,
}
use kronical.Time.{DateTime}

abbrev pub Hint : Type 0
Hint = EventEnvelope × Readings

abbrev pub emit : Option ActivityRecord → List ActivityRecord → List ActivityRecord
emit none rest = rest
emit (some r) rest = r ∷ rest

-- The stage's loop: every hint, then the last record when the channel closes at `end`.
unfoldable pub records : RecordBuilder → List Hint → DateTime → List ActivityRecord
records b [] end = emit (finalize_all b end).1 []
records b ((env, now) ∷ hints) end =
    let (b', completed) = on_hint b env now in emit completed (records b' hints end)

-- What holds of the record that is open.
abbrev OpenRecord : RecordBuilder → Option ActivityRecord → Type 0
OpenRecord b none = Unit
OpenRecord b (some r) =
    ((r.record_id + 1) % u64_mod ≡ b.next_record_id)
    × (r.state ≡ b.current_state)
    × (r.focus_info ≡ b.current_focus)
    × (r.end_time ≡ none)
    × (r.event_count ≡ 0)
    × (r.triggering_events ≡ [])

abbrev pub IsOpen : RecordBuilder → Type 0
IsOpen b = OpenRecord b b.current_record

apply_hint-IsOpen :
    (k : EventKind) (p : EventPayload) (b : RecordBuilder) (now : Readings)
    → IsOpen b
    → IsOpen (apply_hint k p b now).0
unfolding apply_hint
apply_hint-IsOpen k p b now h = ground arith

pub new-IsOpen : (s : ActivityState) (n : ℕ) → IsOpen (with_next_record_id s n)
unfolding with_next_record_id
new-IsOpen s n = tt

-- The number that the next completed record carries.
abbrev first_id : Option ActivityRecord → ℕ → ℕ
first_id none next = next
first_id (some r) next = r.record_id

abbrev pub due_id : RecordBuilder → ℕ
due_id b = first_id b.current_record b.next_record_id

-- Numbered from `n` without a gap.
abbrev pub Numbered : ℕ → List ActivityRecord → Type 0
Numbered n [] = Unit
Numbered n (r ∷ rs) = (r.record_id ≡ n) × Numbered (n + 1) rs

-- One hint completes the record that is due, or none.
abbrev Counts : ℕ → Option ActivityRecord → ℕ → Type 0
Counts n none m = m ≡ n
Counts n (some r) m = (r.record_id ≡ n) × (m ≡ n + 1)

apply_hint-Counts :
    (k : EventKind) (p : EventPayload) (b : RecordBuilder) (now : Readings)
    → IsOpen b
    → due_id b + 1 < u64_mod
    → Counts (due_id b) (apply_hint k p b now).1 (due_id (apply_hint k p b now).0)
unfolding apply_hint
apply_hint-Counts k p b now h l = ground arith

Numbered-emit :
    (n m : ℕ) (o : Option ActivityRecord) (rs : List ActivityRecord)
    → Counts n o m
    → Numbered m rs
    → Numbered n (emit o rs)
Numbered-emit n m none rs c h = rw c at h
Numbered-emit n m (some r) rs c h = (c.0, rw c.1 at h)

Counts-le : (n m : ℕ) (o : Option ActivityRecord) → Counts n o m → m ≤ n + 1
Counts-le n m o c = ground arith

finalize_all-Numbered :
    (b : RecordBuilder) (end : DateTime) → Numbered (due_id b) (emit (finalize_all b end).1 [])
unfolding finalize_all
finalize_all-Numbered b end = ground arith

-- From a builder whose open record is as the builder left it, and whose numbers do not run out
-- over the hints, the records of a run are numbered consecutively from the number that is due: no
-- number is skipped or used twice, the last record included.
pub records-Numbered :
    (b : RecordBuilder) (hints : List Hint) (end : DateTime)
    → IsOpen b
    → due_id b + length hints < u64_mod
    → Numbered (due_id b) (records b hints end)
unfolding records on_hint
records-Numbered b [] end h l = finalize_all-Numbered b end
records-Numbered b ((env, now) ∷ hints) end h l =
    let (b', completed) = on_hint b env now in
    let c = apply_hint-Counts env.kind env.payload b now h (omega arith) in
    Numbered-emit (due_id b) (due_id b') completed (records b' hints end) c (
      records-Numbered b' hints end (apply_hint-IsOpen env.kind env.payload b now h)
        (omega (arith, Counts-le (due_id b) (due_id b') completed c)))

-- What a hint does to the builder: nothing; or it closes the open record at the first reading, and
-- opens the next one at the second.
abbrev pub Cuts : RecordBuilder → Readings → RecordBuilder × Option ActivityRecord → Type 0
Cuts b now (b', completed) =
    ((b' ≡ b) × (completed ≡ none))
    ⊎ ((completed ≡ closed_at now.ended b.current_record)
        × (b'.next_record_id ≡ (b.next_record_id + 1) % u64_mod)
        × (b'.current_record
            ≡ some (record {
              record_id = b.next_record_id;
              run_id = none;
              start_time = now.started;
              end_time = none;
              state = b'.current_state;
              focus_info = b'.current_focus;
              event_count = 0;
              triggering_events = [];
            })))

-- On every hint: either nothing changes, or one record ends and one begins, and the new one shows
-- the state and the focus that the hint left.
pub on_hint-Cuts :
    (b : RecordBuilder) (env : EventEnvelope) (now : Readings) → Cuts b now (on_hint b env now)
unfolding on_hint
on_hint-Cuts b env now = ground arith

abbrev pub Shows : RecordBuilder → Option ActivityRecord → Type 0
Shows b none = Unit
Shows b (some r) =
    (r.state ≡ b.current_state)
    × (r.focus_info ≡ b.current_focus)
    × (r.event_count ≡ 0)
    × (r.triggering_events ≡ [])

-- A record that a hint completes, from a builder whose open record is as the builder left it,
-- shows the state and the focus that the builder had before that hint; it counts no events and
-- lists no triggering events.
pub on_hint-Shows :
    (b : RecordBuilder) (env : EventEnvelope) (now : Readings)
    → IsOpen b
    → Shows b (on_hint b env now).1
unfolding on_hint
on_hint-Shows b env now h = ground arith
