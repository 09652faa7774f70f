-- ===== src/Pipeline/Compress.antt =====
-- The compression stage (src/daemon/pipeline/compression.rs), around the compressors themselves:
-- which raw events and which compact events go to storage.
-- `forward_raw_events` stops at the first failed send: what it sends is then a prefix of the list.
pub mod Forwarding
pub mod Stats
pub mod Counts
pub mod Stage
pub mod Reports
use kronical.Prelude.{
  ℕ, ◌+◌, Bool, true, false, not, ◌||◌, Option, none, some, List, [], ◌∷◌, ◌++◌, map, ◌==◌,
  is_empty, if◌then◌else◌,
}
use kronical.Compression.{
  CompactEvent, CompactScrollSequence, CompactMouseTrajectory, CompactKeyboardActivity,
  CompactFocusEvent,
}
use kronical.Events.{RawEvent}
use kronical.Events.Model.{SignalKind, EventKind, EventEnvelope}
use kronical.Pipeline.{StorageCommand, FlushReason, Send, to_storage}

-- A `HashSet<u64>`.
unfoldable pub contains : List ℕ → ℕ → Bool
contains [] i = false
contains (j ∷ set) i = j == i || contains set i

abbrev pub lock_after : EventKind → Bool → Bool
lock_after (EventKind.signal SignalKind.lock_start) locked = true
lock_after (EventKind.signal SignalKind.lock_end) locked = false
lock_after _ locked = locked

-- The guard `KeyboardInput | MouseInput if locked`.
abbrev pub is_hidden : EventKind → Bool → Bool
is_hidden (EventKind.signal SignalKind.keyboard_input) locked = locked
is_hidden (EventKind.signal SignalKind.mouse_input) locked = locked
is_hidden _ locked = false

-- The loop over the envelopes: the ids to suppress.
unfoldable pub suppressed : Bool → List EventEnvelope → List ℕ
suppressed locked [] = []
suppressed locked (env ∷ envelopes) =
    let rest = suppressed (lock_after env.kind locked) envelopes in
    if is_hidden env.kind locked then env.id ∷ rest else rest

unfoldable pub should_store : List ℕ → RawEvent → Bool
unfolding contains
should_store suppress (RawEvent.keyboard_input _ event_id _) = not (contains suppress event_id)
should_store suppress (RawEvent.mouse_input _ event_id _) = not (contains suppress event_id)
should_store suppress (RawEvent.window_focus_change _ _ _) = true

unfoldable pub store_events : List ℕ → List RawEvent → List Send
unfolding should_store
store_events suppress [] = []
store_events suppress (event ∷ events) =
    let rest = store_events suppress events in
    if should_store suppress event then to_storage (StorageCommand.raw_event event) ∷ rest else rest

unfoldable pub forward_raw_events : List EventEnvelope → List RawEvent → List Send
unfolding suppressed store_events
forward_raw_events envelopes processed_events =
    if is_empty processed_events
    then []
    else store_events (suppressed false envelopes) processed_events

unfoldable pub forward_compact_events : List CompactEvent → List Send
forward_compact_events compact_events =
    if is_empty compact_events
    then []
    else to_storage (StorageCommand.compact_events compact_events) ∷ []

abbrev pub clear_refs : CompactEvent → CompactEvent
clear_refs (CompactEvent.scroll s) = CompactEvent.scroll (record s { raw_event_ids = none })
clear_refs (CompactEvent.mouse_trajectory t) =
    CompactEvent.mouse_trajectory (record t { raw_event_ids = none })
clear_refs (CompactEvent.keyboard k) = CompactEvent.keyboard (record k { raw_event_ids = none })
clear_refs (CompactEvent.focus f) = CompactEvent.focus (record f { raw_event_ids = none })

unfoldable pub clear_raw_event_refs : List CompactEvent → List CompactEvent
clear_raw_event_refs compact_events = map clear_refs compact_events

-- What the stage stores of a batch that the engine compressed to `compact_events`.
unfoldable pub forward_batch :
    Bool → List EventEnvelope → List RawEvent → List CompactEvent → List Send
unfolding forward_raw_events forward_compact_events clear_raw_event_refs
forward_batch persist_raw_events envelopes processed_events compact_events =
    if persist_raw_events
    then forward_raw_events envelopes processed_events ++ forward_compact_events compact_events
    else forward_compact_events (clear_raw_event_refs compact_events)
