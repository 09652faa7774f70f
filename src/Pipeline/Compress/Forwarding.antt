-- ===== src/Pipeline/Compress/Forwarding.antt =====
-- Which raw events the compression stage stores while the session is locked.
use kronical.Prelude.{
  ◌≡◌, refl, ap, Bool, true, false, Option, none, List, [], ◌∷◌, map, arith, All, length, ◌∙◌,
}
use kronical.Compression.{CompactEvent, RawEventPointer}
use kronical.Events.{RawEvent}
use kronical.Events.DeriveSignal.{LockDeriver, derive}
use kronical.Events.DeriveSignal.Boundaries.{IsGuarded, passes_locked, after_kind, derive-Follows}
use kronical.Events.Model.{EventKind, EventEnvelope}
use kronical.Pipeline.{StorageCommand, Send, to_storage}
use kronical.Pipeline.Compress.{
  is_hidden, lock_after, suppressed, should_store, store_events, forward_raw_events,
  clear_raw_event_refs,
}

not_hidden :
    (k : EventKind) (seen locked : Bool)
    → (locked ≡ true → passes_locked k ≡ true)
    → (seen ≡ true → locked ≡ true)
    → is_hidden k seen ≡ false
not_hidden k seen locked g h = ground arith

still_behind :
    (k : EventKind) (seen locked : Bool)
    → (seen ≡ true → locked ≡ true)
    → lock_after k seen ≡ true
    → after_kind k locked ≡ true
still_behind k seen locked h = ground arith

-- The scan of guarded envelopes finds nothing to suppress: what it looks for was already dropped.
IsGuarded-suppressed :
    (seen locked : Bool) (envelopes : List EventEnvelope)
    → IsGuarded locked envelopes
    → (seen ≡ true → locked ≡ true)
    → suppressed seen envelopes ≡ []
unfolding suppressed
IsGuarded-suppressed seen locked [] g h = refl
IsGuarded-suppressed seen locked (env ∷ envelopes) g h =
    rw (not_hidden env.kind seen locked g.0 h) (
      IsGuarded-suppressed (lock_after env.kind seen) (after_kind env.kind locked) envelopes g.1
        (still_behind env.kind seen locked h))

abbrev as_stored : RawEvent → Send
as_stored e = to_storage (StorageCommand.raw_event e)

should_store_all : (e : RawEvent) → should_store [] e ≡ true
unfolding should_store
should_store_all e = ground arith

store_all : (events : List RawEvent) → store_events [] events ≡ map as_stored events
unfolding store_events
store_all [] = refl
store_all (e ∷ events) = ground (arith, should_store_all e, store_all events)

-- The stage never suppresses a raw event of a locked session. The envelopes that it scans come from
-- the lock deriver, which already dropped the key and mouse envelopes of such a session: whatever
-- the deriver's state and its input, every raw event of the batch is stored.
pub forward_raw_events_all :
    (d : LockDeriver) (input : List EventEnvelope) (events : List RawEvent)
    → forward_raw_events (derive d input).1 events
      ≡ map (λ e. to_storage (StorageCommand.raw_event e)) events
unfolding forward_raw_events
forward_raw_events_all d input [] = refl
forward_raw_events_all d input (e ∷ events) =
    ap (λ set. store_events set (e ∷ events))
      (IsGuarded-suppressed false d.locked (derive d input).1 (derive-Follows d input).guarded
        (λ h. cc))
    ∙ store_all (e ∷ events)

abbrev pub pointer_of : CompactEvent → Option RawEventPointer
pointer_of (CompactEvent.scroll s) = s.raw_event_ids
pointer_of (CompactEvent.mouse_trajectory t) = t.raw_event_ids
pointer_of (CompactEvent.keyboard k) = k.raw_event_ids
pointer_of (CompactEvent.focus f) = f.raw_event_ids

-- Without the raw events no compact event keeps a pointer into their table; clearing once more
-- changes nothing, and no event is dropped.
pub clear_raw_event_refs_none :
    (events : List CompactEvent)
    → All (λ e. pointer_of e ≡ none) (clear_raw_event_refs events)
      × (clear_raw_event_refs (clear_raw_event_refs events) ≡ clear_raw_event_refs events)
      × (length (clear_raw_event_refs events) ≡ length events)
unfolding clear_raw_event_refs
clear_raw_event_refs_none [] = (tt, refl, refl)
clear_raw_event_refs_none (e ∷ events) = ground (arith, clear_raw_event_refs_none events)
