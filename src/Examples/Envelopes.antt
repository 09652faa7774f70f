-- ===== src/Examples/Envelopes.antt =====
-- The adapter, the lock deriver and the record builder at concrete inputs.
use kronical.Prelude.{◌≡◌, refl, false, none, some, List, [], ◌∷◌, arith, map}
use kronical.Events.Adapter
use kronical.Events.Adapter.{EventAdapter}
use kronical.Events.Adapter.Kinds.{switches}
use kronical.Events.DeriveSignal
use kronical.Events.DeriveSignal.{LockDeriver}
use kronical.Events.DeriveSignal.Boundaries.{Follows, derive-Follows}
use kronical.Events.Model.{ActivityState, SignalKind, EventKind, EventEnvelope}
use kronical.Records.{RecordBuilder, Readings}
use kronical.Records.Builder.{Hint, Numbered, records, records-Numbered}
use kronical.Records.Order.{InOrder, records-InOrder}
use kronical.Prelude.Text.{eq_ignore_ascii_case}
use kronical.Examples.Data.{window, signal_at, app_changed, focus_hint, state_change, secs, session}

abbrev unlocked : LockDeriver
unlocked = record { locked = false }

abbrev desk : EventAdapter
desk = record { last_focus = none }

-- Three switches: to the editor, to the login window, and back.
session-switches : switches none session ≡ 3
unfolding Adapter.same_app
session-switches = refl

abbrev visit : List EventEnvelope
visit =
    signal_at (secs 1) 1 SignalKind.keyboard_input
    ∷ app_changed (secs 2) 2 (window "LoginWindow" 9 "")
    ∷ signal_at (secs 3) 3 SignalKind.keyboard_input
    ∷ app_changed (secs 4) 4 (window "Editor" 5 "notes")
    ∷ []

-- The key at the login window is dropped, and the two boundaries stand around it.
visit_kinds :
    map (λ e. e.kind) (DeriveSignal.derive unlocked visit).1
    ≡ EventKind.signal SignalKind.keyboard_input
      ∷ EventKind.signal SignalKind.lock_start
      ∷ EventKind.signal SignalKind.lock_end
      ∷ EventKind.signal SignalKind.app_changed
      ∷ []
unfolding DeriveSignal.derive DeriveSignal.derive_event DeriveSignal.is_login eq_ignore_ascii_case
visit_kinds = refl

derive-Follows_example :
    Follows unlocked (DeriveSignal.derive unlocked visit).1 (DeriveSignal.derive unlocked visit).0
derive-Follows_example = derive-Follows unlocked visit

abbrev typing : List EventEnvelope
typing =
    signal_at (secs 1) 1 SignalKind.keyboard_input
    ∷ signal_at (secs 2) 2 SignalKind.mouse_input
    ∷ []

abbrev builder : RecordBuilder
builder = record {
  current_state = ActivityState.inactive;
  current_record = none;
  current_focus = none;
  next_record_id = 40;
}

-- The state becomes active, and the focus moves to the editor.
abbrev hints : List Hint
hints =
    (
      state_change (secs 1) 1 ActivityState.inactive ActivityState.active,
      record { ended = secs 1; started = secs 1 },
    )
    ∷ (
      focus_hint (secs 2) 2 (window "Editor" 5 "notes"),
      record { ended = secs 2; started = secs 2 },
    )
    ∷ []

records-Numbered_example : Numbered 40 (records builder hints (secs 9))
records-Numbered_example = records-Numbered builder hints (secs 9) tt (omega arith)

records-InOrder_example : InOrder 0 (records builder hints (secs 9))
records-InOrder_example =
    records-InOrder builder hints (secs 9) 0 0 (omega arith)
      (omega arith, omega arith, (omega arith, omega arith, omega arith))

abbrev opened : RecordBuilder
opened = record builder {
  current_state = ActivityState.active;
  current_record = some (record {
    record_id = 40;
    run_id = none;
    start_time = secs 1;
    end_time = none;
    state = ActivityState.active;
    focus_info = none;
    event_count = 0;
    triggering_events = [];
  });
  next_record_id = 41;
}

abbrev switch : EventEnvelope
switch = focus_hint (secs 2) 2 (window "Editor" 5 "notes")

abbrev at_two : Readings
at_two = record { ended = secs 2; started = secs 2 }
