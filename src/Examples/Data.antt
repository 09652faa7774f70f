-- ===== src/Examples/Data.antt =====
-- Raw events, focus reports and envelopes for the examples.
use kronical.Prelude.{ℕ, ◌*◌, String, false, none, List, [], ◌∷◌}
use kronical.Prelude.Int.{pos}
use kronical.Events.{KeyboardEventData, WindowFocusInfo, RawEvent}
use kronical.Events.Adapter.{hooked}
use kronical.Events.Model.{
  ActivityState, EventSource, SignalKind, HintKind, EventKind, EventPayload, EventEnvelope,
}
use kronical.Pipeline.{FlushReason, RawBatch}
use kronical.Time.{DateTime, second}

abbrev pub key_data : KeyboardEventData
key_data = record { key_code = none; key_char = none; modifiers = [] }

abbrev pub key : DateTime → ℕ → RawEvent
key now id = RawEvent.keyboard_input now id key_data

abbrev pub window : String → ℕ → String → WindowFocusInfo
window app window_id title = record {
  pid = pos 7;
  process_start_time = 1;
  app_name = app;
  window_title = title;
  window_id = window_id;
  window_instance_start = 0;
  window_position = none;
  window_size = none;
}

abbrev pub focused : DateTime → ℕ → WindowFocusInfo → RawEvent
focused now id f = RawEvent.window_focus_change now id f

abbrev pub signal_at : DateTime → ℕ → SignalKind → EventEnvelope
signal_at now id kind = hooked id now (EventKind.signal kind) EventPayload.none

abbrev pub focus_hint : DateTime → ℕ → WindowFocusInfo → EventEnvelope
focus_hint now id f = hooked id now (EventKind.hint HintKind.focus_changed) (EventPayload.focus f)

abbrev pub app_changed : DateTime → ℕ → WindowFocusInfo → EventEnvelope
app_changed now id f =
    hooked id now (EventKind.signal SignalKind.app_changed) (EventPayload.focus f)

-- The state hint of a transition.
abbrev pub state_change : DateTime → ℕ → ActivityState → ActivityState → EventEnvelope
state_change now id from to = record {
  id = id;
  timestamp = now;
  source = EventSource.derived;
  kind = EventKind.hint HintKind.state_changed;
  payload = EventPayload.state from to;
  derived = mathlib.Core.Bool.true;
  polling = false;
  sensitive = false;
}

abbrev pub secs : ℕ → DateTime
secs n = n * second

-- A session: work in an editor, the login window, a key typed there, and the editor again.
abbrev pub session : List RawEvent
session =
    focused (secs 1) 1 (window "Editor" 5 "notes")
    ∷ key (secs 2) 2
    ∷ focused (secs 3) 3 (window "loginwindow" 9 "")
    ∷ key (secs 4) 4
    ∷ focused (secs 5) 5 (window "Editor" 5 "notes")
    ∷ []

abbrev pub session_batch : RawBatch
session_batch = record { events = session; reason = FlushReason.timeout }
