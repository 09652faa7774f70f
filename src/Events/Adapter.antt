-- ===== src/Events/Adapter.antt =====
-- `EventAdapter` (crates/core/src/events/adapter.rs): raw events as signals and hints.
pub mod Kinds
use kronical.Prelude.{
  ℕ, Bool, true, false, not, ◌&&◌, ◌||◌, Option, none, some, List, [], ◌∷◌, ◌++◌, ◌==◌,
  if◌then◌else◌,
}
use kronical.Prelude.Int.{same_ℤ}
use kronical.Prelude.Loops.{emit_each}
use kronical.Prelude.Text.{str_eq, eq_ignore_ascii_case}
use kronical.Events.{WindowFocusInfo, RawEvent}
use kronical.Events.Model.{
  EventSource, SignalKind, HintKind, EventKind, EventPayload, EventEnvelope, signal, hint,
}
use kronical.Time.{DateTime}

pub record EventAdapter : Type 0 where
  pub last_focus : Option WindowFocusInfo

unfoldable pub new : EventAdapter
new = record { last_focus = none }

-- An envelope straight from a hook.
abbrev pub hooked : ℕ → DateTime → EventKind → EventPayload → EventEnvelope
hooked id now kind payload = record {
  id = id;
  timestamp = now;
  source = EventSource.hook;
  kind = kind;
  payload = payload;
  derived = false;
  polling = false;
  sensitive = false;
}

-- What a change of the app or of the window emits; the login window is no activity.
abbrev pub focus_envelopes : ℕ → DateTime → SignalKind → WindowFocusInfo → List EventEnvelope
focus_envelopes id now kind current =
    hooked id now (signal kind) (EventPayload.focus current)
    ∷ hooked id now (hint HintKind.focus_changed) (EventPayload.focus current)
    ∷ (if eq_ignore_ascii_case current.app_name "loginwindow"
        then []
        else hooked id now (signal SignalKind.activity_pulse) EventPayload.none ∷ [])

abbrev pub title_envelope : ℕ → DateTime → WindowFocusInfo → EventEnvelope
title_envelope id now current = record {
  id = id;
  timestamp = now;
  source = EventSource.polling;
  kind = hint HintKind.title_changed;
  payload = EventPayload.title current.window_id current.window_title;
  derived = false;
  polling = true;
  sensitive = false;
}

-- Two focus reports of one process.
unfoldable pub same_app : WindowFocusInfo → WindowFocusInfo → Bool
same_app last current =
    same_ℤ last.pid current.pid
    && (last.process_start_time == current.process_start_time
        && str_eq last.app_name current.app_name)

unfoldable pub adapt_focus :
    Option WindowFocusInfo → ℕ → DateTime → WindowFocusInfo → List EventEnvelope
adapt_focus none id now current = focus_envelopes id now SignalKind.app_changed current
adapt_focus (some last) id now current =
    if not (same_app last current)
    then focus_envelopes id now SignalKind.app_changed current
    else if not (last.window_id == current.window_id)
    then focus_envelopes id now SignalKind.window_changed current
    else if not (str_eq last.window_title current.window_title)
    then title_envelope id now current ∷ []
    else []

-- The body of the loop.
unfoldable pub adapt_event : EventAdapter → RawEvent → EventAdapter × List EventEnvelope
unfolding adapt_focus
adapt_event a (RawEvent.keyboard_input now id input) =
    (a, hooked id now (signal SignalKind.keyboard_input) (EventPayload.keyboard input) ∷ [])
adapt_event a (RawEvent.mouse_input now id input) =
    (a, hooked id now (signal SignalKind.mouse_input) (EventPayload.mouse input) ∷ [])
adapt_event a (RawEvent.window_focus_change now id current) =
    (record { last_focus = some current }, adapt_focus a.last_focus id now current)

unfoldable pub adapt_batch : EventAdapter → List RawEvent → EventAdapter × List EventEnvelope
unfolding emit_each
adapt_batch a raw = emit_each adapt_event a raw
