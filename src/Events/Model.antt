-- ===== src/Events/Model.antt =====
-- The envelopes that the derivers pass on (crates/core/src/events/model.rs), and the activity
-- states (crates/core/src/records.rs).
use kronical.Prelude.{ℕ, String, Bool, true, false, Option}
use kronical.Events.{KeyboardEventData, MouseEventData, WindowFocusInfo}
use kronical.Time.{DateTime}

pub data ActivityState : Type 0 where
  active passive inactive locked : ActivityState

-- The derived `PartialEq`.
abbrev pub same_state : ActivityState → ActivityState → Bool
same_state ActivityState.active ActivityState.active = true
same_state ActivityState.passive ActivityState.passive = true
same_state ActivityState.inactive ActivityState.inactive = true
same_state ActivityState.locked ActivityState.locked = true
same_state _ _ = false

pub data EventSource : Type 0 where
  hook derived polling : EventSource

pub data SignalKind : Type 0 where
  keyboard_input mouse_input app_changed window_changed activity_pulse lock_start lock_end :
      SignalKind

pub data HintKind : Type 0 where
  focus_changed state_changed title_changed position_changed size_changed : HintKind

pub data EventKind : Type 0 where
  signal : SignalKind → EventKind
  hint : HintKind → EventKind

pub data EventPayload : Type 0 where
  keyboard : KeyboardEventData → EventPayload
  mouse : MouseEventData → EventPayload
  focus : WindowFocusInfo → EventPayload
  lock : String → EventPayload
  title : ℕ → String → EventPayload
  state : ActivityState → ActivityState → EventPayload
  none : EventPayload

pub record EventEnvelope : Type 0 where
  pub id : ℕ
  pub timestamp : DateTime
  pub source : EventSource
  pub kind : EventKind
  pub payload : EventPayload
  pub derived : Bool
  pub polling : Bool
  pub sensitive : Bool

abbrev pub kind_is_signal : EventKind → Bool
kind_is_signal (EventKind.signal _) = true
kind_is_signal (EventKind.hint _) = false

abbrev pub is_signal : EventEnvelope → Bool
is_signal env = kind_is_signal env.kind

abbrev pub is_hint : EventEnvelope → Bool
is_hint env = mathlib.Core.Bool.not (kind_is_signal env.kind)

pub data SplitReason : Type 0 where
  state_change : ActivityState → SplitReason
  app_window_changed title_changed lock_boundary : SplitReason

abbrev split_kind : EventKind → Option SplitReason
split_kind (EventKind.signal SignalKind.app_changed) = Option.some SplitReason.app_window_changed
split_kind (EventKind.signal SignalKind.window_changed) = Option.some SplitReason.app_window_changed
split_kind (EventKind.hint HintKind.title_changed) = Option.some SplitReason.title_changed
split_kind _ = Option.none

-- `DefaultSplitPolicy`.
unfoldable pub split_reason : EventEnvelope → Option SplitReason
split_reason env = split_kind env.kind
