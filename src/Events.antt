-- ===== src/Events.antt =====
-- The raw events (crates/core/src/events.rs): what a hook saw, with its time and its number.
-- `i32` fields are integers, `u16`, `u32` and `u64` fields are naturals, and `Arc<String>` is its
-- text: the program compares such pointers by content only.
pub mod Model
pub mod Engine
pub mod DeriveHint
pub mod DeriveSignal
pub mod Adapter
use Prim.Native.Char.{Char}
use kronical.Prelude.{ℕ, String, List, Option}
use kronical.Prelude.Int.{ℤ}
use kronical.Time.{DateTime}

pub record MousePosition : Type 0 where
  pub x : ℤ
  pub y : ℤ

pub record KeyboardEventData : Type 0 where
  pub key_code : Option ℕ
  pub key_char : Option Char
  pub modifiers : List String

pub data MouseButton : Type 0 where
  primary secondary middle button4 button5 : MouseButton
  other : ℕ → MouseButton

pub data MouseEventKind : Type 0 where
  moved pressed released clicked dragged : MouseEventKind

pub data WheelAxis : Type 0 where
  vertical horizontal : WheelAxis

pub data WheelScrollType : Type 0 where
  by_unit by_block : WheelScrollType
  unknown : ℕ → WheelScrollType

pub record MouseEventData : Type 0 where
  pub position : MousePosition
  pub button : Option MouseButton
  pub click_count : Option ℕ
  pub event_type : Option MouseEventKind
  pub wheel_amount : Option ℤ
  pub wheel_rotation : Option ℤ
  pub wheel_axis : Option WheelAxis
  pub wheel_scroll_type : Option WheelScrollType

pub record WindowFocusInfo : Type 0 where
  pub pid : ℤ
  pub process_start_time : ℕ
  pub app_name : String
  pub window_title : String
  pub window_id : ℕ
  pub window_instance_start : DateTime
  pub window_position : Option MousePosition
  pub window_size : Option (ℕ × ℕ)

-- Each has its timestamp and its event id first.
pub data RawEvent : Type 0 where
  keyboard_input : DateTime → ℕ → KeyboardEventData → RawEvent
  mouse_input : DateTime → ℕ → MouseEventData → RawEvent
  window_focus_change : DateTime → ℕ → WindowFocusInfo → RawEvent

abbrev pub timestamp : RawEvent → DateTime
timestamp (RawEvent.keyboard_input t _ _) = t
timestamp (RawEvent.mouse_input t _ _) = t
timestamp (RawEvent.window_focus_change t _ _) = t

abbrev pub event_id : RawEvent → ℕ
event_id (RawEvent.keyboard_input _ i _) = i
event_id (RawEvent.mouse_input _ i _) = i
event_id (RawEvent.window_focus_change _ i _) = i

abbrev pub event_type : RawEvent → String
event_type (RawEvent.keyboard_input _ _ _) = "keyboard"
event_type (RawEvent.mouse_input _ _ _) = "mouse"
event_type (RawEvent.window_focus_change _ _ _) = "window_focus_change"
