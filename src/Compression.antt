-- ===== src/Compression.antt =====
-- The compact events (crates/core/src/compression.rs). An `f32` is its bit pattern; the sizes of
-- the structs are the compiler's, and a parameter of `memory_size`.
use kronical.Prelude.{ℕ, ◌+◌, ◌*◌, String, Option, none, some, List, [], ◌∷◌, length, if◌then◌else◌}
use kronical.Prelude.Int.{ℤ, pos, ltb_ℤ}
use kronical.Events.{MousePosition, WheelAxis}
use kronical.Time.{DateTime}

abbrev pub F32 : Type 0
F32 = ℕ

-- A `u16`.
abbrev pub StringId : Type 0
StringId = ℕ

abbrev pub default_raw_event_table : String
default_raw_event_table = "raw_events"

pub record RawEventPointer : Type 0 where
  pub table : String
  pub ids : List ℕ

-- `RawEventPointer::new`: no pointer to no events.
abbrev pub pointer : String → List ℕ → Option RawEventPointer
pointer table [] = none
pointer table (i ∷ ids) = some (record { table = table; ids = i ∷ ids })

abbrev pub ids_of : Option RawEventPointer → List ℕ
ids_of none = []
ids_of (some link) = link.ids

pub data ScrollDirection : Type 0 where
  vertical_up vertical_down horizontal_left horizontal_right : ScrollDirection

pub data MouseTrajectoryType : Type 0 where
  movement drag : MouseTrajectoryType

pub record CompactScrollSequence : Type 0 where
  pub start_time : DateTime
  pub end_time : DateTime
  pub direction : ScrollDirection
  pub total_amount : ℤ
  pub total_rotation : ℤ
  pub scroll_count : ℕ
  pub position : MousePosition
  pub raw_event_ids : Option RawEventPointer

pub record CompactMouseTrajectory : Type 0 where
  pub start_time : DateTime
  pub end_time : DateTime
  pub event_type : MouseTrajectoryType
  pub start_position : MousePosition
  pub end_position : MousePosition
  pub simplified_path : List MousePosition
  pub total_distance : F32
  pub max_velocity : F32
  pub raw_event_ids : Option RawEventPointer

pub record CompactKeyboardActivity : Type 0 where
  pub start_time : DateTime
  pub end_time : DateTime
  pub keystrokes : ℕ
  pub keys_per_minute : F32
  pub density_per_sec : F32
  pub raw_event_ids : Option RawEventPointer

pub record CompactFocusEvent : Type 0 where
  pub timestamp : DateTime
  pub app_name_id : StringId
  pub window_title_id : StringId
  pub pid : ℤ
  pub window_position : Option MousePosition
  pub raw_event_ids : Option RawEventPointer

pub data CompactEvent : Type 0 where
  scroll : CompactScrollSequence → CompactEvent
  mouse_trajectory : CompactMouseTrajectory → CompactEvent
  keyboard : CompactKeyboardActivity → CompactEvent
  focus : CompactFocusEvent → CompactEvent

-- `std::mem::size_of` of the structs.
pub record Sizes : Type 0 where
  pub scroll_size : ℕ
  pub trajectory_size : ℕ
  pub position_size : ℕ
  pub keyboard_size : ℕ
  pub focus_size : ℕ

unfoldable pub memory_size : Sizes → CompactEvent → ℕ
memory_size s (CompactEvent.scroll _) = s.scroll_size
memory_size s (CompactEvent.mouse_trajectory t) =
    s.trajectory_size + length t.simplified_path * s.position_size
memory_size s (CompactEvent.keyboard _) = s.keyboard_size
memory_size s (CompactEvent.focus _) = s.focus_size

unfoldable pub infer_scroll_direction : ℤ → WheelAxis → ScrollDirection
infer_scroll_direction amount WheelAxis.vertical =
    if ltb_ℤ (pos 0) amount then ScrollDirection.vertical_up else ScrollDirection.vertical_down
infer_scroll_direction amount WheelAxis.horizontal =
    if ltb_ℤ (pos 0) amount
    then ScrollDirection.horizontal_right
    else ScrollDirection.horizontal_left
