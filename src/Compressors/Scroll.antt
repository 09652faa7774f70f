-- ===== src/Compressors/Scroll.antt =====
-- `ScrollCompressor` (src/daemon/compressor.rs): runs of wheel events in one direction.
pub mod Sequences
use mathlib.Core.List.{filter_map}
use kronical.Prelude.{
  ℕ, suc, ◌+◌, ◌*◌, ◌%◌, ◌^◌, Bool, true, false, ◌&&◌, Option, none, some, List, [], ◌∷◌, ◌++◌,
  length, ltb, is_empty, if◌then◌else◌,
}
use kronical.Prelude.Int.{ℤ, pos, ltb_ℤ, leb_ℤ, add_i32, neg_i32}
use kronical.Prelude.Loops.{emit_each}
use kronical.Compression.{
  CompactScrollSequence, RawEventPointer, ScrollDirection, pointer, default_raw_event_table,
  infer_scroll_direction,
}
use kronical.Events.{MousePosition, WheelAxis, RawEvent}
use kronical.Time.{DateTime, since, num_milliseconds}

pub record ScrollCompressor : Type 0 where
  pub max_gap_ms : ℤ

unfoldable pub new : ScrollCompressor
new = record { max_gap_ms = pos 500 }

pub record ScrollEvent : Type 0 where
  pub event_id : ℕ
  pub timestamp : DateTime
  pub position : MousePosition
  pub signed_amount : ℤ
  pub rotation : ℤ
  pub axis : WheelAxis

-- Only where the hook gave all three fields of the wheel.
abbrev pub wheel_event :
    ℕ → DateTime → MousePosition → Option ℤ → Option ℤ → Option WheelAxis → Option ScrollEvent
wheel_event event_id timestamp position (some amount) (some rotation) (some axis) = some (record {
  event_id = event_id;
  timestamp = timestamp;
  position = position;
  signed_amount = if leb_ℤ (pos 0) rotation then amount else neg_i32 amount;
  rotation = rotation;
  axis = axis;
})
wheel_event event_id timestamp position _ _ _ = none

abbrev pub scroll_event : RawEvent → Option ScrollEvent
scroll_event (RawEvent.mouse_input timestamp event_id d) =
    wheel_event event_id timestamp d.position d.wheel_amount d.wheel_rotation d.wheel_axis
scroll_event _ = none

unfoldable pub extract_scroll_events : List RawEvent → List ScrollEvent
unfolding filter_map
extract_scroll_events events = filter_map scroll_event events

unfoldable pub can_compress : List RawEvent → Bool
unfolding extract_scroll_events
can_compress events = ltb 1 (length (extract_scroll_events events))

abbrev pub direction_of : ScrollEvent → ScrollDirection
direction_of e = infer_scroll_direction e.signed_amount e.axis

-- The derived `==`.
abbrev pub same_direction : ScrollDirection → ScrollDirection → Bool
same_direction ScrollDirection.vertical_up ScrollDirection.vertical_up = true
same_direction ScrollDirection.vertical_down ScrollDirection.vertical_down = true
same_direction ScrollDirection.horizontal_left ScrollDirection.horizontal_left = true
same_direction ScrollDirection.horizontal_right ScrollDirection.horizontal_right = true
same_direction _ _ = false

-- The pointer with one more id.
abbrev pub push_id : Option RawEventPointer → ℕ → Option RawEventPointer
push_id (some link) event_id = some (record link { ids = link.ids ++ event_id ∷ [] })
push_id none event_id = pointer default_raw_event_table (event_id ∷ [])

abbrev pub extends : ScrollCompressor → CompactScrollSequence → ScrollEvent → Bool
extends c seq e =
    same_direction seq.direction (direction_of e)
    && ltb_ℤ (num_milliseconds (since e.timestamp seq.end_time)) c.max_gap_ms

abbrev pub extended : CompactScrollSequence → ScrollEvent → CompactScrollSequence
extended seq e = record seq {
  end_time = e.timestamp;
  total_amount = add_i32 seq.total_amount e.signed_amount;
  total_rotation = add_i32 seq.total_rotation e.rotation;
  scroll_count = (seq.scroll_count + 1) % 2 ^ 32;
  raw_event_ids = push_id seq.raw_event_ids e.event_id;
}

abbrev pub started : ScrollEvent → CompactScrollSequence
started e = record {
  start_time = e.timestamp;
  end_time = e.timestamp;
  direction = direction_of e;
  total_amount = e.signed_amount;
  total_rotation = e.rotation;
  scroll_count = 1;
  position = e.position;
  raw_event_ids = pointer default_raw_event_table (e.event_id ∷ []);
}

-- The body of the loop: the sequence that is open, and those that it pushes.
unfoldable pub on_scroll :
    ScrollCompressor
    → Option CompactScrollSequence
    → ScrollEvent
    → Option CompactScrollSequence × List CompactScrollSequence
unfolding infer_scroll_direction
on_scroll c none e = (some (started e), [])
on_scroll c (some seq) e =
    if extends c seq e then (some (extended seq e), []) else (some (started e), seq ∷ [])

-- What is open at the end is pushed too.
abbrev pub pushed : Option CompactScrollSequence → List CompactScrollSequence
pushed none = []
pushed (some seq) = seq ∷ []

abbrev pub all_sequences : ScrollCompressor → List ScrollEvent → List CompactScrollSequence
all_sequences c events =
    let (open_sequence, sequences) = emit_each (on_scroll c) none events in
    sequences ++ pushed open_sequence

unfoldable pub compress : ScrollCompressor → List RawEvent → List CompactScrollSequence
unfolding extract_scroll_events on_scroll emit_each
compress c events =
    let scroll_events = extract_scroll_events events in
    if is_empty scroll_events then [] else all_sequences c scroll_events
