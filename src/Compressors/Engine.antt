-- ===== src/Compressors/Engine.antt =====
-- `CompressionEngine` (src/daemon/compressor.rs): the four compressors on a batch, and the totals.
-- `none` stands for a panic.
pub mod Batches
use mathlib.Core.List.{map}
use mathlib.Core.Option
use kronical.Prelude.{
  ℕ, ◌+◌, ◌%◌, ◌^◌, Bool, Option, none, some, List, [], ◌∷◌, ◌++◌, length, is_empty, if◌then◌else◌,
}
use kronical.Compression.{CompactEvent, CompactMouseTrajectory, Sizes, memory_size}
use kronical.Compressors.{Floats}
use kronical.Compressors.Focus.{FocusEventProcessor, processor_with_cap}
use kronical.Compressors.Focus
use kronical.Compressors.Keyboard.{KeyboardActivityCompressor}
use kronical.Compressors.Keyboard
use kronical.Compressors.Mouse.{MouseTrajectoryCompressor}
use kronical.Compressors.Mouse
use kronical.Compressors.Scroll.{ScrollCompressor}
use kronical.Compressors.Scroll
use kronical.Events.{RawEvent}

pub record CompressionEngine : Type 0 where
  pub scroll_compressor : ScrollCompressor
  pub mouse_compressor : MouseTrajectoryCompressor
  pub keyboard_compressor : KeyboardActivityCompressor
  pub focus_processor : FocusEventProcessor
  pub total_compact_events : ℕ
  pub total_compact_events_bytes : ℕ

unfoldable pub with_focus_cap : Floats → ℕ → CompressionEngine
with_focus_cap f max_strings = record {
  scroll_compressor = Scroll.new;
  mouse_compressor = Mouse.new f;
  keyboard_compressor = Keyboard.new;
  focus_processor = processor_with_cap max_strings;
  total_compact_events = 0;
  total_compact_events_bytes = 0;
}

-- The loop that adds up the sizes.
unfoldable pub add_sizes : Sizes → ℕ → List CompactEvent → ℕ
add_sizes sizes bytes [] = bytes
add_sizes sizes bytes (event ∷ events) =
    add_sizes sizes ((bytes + memory_size sizes event) % 2 ^ 64) events

unfoldable pub scroll_events : CompressionEngine → List RawEvent → List CompactEvent
scroll_events engine raw_events =
    if Scroll.can_compress raw_events
    then map CompactEvent.scroll (Scroll.compress engine.scroll_compressor raw_events)
    else []

unfoldable pub trajectory_events :
    Floats → CompressionEngine → List RawEvent → Option (List CompactEvent)
trajectory_events f engine raw_events =
    if Mouse.can_compress raw_events
    then Option.map (map CompactEvent.mouse_trajectory)
        (Mouse.compress f engine.mouse_compressor raw_events)
    else some []

unfoldable pub keyboard_events : Floats → CompressionEngine → List RawEvent → List CompactEvent
keyboard_events f engine raw_events =
    if Keyboard.can_compress raw_events
    then map CompactEvent.keyboard (Keyboard.compress f engine.keyboard_compressor raw_events)
    else []

unfoldable pub focus_events :
    CompressionEngine → List RawEvent → FocusEventProcessor × List CompactEvent
focus_events engine raw_events =
    if Focus.can_compress raw_events
    then (let (processor, events) = Focus.compress engine.focus_processor raw_events in
        (processor, map CompactEvent.focus events))
    else (engine.focus_processor, [])

-- The engine with the totals of one more batch.
abbrev pub counted : Sizes → CompressionEngine → List CompactEvent → CompressionEngine
counted sizes engine compact_events = record engine {
  total_compact_events_bytes = add_sizes sizes engine.total_compact_events_bytes compact_events;
  total_compact_events = (engine.total_compact_events + length compact_events) % 2 ^ 64;
}

abbrev pub compact_batch :
    Floats
    → Sizes
    → CompressionEngine
    → List RawEvent
    → List CompactEvent
    → CompressionEngine × (List RawEvent × List CompactEvent)
compact_batch f sizes engine raw_events trajectories =
    let (processor, focuses) = focus_events engine raw_events in
    let compact_events =
      scroll_events engine raw_events
      ++ trajectories
      ++ keyboard_events f engine raw_events
      ++ focuses in
    (
      counted sizes (record engine { focus_processor = processor }) compact_events,
      (raw_events, compact_events),
    )

unfoldable pub compress_events :
    Floats
    → Sizes
    → CompressionEngine
    → List RawEvent
    → Option (CompressionEngine × (List RawEvent × List CompactEvent))
compress_events f sizes engine raw_events =
    if is_empty raw_events
    then some (engine, ([], []))
    else Option.map (compact_batch f sizes engine raw_events)
        (trajectory_events f engine raw_events)
