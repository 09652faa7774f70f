-- ===== src/Examples/Compressing.antt =====
-- The compressors and the compression stage at concrete inputs: the events of the unit tests of
-- src/daemon/compressor.rs, with whole numbers for floats.
use mathlib.Core.List.{foldr, map, flat_map}
use kronical.Prelude.{
  ℕ, ◌+◌, ◌*◌, ◌/◌, max, ◌≡◌, refl, false, none, some, List, [], ◌∷◌, ltb, ◌==◌, arith, All,
}
use kronical.Prelude.Chunks.{chunk_by}
use kronical.Prelude.Int.{ℤ, pos, negsuc, pos_part, neg_part}
use kronical.Prelude.Sort.{sort_by_key}
use kronical.Compression.{CompactMouseTrajectory, CompactEvent, ScrollDirection, Sizes}
use kronical.Compressors.{Floats}
use kronical.Compressors.Engine.{CompressionEngine, with_focus_cap, compress_events}
use kronical.Compressors.Engine.Batches.{Accounts, compress_events-Accounts}
use kronical.Compressors.Keyboard.{
  KeyboardActivityCompressor, extract_keyboard_events, timestamp_of,
}
use kronical.Compressors.Keyboard
use kronical.Compressors.Keyboard.Bursts.{activity}
use kronical.Compressors.Keyboard.Bursts
use kronical.Compressors.Mouse.{MouseTrajectoryCompressor, extract_mouse_events, douglas_peucker}
use kronical.Compressors.Mouse
use kronical.Compressors.Mouse.Paths.{Recorded, compress-Recorded}
use kronical.Compressors.Mouse.Paths
use kronical.Compressors.Scroll.{ScrollCompressor, extract_scroll_events}
use kronical.Compressors.Scroll
use kronical.Compressors.Scroll.Sequences.{summary}
use kronical.Compressors.Scroll.Sequences
use kronical.Events.{MousePosition, MouseEventKind, WheelAxis, RawEvent}
use kronical.Examples.Data.{key, focused, window}
use kronical.Pipeline.{FlushReason, CompressionCommand}
use kronical.Pipeline.Compress.Stage.{Clock, Step, start, run_compression}
use kronical.Pipeline.Compress.Reports.{
  IsSound, IsAllowed, IsSum, Counted, compressed, start-IsSound, run_compression-Returns,
}
use kronical.Time.{millisecond}

-- Whole numbers: a negative one stands as its absolute value.
abbrev whole : Floats
whole = record {
  as_f32 = λ z. pos_part z + neg_part z;
  add = ◌+◌;
  mul = ◌*◌;
  div = ◌/◌;
  sqrt = λ n. n;
  abs = λ n. n;
  max = max;
  sum = foldr ◌+◌ 0;
  lt = ltb;
  eq = ◌==◌;
}

abbrev at_position : ℕ → MousePosition
at_position x = record { x = pos x; y = pos 0 }

abbrev wheel : ℕ → ℕ → ℤ → WheelAxis → ℕ → RawEvent
wheel millis amount rotation axis id = RawEvent.mouse_input (millis * millisecond) id (record {
  position = at_position 0;
  button = none;
  click_count = none;
  event_type = none;
  wheel_amount = some (pos amount);
  wheel_rotation = some rotation;
  wheel_axis = some axis;
  wheel_scroll_type = none;
})

abbrev moved : ℕ → ℕ → MouseEventKind → ℕ → RawEvent
moved millis x kind id = RawEvent.mouse_input (millis * millisecond) id (record {
  position = at_position x;
  button = none;
  click_count = none;
  event_type = some kind;
  wheel_amount = none;
  wheel_rotation = none;
  wheel_axis = none;
  wheel_scroll_type = none;
})

abbrev wheels : List RawEvent
wheels =
    wheel 0 3 (pos 1) WheelAxis.vertical 1
    ∷ wheel 200 2 (pos 1) WheelAxis.vertical 2
    ∷ wheel 800 5 (negsuc 0) WheelAxis.vertical 3
    ∷ wheel 900 4 (pos 1) WheelAxis.horizontal 4
    ∷ []

-- Two scrolls up, one down, one to the right.
wheels_directions :
    map (λ s. s.direction) (Scroll.compress Scroll.new wheels)
    ≡ ScrollDirection.vertical_up ∷ ScrollDirection.vertical_down ∷ ScrollDirection.horizontal_right
      ∷ []
unfolding Scroll.compress Scroll.new
wheels_directions = refl

compress-chunk_by_example :
    Scroll.compress Scroll.new wheels
    ≡ flat_map summary (chunk_by (Sequences.joins Scroll.new) (extract_scroll_events wheels))
compress-chunk_by_example = Sequences.compress-chunk_by Scroll.new wheels

abbrev moves : List RawEvent
moves =
    moved 0 0 MouseEventKind.moved 1
    ∷ moved 50 10 MouseEventKind.moved 2
    ∷ moved 100 20 MouseEventKind.moved 3
    ∷ moved 400 30 MouseEventKind.dragged 4
    ∷ moved 430 40 MouseEventKind.dragged 5
    ∷ moved 460 50 MouseEventKind.dragged 6
    ∷ []

compress-Recorded_example :
    (ts : List CompactMouseTrajectory) × (Mouse.compress whole (Mouse.new whole) moves ≡ some ts)
    × Recorded (chunk_by (Paths.joins whole (Mouse.new whole)) (extract_mouse_events moves)) ts
unfolding Mouse.new
compress-Recorded_example = compress-Recorded whole (Mouse.new whole) refl moves

abbrev bursts : List RawEvent
bursts =
    key 0 1
    ∷ key (200 * millisecond) 2
    ∷ key (2000 * millisecond) 4
    ∷ key (400 * millisecond) 3
    ∷ []

abbrev gap_of_a_second : KeyboardActivityCompressor
gap_of_a_second = record { max_gap_ms = pos 1000 }

-- The key that came late is sorted in, and the pause of 1.6 seconds makes a second burst.
bursts_keystrokes :
    map (λ a. a.keystrokes) (Keyboard.compress whole gap_of_a_second bursts) ≡ 3 ∷ 1 ∷ []
unfolding Keyboard.compress
bursts_keystrokes = refl

bursts-chunks_example :
    Keyboard.compress whole gap_of_a_second bursts
    ≡ flat_map (activity whole) (
        chunk_by
          (Bursts.joins gap_of_a_second)
          (sort_by_key timestamp_of (extract_keyboard_events bursts)))
bursts-chunks_example = Bursts.bursts-chunks whole gap_of_a_second bursts

abbrev sizes : Sizes
sizes = record {
  scroll_size = 96;
  trajectory_size = 128;
  position_size = 8;
  keyboard_size = 64;
  focus_size = 64;
}

abbrev mixed : List RawEvent
mixed = key 5 9 ∷ focused 6 10 (window "Mail" 3 "Inbox") ∷ wheels

abbrev engine : CompressionEngine
engine = with_focus_cap whole 4096

compress_events-Accounts_example :
    (r : CompressionEngine × (List RawEvent × List CompactEvent)) × (compress_events whole sizes
        engine mixed
      ≡ some r)
    × Accounts sizes engine mixed r
unfolding with_focus_cap Mouse.new
compress_events-Accounts_example =
    compress_events-Accounts whole sizes engine mixed refl (omega arith)

abbrev commands : List (CompressionCommand × Clock)
commands =
    (
      CompressionCommand.process (record { events = mixed; reason = FlushReason.timeout }) [],
      record { now = 7; after_flush = 8 },
    )
    ∷ (CompressionCommand.shutdown, record { now = 9; after_flush = 9 })
    ∷ []

run_compression-Returns_example :
    (r : Step) × (run_compression whole sizes false (start whole 4096 0) commands ≡ some r)
    × IsSound whole r.0
    × All (IsAllowed false) r.1.0
    × All IsSum r.1.1
    × Counted (start whole 4096 0) (compressed commands) r
run_compression-Returns_example =
    run_compression-Returns whole sizes false (start whole 4096 0) commands
      (start-IsSound whole 4096 0 refl)
