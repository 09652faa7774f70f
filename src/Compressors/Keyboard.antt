-- ===== src/Compressors/Keyboard.antt =====
-- `KeyboardActivityCompressor` (src/daemon/compressor.rs): bursts of typing.
pub mod Bursts
use mathlib.Core.List.{filter_map}
use kronical.Prelude.{
  ℕ, ◌%◌, ◌^◌, Bool, true, false, ◌||◌, Option, none, some, List, [], ◌∷◌, ◌++◌, length,
  if◌then◌else◌,
}
use kronical.Prelude.Int.{ℤ, pos, ltb_ℤ, leb_ℤ}
use kronical.Prelude.Loops.{emit_each}
use kronical.Prelude.Sort.{sort_by, sort_by_key}
use kronical.Compression.{CompactKeyboardActivity, pointer, default_raw_event_table}
use kronical.Compressors.{Floats, max_one}
use kronical.Events.{RawEvent}
use kronical.Time.{DateTime, since, num_milliseconds, num_seconds}

pub record KeyboardActivityCompressor : Type 0 where
  pub max_gap_ms : ℤ

unfoldable pub new : KeyboardActivityCompressor
new = record { max_gap_ms = pos 30_000 }

-- The id of a key event and its time.
abbrev pub Key : Type 0
Key = ℕ × DateTime

abbrev pub key_event : RawEvent → Option Key
key_event (RawEvent.keyboard_input timestamp event_id _) = some (event_id, timestamp)
key_event _ = none

unfoldable pub extract_keyboard_events : List RawEvent → List Key
unfolding filter_map
extract_keyboard_events events = filter_map key_event events

abbrev is_key : RawEvent → Bool
is_key (RawEvent.keyboard_input _ _ _) = true
is_key _ = false

unfoldable pub can_compress : List RawEvent → Bool
can_compress [] = false
can_compress (e ∷ events) = is_key e || can_compress events

pub record Group : Type 0 where
  pub group_ids : List ℕ
  pub group_start : DateTime
  pub group_end : DateTime

-- `Flush current group`.
unfoldable pub flush : Floats → Group → CompactKeyboardActivity
flush f g =
    let duration_secs = f.as_f32 (max_one (num_seconds (since g.group_end g.group_start))) in
    let keystrokes = length g.group_ids % 2 ^ 32 in
    record {
      start_time = g.group_start;
      end_time = g.group_end;
      keystrokes = keystrokes;
      keys_per_minute = f.div (f.as_f32 (pos keystrokes)) (f.div duration_secs (f.as_f32 (pos 60)));
      density_per_sec = f.div (f.as_f32 (pos keystrokes)) duration_secs;
      raw_event_ids = pointer default_raw_event_table g.group_ids;
    }

abbrev pub started : Key → Group
started (id, ts) = record { group_ids = id ∷ []; group_start = ts; group_end = ts }

-- The body of the loop: the open group, and what it pushes.
unfoldable pub on_key :
    Floats → KeyboardActivityCompressor → Group → Key → Group × List CompactKeyboardActivity
unfolding flush
on_key f c g (id, ts) =
    if leb_ℤ (num_milliseconds (since ts g.group_end)) c.max_gap_ms
    then (record g { group_end = ts; group_ids = g.group_ids ++ id ∷ [] }, [])
    else (started (id, ts), flush f g ∷ [])

abbrev pub group_keys :
    Floats → KeyboardActivityCompressor → List Key → List CompactKeyboardActivity
group_keys f c [] = []
group_keys f c (k ∷ keys) =
    let (last, out) = emit_each (on_key f c) (started k) keys in out ++ flush f last ∷ []

abbrev pub timestamp_of : Key → DateTime
timestamp_of (id, ts) = ts

unfoldable pub compress :
    Floats → KeyboardActivityCompressor → List RawEvent → List CompactKeyboardActivity
unfolding extract_keyboard_events sort_by on_key flush emit_each
compress f c events = group_keys f c (sort_by_key timestamp_of (extract_keyboard_events events))
