-- ===== src/Compressors/Focus.antt =====
-- `FocusEventProcessor` (src/daemon/compressor.rs): focus changes with ids in place of texts.
use mathlib.Core.List.{filter_map, flat_map}
use kronical.Prelude.{ℕ, ◌≡◌, refl, ap, Bool, true, false, ◌||◌, Option, none, some, List, [], ◌∷◌}
use kronical.Prelude.Loops.{emit_each}
use kronical.Compression.{CompactFocusEvent, pointer, default_raw_event_table, ids_of}
use kronical.Compressors.Interner.{StringInterner, with_cap, intern}
use kronical.Events.{RawEvent}

pub record FocusEventProcessor : Type 0 where
  pub string_interner : StringInterner

unfoldable pub processor_with_cap : ℕ → FocusEventProcessor
processor_with_cap max_strings = record { string_interner = with_cap max_strings }

abbrev is_focus_change : RawEvent → Bool
is_focus_change (RawEvent.window_focus_change _ _ _) = true
is_focus_change _ = false

unfoldable pub can_compress : List RawEvent → Bool
can_compress [] = false
can_compress (e ∷ events) = is_focus_change e || can_compress events

-- One event: the app's name is interned before the window's title.
unfoldable pub on_event :
    FocusEventProcessor → RawEvent → FocusEventProcessor × List CompactFocusEvent
on_event p (RawEvent.window_focus_change timestamp event_id focus_info) =
    let (named, app_name_id) = intern p.string_interner focus_info.app_name in
    let (titled, window_title_id) = intern named focus_info.window_title in
    (
      record { string_interner = titled },
      record {
        timestamp = timestamp;
        app_name_id = app_name_id;
        window_title_id = window_title_id;
        pid = focus_info.pid;
        window_position = focus_info.window_position;
        raw_event_ids = pointer default_raw_event_table (event_id ∷ []);
      }
          ∷ [],
    )
on_event p _ = (p, [])

unfoldable pub compress :
    FocusEventProcessor → List RawEvent → FocusEventProcessor × List CompactFocusEvent
compress p events = emit_each on_event p events

abbrev focus_id : RawEvent → Option ℕ
focus_id (RawEvent.window_focus_change _ event_id _) = some event_id
focus_id _ = none

-- The ids of the focus changes.
unfoldable pub focus_change_ids : List RawEvent → List ℕ
focus_change_ids events = filter_map focus_id events

abbrev pub event_ids : CompactFocusEvent → List ℕ
event_ids f = ids_of f.raw_event_ids

loop-ids :
    (p : FocusEventProcessor) (events : List RawEvent)
    → flat_map event_ids (emit_each on_event p events).1 ≡ focus_change_ids events
unfolding emit_each on_event flat_map focus_change_ids filter_map
loop-ids p [] = refl
loop-ids p (RawEvent.keyboard_input _ _ _ ∷ events) = loop-ids p events
loop-ids p (RawEvent.mouse_input _ _ _ ∷ events) = loop-ids p events
loop-ids p (RawEvent.window_focus_change t i d ∷ events) =
    ap (◌∷◌ i) (loop-ids (on_event p (RawEvent.window_focus_change t i d)).0 events)

-- One compact event for each focus change, in order.
pub compress-ids :
    (p : FocusEventProcessor) (events : List RawEvent)
    → flat_map event_ids (compress p events).1 ≡ focus_change_ids events
unfolding compress
compress-ids p events = loop-ids p events
