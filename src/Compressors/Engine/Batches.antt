-- ===== src/Compressors/Engine/Batches.antt =====
-- What `compress_events` makes of a batch: which raw events its compact events stand for.
use mathlib.Core.List.{filter_map, flat_map, map, append-nil, append_assoc}
use kronical.Prelude.{
  ℕ, ◌+◌, ◌%◌, ◌^◌, ◌<◌, ◌≡◌, refl, ◌∙◌, Bool, true, false, some, List, [], ◌∷◌, ◌++◌, is_empty,
  if◌then◌else◌, arith, Bool-cases, inl, inr, flat_map-append, flat_map-map,
}
use kronical.Prelude.Int.{pos}
use kronical.Prelude.Sort.{sort_by, sort_by_key}
use kronical.Compression.{
  CompactEvent, CompactMouseTrajectory, CompactScrollSequence, CompactKeyboardActivity,
  CompactFocusEvent, Sizes, memory_size, ids_of,
}
use kronical.Compressors.{Floats}
use kronical.Compressors.Engine.{
  CompressionEngine, scroll_events, trajectory_events, keyboard_events, focus_events, add_sizes,
  compact_batch, compress_events,
}
use kronical.Compressors.Focus.{focus_change_ids}
use kronical.Compressors.Focus
use kronical.Compressors.Keyboard.{extract_keyboard_events, timestamp_of}
use kronical.Compressors.Keyboard
use kronical.Compressors.Keyboard.Bursts.{id_of}
use kronical.Compressors.Keyboard.Bursts
use kronical.Compressors.Mouse
use kronical.Compressors.Mouse.Paths
use kronical.Compressors.Scroll.{ScrollEvent, extract_scroll_events}
use kronical.Compressors.Scroll
use kronical.Compressors.Scroll.Sequences
use kronical.Events.{RawEvent}

-- The raw events behind the compact events of one kind.
abbrev pub scroll_ids : CompactEvent → List ℕ
scroll_ids (CompactEvent.scroll s) = ids_of s.raw_event_ids
scroll_ids _ = []

abbrev pub keyboard_ids : CompactEvent → List ℕ
keyboard_ids (CompactEvent.keyboard k) = ids_of k.raw_event_ids
keyboard_ids _ = []

abbrev pub focus_ids : CompactEvent → List ℕ
focus_ids (CompactEvent.focus f) = ids_of f.raw_event_ids
focus_ids _ = []

abbrev pub total_size : Sizes → List CompactEvent → ℕ
total_size sizes [] = 0
total_size sizes (e ∷ events) = memory_size sizes e + total_size sizes events

add_sizes-total_size :
    (sizes : Sizes) (bytes : ℕ) (events : List CompactEvent)
    → bytes < 2 ^ 64
    → add_sizes sizes bytes events ≡ (bytes + total_size sizes events) % 2 ^ 64
unfolding add_sizes
add_sizes-total_size sizes bytes [] h = omega arith
add_sizes-total_size sizes bytes (e ∷ events) h = omega (
  arith,
  add_sizes-total_size sizes ((bytes + memory_size sizes e) % 2 ^ 64) events (omega arith),
)

-- Events of another kind add no ids.
others {ℓ} :
    {A : Type ℓ} (g : CompactEvent → List ℕ) (wrap : A → CompactEvent) (xs : List A)
    → ((x : A) → g (wrap x) ≡ [])
    → flat_map g (map wrap xs) ≡ []
unfolding flat_map
others g wrap [] h = refl
others g wrap (x ∷ xs) h = rw (h x) (others g wrap xs h)

others_if {ℓ} :
    {A : Type ℓ} (g : CompactEvent → List ℕ) (wrap : A → CompactEvent) (b : Bool) (xs : List A)
    → ((x : A) → g (wrap x) ≡ [])
    → flat_map g (if b then map wrap xs else []) ≡ []
unfolding flat_map
others_if g wrap true xs h = others g wrap xs h
others_if g wrap false xs h = refl

no_keys :
    (events : List RawEvent)
    → Keyboard.can_compress events ≡ false
    → extract_keyboard_events events ≡ []
unfolding Keyboard.can_compress extract_keyboard_events filter_map
no_keys [] h = refl
no_keys (RawEvent.keyboard_input _ _ _ ∷ events) h = cc
no_keys (RawEvent.mouse_input _ _ _ ∷ events) h = no_keys events h
no_keys (RawEvent.window_focus_change _ _ _ ∷ events) h = no_keys events h

no_focuses :
    (events : List RawEvent) → Focus.can_compress events ≡ false → focus_change_ids events ≡ []
unfolding Focus.can_compress focus_change_ids filter_map
no_focuses [] h = refl
no_focuses (RawEvent.keyboard_input _ _ _ ∷ events) h = no_focuses events h
no_focuses (RawEvent.mouse_input _ _ _ ∷ events) h = no_focuses events h
no_focuses (RawEvent.window_focus_change _ _ _ ∷ events) h = cc

scroll_events-ids :
    (engine : CompressionEngine) (events : List RawEvent)
    → flat_map scroll_ids (scroll_events engine events) ≡ (
        if Scroll.can_compress events
        then map (λ (x : ScrollEvent). x.event_id) (extract_scroll_events events)
        else [])
unfolding scroll_events flat_map
scroll_events-ids engine events = elim (Bool-cases (Scroll.can_compress events)) [
  | inl can ↦ rw can (
      flat_map-map scroll_ids CompactEvent.scroll (Scroll.compress engine.scroll_compressor events)
      ∙ Sequences.compress-ids engine.scroll_compressor events)
  | inr cannot ↦ rw cannot refl
]

keyboard_events-ids :
    (f : Floats) (engine : CompressionEngine) (events : List RawEvent)
    → flat_map keyboard_ids (keyboard_events f engine events)
      ≡ map id_of (sort_by_key timestamp_of (extract_keyboard_events events))
unfolding keyboard_events flat_map sort_by
keyboard_events-ids f engine events = elim (Bool-cases (Keyboard.can_compress events)) [
  | inl can ↦ rw can (
      flat_map-map keyboard_ids CompactEvent.keyboard
        (Keyboard.compress f engine.keyboard_compressor events)
      ∙ Bursts.compress-ids f engine.keyboard_compressor events)
  | inr cannot ↦ rw cannot (rw (no_keys events cannot) refl)
]

focus_events-ids :
    (engine : CompressionEngine) (events : List RawEvent)
    → flat_map focus_ids (focus_events engine events).1 ≡ focus_change_ids events
unfolding focus_events flat_map
focus_events-ids engine events = elim (Bool-cases (Focus.can_compress events)) [
  | inl can ↦ rw can (
      flat_map-map focus_ids CompactEvent.focus (Focus.compress engine.focus_processor events).1
      ∙ Focus.compress-ids engine.focus_processor events)
  | inr cannot ↦ rw cannot (rw (no_focuses events cannot) refl)
]

is_empty→nil : (events : List RawEvent) → is_empty events ≡ true → events ≡ []
is_empty→nil [] h = refl
is_empty→nil (e ∷ events) h = cc

-- The events of the mouse: trajectories only, and no panic.
trajectory_events-some :
    (f : Floats) (engine : CompressionEngine) (events : List RawEvent)
    → f.lt engine.mouse_compressor.douglas_peucker_epsilon (f.as_f32 (pos 0)) ≡ false
    → (ts : List CompactMouseTrajectory) × (trajectory_events f engine events
        ≡ some (map CompactEvent.mouse_trajectory ts))
unfolding trajectory_events
trajectory_events-some f engine events positive = elim (Bool-cases (Mouse.can_compress events)) [
  | inl can ↦
      let (ts, e, _) = Paths.compress-Recorded f engine.mouse_compressor positive events in
      rw can (rw e (ts, refl))
  | inr cannot ↦ rw cannot ([], refl)
]

-- What the result of a batch says of it.
pub record Accounts (sizes : Sizes) (engine : CompressionEngine) (events : List RawEvent)
    (r : CompressionEngine × (List RawEvent × List CompactEvent)) : Type 0 where
  pub raw : r.1.0 ≡ events
  pub scrolls : flat_map scroll_ids r.1.1 ≡ (
      if Scroll.can_compress events
      then map (λ (x : ScrollEvent). x.event_id) (extract_scroll_events events)
      else [])
  pub keys :
      flat_map keyboard_ids r.1.1
      ≡ map id_of (sort_by_key timestamp_of (extract_keyboard_events events))
  pub focuses : flat_map focus_ids r.1.1 ≡ focus_change_ids events
  pub mouse_settings : r.0.mouse_compressor ≡ engine.mouse_compressor
  pub bytes :
      r.0.total_compact_events_bytes
      ≡ (engine.total_compact_events_bytes + total_size sizes r.1.1) % 2 ^ 64

-- The parts of a batch, read kind by kind.
parts :
    (g : CompactEvent → List ℕ) (as' bs cs ds : List CompactEvent)
    → flat_map g (as' ++ bs ++ cs ++ ds)
      ≡ flat_map g as' ++ (flat_map g bs ++ (flat_map g cs ++ flat_map g ds))
parts g as' bs cs ds = simp (flat_map-append, append_assoc)

-- What the events of one kind give, where they are read for another.
module _ (g : CompactEvent → List ℕ) (f : Floats) (engine : CompressionEngine)
    (events : List RawEvent) where
  scroll_events-others :
      ((x : CompactScrollSequence) → g (CompactEvent.scroll x) ≡ [])
      → flat_map g (scroll_events engine events) ≡ []
  unfolding scroll_events
  scroll_events-others =
      others_if g CompactEvent.scroll (Scroll.can_compress events)
        (Scroll.compress engine.scroll_compressor events)

  keyboard_events-others :
      ((x : CompactKeyboardActivity) → g (CompactEvent.keyboard x) ≡ [])
      → flat_map g (keyboard_events f engine events) ≡ []
  unfolding keyboard_events
  keyboard_events-others =
      others_if g CompactEvent.keyboard (Keyboard.can_compress events)
        (Keyboard.compress f engine.keyboard_compressor events)

  focus_events-others :
      ((x : CompactFocusEvent) → g (CompactEvent.focus x) ≡ [])
      → flat_map g (focus_events engine events).1 ≡ []
  unfolding focus_events flat_map
  focus_events-others h = elim (Bool-cases (Focus.can_compress events)) [
    | inl can ↦
        rw can (others g CompactEvent.focus (Focus.compress engine.focus_processor events).1 h)
    | inr cannot ↦ rw cannot refl
  ]

module _ (f : Floats) (sizes : Sizes) (engine : CompressionEngine) (events : List RawEvent) where
  compact_batch-Accounts :
      (ts : List CompactMouseTrajectory)
      → engine.total_compact_events_bytes < 2 ^ 64
      → Accounts sizes engine events
          (compact_batch f sizes engine events (map CompactEvent.mouse_trajectory ts))
  compact_batch-Accounts ts bound =
      let ss = scroll_events engine events in
      let ms = map CompactEvent.mouse_trajectory ts in
      let ks = keyboard_events f engine events in
      let fs = (focus_events engine events).1 in
      record {
        raw = refl;
        mouse_settings = refl;
        scrolls =
            parts scroll_ids ss ms ks fs
            ∙ rw (others scroll_ids CompactEvent.mouse_trajectory ts (λ x. refl)) (
                rw (keyboard_events-others scroll_ids f engine events (λ x. refl)) (
                  rw (focus_events-others scroll_ids f engine events (λ x. refl))
                    (append-nil _ ∙ scroll_events-ids engine events)));
        keys =
            parts keyboard_ids ss ms ks fs
            ∙ rw (others keyboard_ids CompactEvent.mouse_trajectory ts (λ x. refl)) (
                rw (scroll_events-others keyboard_ids f engine events (λ x. refl)) (
                  rw (focus_events-others keyboard_ids f engine events (λ x. refl))
                    (append-nil _ ∙ keyboard_events-ids f engine events)));
        focuses =
            parts focus_ids ss ms ks fs
            ∙ rw (others focus_ids CompactEvent.mouse_trajectory ts (λ x. refl)) (
                rw (scroll_events-others focus_ids f engine events (λ x. refl)) (
                  rw (keyboard_events-others focus_ids f engine events (λ x. refl))
                    (focus_events-ids engine events)));
        bytes = add_sizes-total_size sizes engine.total_compact_events_bytes _ bound;
      }

  empty-Accounts :
      events ≡ []
      → engine.total_compact_events_bytes < 2 ^ 64
      → Accounts sizes engine events (engine, ([], []))
  unfolding flat_map Scroll.can_compress extract_scroll_events extract_keyboard_events sort_by
      focus_change_ids filter_map
  empty-Accounts e bound = rw e (record {
    raw = refl;
    mouse_settings = refl;
    scrolls = refl;
    keys = refl;
    focuses = refl;
    bytes = omega arith;
  })

  -- `compress_events` returns, where `epsilon` is not below 0.0, and hands back the raw events. Its
  -- compact events stand for every key event (in the order of their times) and every focus change,
  -- each once, and for every wheel event, each once and in order, if there is more than one. The
  -- bytes are those before and the sizes of the compact events, on 64 bits.
  pub compress_events-Accounts :
      f.lt engine.mouse_compressor.douglas_peucker_epsilon (f.as_f32 (pos 0)) ≡ false
      → engine.total_compact_events_bytes < 2 ^ 64
      → (r : CompressionEngine × (List RawEvent × List CompactEvent)) × (compress_events f sizes
            engine events
          ≡ some r)
        × Accounts sizes engine events r
  unfolding compress_events
  compress_events-Accounts positive bound = elim (Bool-cases (is_empty events)) [
    | inl none_there ↦
        rw none_there
          ((engine, ([], [])), refl, empty-Accounts (is_empty→nil events none_there) bound)
    | inr some_there ↦
        let (ts, e) = trajectory_events-some f engine events positive in
        rw some_there (rw e (_, refl, compact_batch-Accounts ts bound))
  ]
