-- ===== src/Compressors/Scroll/Sequences.antt =====
-- The sequences of `ScrollCompressor` against a description of them as chunks of the wheel events.
use mathlib.Core.List.{foldl, foldl-append, flat_map, map, map-append, append-nil}
use kronical.Prelude.{
  ℕ, suc, ◌+◌, ◌%◌, ◌^◌, ◌≡◌, refl, ap, ◌∙◌, Bool, true, false, ◌&&◌, some, List, [], ◌∷◌, ◌++◌,
  length, length-append, arith, is_empty, if◌then◌else◌,
}
use kronical.Prelude.Chunks.{
  chunk_by, IsChunk, last_of, last_of_end, emit_each-chunk_by, flat_map-chunk_by,
}
use kronical.Prelude.Int.{ℤ, ltb_ℤ, add_i32}
use kronical.Compression.{
  CompactScrollSequence, ScrollDirection, pointer, default_raw_event_table, ids_of,
}
use kronical.Compressors.Scroll.{
  ScrollCompressor, ScrollEvent, direction_of, same_direction, extended, on_scroll, pushed,
  all_sequences, compress, extract_scroll_events,
}
use kronical.Events.{RawEvent}
use kronical.Prelude.Loops.{emit_each}
use kronical.Time.{since, num_milliseconds}

-- Two wheel events in a row belong together: one direction, and less than the gap between them.
abbrev pub joins : ScrollCompressor → ScrollEvent → ScrollEvent → Bool
joins c a b =
    same_direction (direction_of a) (direction_of b)
    && ltb_ℤ (num_milliseconds (since b.timestamp a.timestamp)) c.max_gap_ms

-- The sum of a field, in `i32`.
abbrev sum_i32 : (ScrollEvent → ℤ) → ScrollEvent → List ScrollEvent → ℤ
sum_i32 f e es = foldl (λ n (x : ScrollEvent). add_i32 n (f x)) (f e) es

-- What a chunk of wheel events is recorded as.
abbrev pub sequence_of : ScrollEvent → List ScrollEvent → CompactScrollSequence
sequence_of e es = record {
  start_time = e.timestamp;
  end_time = (last_of e es).timestamp;
  direction = direction_of (last_of e es);
  total_amount = sum_i32 (λ x. x.signed_amount) e es;
  total_rotation = sum_i32 (λ x. x.rotation) e es;
  scroll_count = suc (length es) % 2 ^ 32;
  position = e.position;
  raw_event_ids = pointer default_raw_event_table (map (λ (x : ScrollEvent). x.event_id) (e ∷ es));
}

abbrev pub summary : List ScrollEvent → List CompactScrollSequence
summary [] = []
summary (e ∷ es) = sequence_of e es ∷ []

same_direction-eq : (a b : ScrollDirection) → same_direction a b ≡ true → a ≡ b
same_direction-eq a b h = ground arith

-- One more event in the sequence of a chunk.
extended-sequence_of :
    (e : ScrollEvent) (es : List ScrollEvent) (y : ScrollEvent)
    → same_direction (direction_of (last_of e es)) (direction_of y) ≡ true
    → extended (sequence_of e es) y ≡ sequence_of e (es ++ y ∷ [])
extended-sequence_of e es y same =
    let count : (suc (length es) % 2 ^ 32 + 1) % 2 ^ 32 ≡ suc (length (es ++ y ∷ [])) % 2 ^ 32 =
      omega (arith, length-append es (y ∷ [])) in
    let way = same_direction-eq _ _ same in simp (count, last_of_end, foldl-append, map-append, way)

stays :
    (c : ScrollCompressor) (e : ScrollEvent) (es : List ScrollEvent) (y : ScrollEvent)
    → joins c (last_of e es) y ≡ true
    → on_scroll c (some (sequence_of e es)) y ≡ (some (sequence_of e (es ++ y ∷ [])), [])
unfolding on_scroll
stays c e es y same = rw same (ap (λ q. (some q, [])) (extended-sequence_of e es y (ground arith)))

cuts :
    (c : ScrollCompressor) (e : ScrollEvent) (es : List ScrollEvent) (y : ScrollEvent)
    → joins c (last_of e es) y ≡ false
    → on_scroll c (some (sequence_of e es)) y ≡ (some (sequence_of y []), summary (e ∷ es))
unfolding on_scroll
cuts c e es y other = rw other refl

sequences-chunks :
    (c : ScrollCompressor) (es : List ScrollEvent)
    → (if is_empty es then [] else all_sequences c es) ≡ flat_map summary (chunk_by (joins c) es)
unfolding chunk_by flat_map emit_each on_scroll
sequences-chunks c [] = refl
sequences-chunks c (e ∷ es) =
    emit_each-chunk_by (joins c) (on_scroll c) pushed summary (λ e es. some (sequence_of e es))
      (stays c) (cuts c) (λ e es. refl) e es

-- What `compress` returns is a summary of each chunk of the wheel events, cut where the direction
-- changes or the gap is reached.
pub compress-chunk_by :
    (c : ScrollCompressor) (events : List RawEvent)
    → compress c events ≡ flat_map summary (chunk_by (joins c) (extract_scroll_events events))
unfolding compress
compress-chunk_by c events = sequences-chunks c (extract_scroll_events events)

abbrev pub sequence_ids : CompactScrollSequence → List ℕ
sequence_ids seq = ids_of seq.raw_event_ids

summary_ids :
    (c : ScrollCompressor) (es : List ScrollEvent)
    → IsChunk (joins c) es
    → flat_map sequence_ids (summary es) ≡ map (λ (x : ScrollEvent). x.event_id) es
unfolding flat_map
summary_ids c [] h = refl
summary_ids c (e ∷ es) h = append-nil _

-- The ids of the sequences are those of all wheel events, each once and in their order.
pub compress-ids :
    (c : ScrollCompressor) (events : List RawEvent)
    → flat_map sequence_ids (compress c events)
      ≡ map (λ (x : ScrollEvent). x.event_id) (extract_scroll_events events)
compress-ids c events =
    ap (flat_map sequence_ids) (compress-chunk_by c events)
    ∙ flat_map-chunk_by (joins c) summary sequence_ids (λ (x : ScrollEvent). x.event_id)
        (summary_ids c) (extract_scroll_events events)
