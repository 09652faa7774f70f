-- ===== src/Compressors/Keyboard/Bursts.antt =====
-- The bursts of `KeyboardActivityCompressor` as chunks of the key events in the order of their times.
use mathlib.Core.List.{flat_map, map, map-append, append-nil, Perm}
use mathlib.Core.List.Perm
use kronical.Prelude.{◌≡◌, refl, ap, ◌∙◌, ℕ, Bool, true, false, List, [], ◌∷◌, ◌++◌}
use kronical.Prelude.Chunks.{
  chunk_by, IsChunk, last_of, last_of_end, emit_each-chunk_by, flat_map-chunk_by,
}
use kronical.Prelude.Int.{leb_ℤ}
use kronical.Prelude.Sort.{sort_by_key, ascending, sort_by-perm}
use kronical.Compression.{CompactKeyboardActivity, ids_of}
use kronical.Compressors.{Floats}
use kronical.Compressors.Keyboard.{
  KeyboardActivityCompressor, Key, Group, extract_keyboard_events, flush, on_key, group_keys,
  timestamp_of, compress,
}
use kronical.Events.{RawEvent}
use kronical.Time.{since, num_milliseconds}

-- A key belongs to the burst of the key before it if it came within the gap.
abbrev pub joins : KeyboardActivityCompressor → Key → Key → Bool
joins c (_, before) (_, ts) = leb_ℤ (num_milliseconds (since ts before)) c.max_gap_ms

abbrev pub id_of : Key → ℕ
id_of (id, ts) = id

-- A chunk's ids, with the times of its first and its last key.
abbrev pub group_of : Key → List Key → Group
group_of k ks = record {
  group_ids = map id_of (k ∷ ks);
  group_start = timestamp_of k;
  group_end = timestamp_of (last_of k ks);
}

abbrev pub activity : Floats → List Key → List CompactKeyboardActivity
activity f [] = []
activity f (k ∷ ks) = flush f (group_of k ks) ∷ []

module _ (f : Floats) (c : KeyboardActivityCompressor) where
  stays :
      (k : Key) (ks : List Key) (y : Key)
      → joins c (last_of k ks) y ≡ true
      → on_key f c (group_of k ks) y ≡ (group_of k (ks ++ y ∷ []), [])
  unfolding on_key
  stays k ks y same = rw same (simp (last_of_end, map-append))

  cuts :
      (k : Key) (ks : List Key) (y : Key)
      → joins c (last_of k ks) y ≡ false
      → on_key f c (group_of k ks) y ≡ (group_of y [], activity f (k ∷ ks))
  unfolding on_key
  cuts k ks y other = rw other refl

  group_keys-chunks :
      (keys : List Key) → group_keys f c keys ≡ flat_map (activity f) (chunk_by (joins c) keys)
  unfolding chunk_by flat_map
  group_keys-chunks [] = refl
  group_keys-chunks (k ∷ keys) =
      emit_each-chunk_by (joins c) (on_key f c) (λ g. flush f g ∷ []) (activity f) group_of stays
        cuts (λ e es. refl) k keys

  -- The activities are one for each chunk of the key events, sorted by their times and cut where
  -- the next key comes after the gap.
  pub bursts-chunks :
      (events : List RawEvent)
      → compress f c events
        ≡ flat_map
            (activity f)
            (chunk_by (joins c) (sort_by_key timestamp_of (extract_keyboard_events events)))
  unfolding compress
  bursts-chunks events =
      group_keys-chunks (sort_by_key timestamp_of (extract_keyboard_events events))

abbrev pub activity_ids : CompactKeyboardActivity → List ℕ
activity_ids a = ids_of a.raw_event_ids

activity-ids :
    (f : Floats) (c : KeyboardActivityCompressor) (ks : List Key)
    → IsChunk (joins c) ks
    → flat_map activity_ids (activity f ks) ≡ map id_of ks
unfolding flat_map flush
activity-ids f c [] h = refl
activity-ids f c (k ∷ ks) h = append-nil _

-- Every key event is in exactly one activity: their ids, in a row, are those of the key events in
-- the order of their times.
pub compress-ids :
    (f : Floats) (c : KeyboardActivityCompressor) (events : List RawEvent)
    → flat_map activity_ids (compress f c events)
      ≡ map id_of (sort_by_key timestamp_of (extract_keyboard_events events))
compress-ids f c events =
    ap (flat_map activity_ids) (bursts-chunks f c events)
    ∙ flat_map-chunk_by (joins c) (activity f) activity_ids id_of (activity-ids f c)
        (sort_by_key timestamp_of (extract_keyboard_events events))

-- The ids of the activities are a reordering of those of the key events: none is lost or repeated.
pub compress-perm :
    (f : Floats) (c : KeyboardActivityCompressor) (events : List RawEvent)
    → Perm
        (flat_map activity_ids (compress f c events))
        (map id_of (extract_keyboard_events events))
compress-perm f c events =
    rw (compress-ids f c events)
      (Perm.map id_of (sort_by-perm (ascending timestamp_of) (extract_keyboard_events events)))
