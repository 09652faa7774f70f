-- ===== src/Monitor/Segments.antt =====
-- Where the stays at the login window start and end (src/bin/kronictl.rs, `find_sleep_period_with_window`).
use kronical.Prelude.{
  ◌≡◌, false, ◌&&◌, ◌⊎◌, inl, inr, Option, none, some, List, [], ◌∷◌, All, All-append, reverse-All,
  ltb, if_elim,
}
use mathlib.Core.List.{foldl}
use kronical.Prelude.Int.{pos, leb_ℤ}
use kronical.Prelude.Loops.{emit_each}
use kronical.Prelude.Sort.{sort_by-All}
use kronical.Records.{ActivityRecord}
use kronical.Time.{DateTime, since, num_seconds}
use kronical.Monitor.Sleep.{
  Period, is_loginwindow, rec_end, extended, finished, see_record, segments_of, merge_segment,
  merge_segments,
}

-- The start and the end of segments: predicates that hold of the starts and the ends of the records
-- at the login window.
module _ (S E : DateTime → Type 0) (now : DateTime) where
  abbrev pub Spans : Period → Type 0
  Spans segment = S segment.0 × E segment.1

  abbrev pub SpansOption : Option Period → Type 0
  SpansOption none = Unit
  SpansOption (some segment) = Spans segment

  abbrev pub AtLogin : ActivityRecord → Type 0
  AtLogin r = (is_loginwindow r ≡ false) ⊎ (S r.start_time × E (rec_end now r))

  extended-Spans :
      (current : Option Period) (start last : DateTime)
      → SpansOption current
      → S start × E last
      → Spans (extended current start last)
  extended-Spans none start last h r = r
  extended-Spans (some (s, e)) start last h r =
      (h.0, if_elim E (ltb e last) last e (λ _. r.1) λ _. h.1)

  finished-Spans : (current : Option Period) → SpansOption current → All Spans (finished current)
  finished-Spans none h = tt
  finished-Spans (some segment) h = (h, tt)

  see_record-Spans :
      (current : Option Period) (r : ActivityRecord)
      → SpansOption current
      → AtLogin r
      → SpansOption (see_record now current r).0 × All Spans (see_record now current r).1
  unfolding see_record
  see_record-Spans current r h (inl other) = rw other (tt, finished-Spans current h)
  see_record-Spans current r h (inr ends) =
      if_elim (λ (x : Option Period × List Period). SpansOption x.0 × All Spans x.1)
        (is_loginwindow r) _ _
        (λ _. (extended-Spans current r.start_time (rec_end now r) h ends, tt))
        λ _. (tt, finished-Spans current h)

  each_record-Spans :
      (current : Option Period) (records : List ActivityRecord)
      → SpansOption current
      → All AtLogin records
      → SpansOption (emit_each (see_record now) current records).0
        × All Spans (emit_each (see_record now) current records).1
  unfolding emit_each
  each_record-Spans current [] h all = (h, tt)
  each_record-Spans current (r ∷ records) h all =
      let (next, out) = see_record-Spans current r h all.0 in
      let (last, rest) = each_record-Spans (see_record now current r).0 records next all.1 in
      (last, All-append Spans (see_record now current r).1 _ out rest)

  merge_segment-Spans :
      (merged : List Period) (s : Period)
      → All Spans merged
      → Spans s
      → All Spans (merge_segment merged s)
  unfolding merge_segment
  merge_segment-Spans [] s h k = (k, tt)
  merge_segment-Spans (last ∷ merged) (start, finish) h k =
      if_elim (All Spans)
        (leb_ℤ (pos 0) (num_seconds (since start last.1))
          && leb_ℤ (num_seconds (since start last.1)) (pos 3600))
        _ _ (λ _. ((h.0.0, if_elim E (ltb last.1 finish) finish last.1 (λ _. k.1) λ _. h.0.1), h.1))
        λ _. (k, h)

  merge_all-Spans :
      (merged segments : List Period)
      → All Spans merged
      → All Spans segments
      → All Spans (foldl merge_segment merged segments)
  merge_all-Spans merged [] h k = h
  merge_all-Spans merged (s ∷ segments) h k =
      merge_all-Spans (merge_segment merged s) segments (merge_segment-Spans merged s h k.0) k.1

  pub merged-Spans :
      (records : List ActivityRecord)
      → All AtLogin records
      → All Spans (merge_segments (segments_of now records))
  unfolding merge_segments segments_of
  merged-Spans records h =
      let (last, all) = each_record-Spans none records tt h in
      let segments = segments_of now records in
      reverse-All Spans _ (
        merge_all-Spans [] _ tt
          (sort_by-All _ Spans _ (All-append Spans _ _ all (finished-Spans _ last))))
