-- ===== src/Records/Order.antt =====
-- The records of a whole run in time.
use kronical.Prelude.{◌≤◌, ◌≡◌, ap, sym, ◌∙◌, Option, none, some, List, [], ◌∷◌, arith}
use kronical.Events.Model.{EventKind, EventPayload, EventEnvelope}
use kronical.Records.{ActivityRecord, RecordBuilder, Readings, apply_hint, on_hint, finalize_all}
use kronical.Time.{DateTime}
use kronical.Records.Builder.{Hint, emit, records}

abbrev ended_of : Option DateTime → DateTime
ended_of none = 0
ended_of (some t) = t

abbrev pub ended_at : ActivityRecord → DateTime
ended_at r = ended_of r.end_time

-- The clock never runs backwards over the hints, from `t` to the end.
abbrev pub IsMonotone : DateTime → List Hint → DateTime → Type 0
IsMonotone t [] end = t ≤ end
IsMonotone t ((env, now) ∷ hints) end =
    (t ≤ now.ended) × (now.ended ≤ now.started) × IsMonotone now.started hints end

-- Completed, in the order of time, none before `t`: each ends no earlier than it starts, and the
-- next starts no earlier than it ends.
abbrev pub InOrder : DateTime → List ActivityRecord → Type 0
InOrder t [] = Unit
InOrder t (r ∷ rs) =
    (t ≤ r.start_time)
    × (r.end_time ≡ some (ended_at r))
    × (r.start_time ≤ ended_at r)
    × InOrder (ended_at r) rs

-- The open record, if any, started between `lo` and `t`.
abbrev StartsIn : DateTime → DateTime → Option ActivityRecord → Type 0
StartsIn lo t none = lo ≤ t
StartsIn lo t (some r) = (lo ≤ r.start_time) × (r.start_time ≤ t)

abbrev Advances : DateTime → Readings → Option ActivityRecord → Option ActivityRecord → Type 0
Advances lo now none open' = StartsIn lo now.started open'
Advances lo now (some r) open' =
    (lo ≤ r.start_time)
    × (r.end_time ≡ some now.ended)
    × (r.start_time ≤ now.ended)
    × StartsIn now.ended now.started open'

apply_hint-Advances :
    (k : EventKind) (p : EventPayload) (b : RecordBuilder) (now : Readings) (lo t : DateTime)
    → StartsIn lo t b.current_record
    → t ≤ now.ended
    → now.ended ≤ now.started
    → Advances lo now (apply_hint k p b now).1 (apply_hint k p b now).0.current_record
unfolding apply_hint
apply_hint-Advances k p b now lo t s h g = ground arith

finalize_all-InOrder :
    (b : RecordBuilder) (lo t end : DateTime)
    → StartsIn lo t b.current_record
    → t ≤ end
    → InOrder lo (emit (finalize_all b end).1 [])
unfolding finalize_all
finalize_all-InOrder b lo t end s h = ground arith

module _ (env : EventEnvelope) (now : Readings) (lo : DateTime) (rs : List ActivityRecord) where
  InOrder-emit :
      (o open' : Option ActivityRecord)
      → Advances lo now o open'
      → ((lo' : DateTime) → StartsIn lo' now.started open' → InOrder lo' rs)
      → InOrder lo (emit o rs)
  InOrder-emit none open' a rest = rest lo a
  InOrder-emit (some r) open' a rest =
      let e : ended_at r ≡ now.ended = ap ended_of a.1 in
      (a.0, a.1 ∙ ap some (sym e), omega (arith, e, a.2), rw e (rest now.ended a.3))

-- With a clock that never runs backwards over the hints, and an open record, if any, that started
-- before them, the records of a run are all completed, and follow one another in time without
-- overlapping.
pub records-InOrder :
    (b : RecordBuilder) (hints : List Hint) (end lo t : DateTime)
    → StartsIn lo t b.current_record
    → IsMonotone t hints end
    → InOrder lo (records b hints end)
unfolding records on_hint
records-InOrder b [] end lo t s m = finalize_all-InOrder b lo t end s m
records-InOrder b ((env, now) ∷ hints) end lo t s m =
    let (b', completed) = on_hint b env now in
    InOrder-emit env now lo (records b' hints end) completed b'.current_record
      (apply_hint-Advances env.kind env.payload b now lo t s m.0 m.1)
      (λ lo' s'. records-InOrder b' hints end lo' now.started s' m.2)
