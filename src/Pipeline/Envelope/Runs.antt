-- ===== src/Pipeline/Envelope/Runs.antt =====
-- The envelope stage over a whole run: its transitions from the start of the daemon on.
use kronical.Prelude.{
  ℕ, ◌≡◌, refl, Bool, true, false, Option, none, some, List, [], ◌∷◌, ◌++◌, arith, All, is_empty,
  if◌then◌else◌, All-append,
}
use kronical.Prelude.Int.{as_i64}
use kronical.Prelude.Loops.{emit_each}
use kronical.Events.{RawEvent}
use kronical.Events.Adapter
use kronical.Events.DeriveSignal
use kronical.Events.DeriveSignal.{LockDeriver}
use kronical.Events.DeriveHint
use kronical.Events.DeriveHint.{StateDeriver, state_hint, hint_of}
use kronical.Events.Engine
use kronical.Events.Engine.{DefaultStateEngine, StateTransition}
use kronical.Events.Engine.Runs.{
  IsConsistent, Moves, on_tick-IsConsistent, on_tick-Moves, new-IsConsistent,
}
use kronical.Events.Model.{ActivityState, EventKind, EventEnvelope}
use kronical.Pipeline.{
  RawBatch, DeriveCommand, CompressionCommand, SnapshotUpdate, no_update, SnapshotMessage, Send,
  to_compression, to_snapshot,
}
use kronical.Pipeline.Envelope.{
  Stage, start, on_hint_envelope, flush_snapshot_update, handle_envelopes, tick_sends,
  process_batch, process_tick, handle, run,
}
use kronical.Time.{DateTime, timestamp_millis}
use kronical.Pipeline.Envelope.Transitions.{
  reported, reported-append, Links, Links-append, IsClear, IsPlain, on_state_hint,
  handle_envelopes-Keeps,
}

adapt_event-IsPlain :
    (a : Adapter.EventAdapter) (raw : RawEvent) → All IsPlain (Adapter.adapt_event a raw).1
unfolding Adapter.adapt_event
adapt_event-IsPlain a raw = ground arith

adapt_batch-IsPlain :
    (a : Adapter.EventAdapter) (raw : List RawEvent) → All IsPlain (Adapter.adapt_batch a raw).1
unfolding Adapter.adapt_batch emit_each
adapt_batch-IsPlain a [] = tt
adapt_batch-IsPlain a (e ∷ raw) =
    All-append IsPlain (Adapter.adapt_event a e).1 _ (adapt_event-IsPlain a e)
      (adapt_batch-IsPlain (Adapter.adapt_event a e).0 raw)

derive_kind-IsPlain :
    (k : EventKind) (locked : Bool) (env : EventEnvelope)
    → IsPlain env
    → All IsPlain (DeriveSignal.derive_kind k locked env).1
unfolding DeriveSignal.derive_kind
derive_kind-IsPlain k locked env h = ground arith

derive-IsPlain :
    (d : LockDeriver) (input : List EventEnvelope)
    → All IsPlain input
    → All IsPlain (DeriveSignal.derive d input).1
unfolding DeriveSignal.derive DeriveSignal.derive_event emit_each
derive-IsPlain d [] h = tt
derive-IsPlain d (e ∷ input) h =
    let (locked, out) = DeriveSignal.derive_kind e.kind d.locked e in
    All-append IsPlain out _ (derive_kind-IsPlain e.kind d.locked e h.0)
      (derive-IsPlain (record { locked = locked }) input h.1)

-- The end of a command: what is left in the update holds no transition.
flush_clear :
    (u : SnapshotUpdate)
    → IsClear u
    → reported ((flush_snapshot_update u).1 ++ (to_snapshot SnapshotMessage.publish ∷ [])) ≡ []
unfolding flush_snapshot_update
flush_clear u c = ground arith

pub record Tracks (s : Stage) (sends : List Send) (s' : Stage) : Type 0 where
  pub consistent : IsConsistent s'.state_deriver.engine
  pub links : Links s.state_deriver.engine.current (reported sends) s'.state_deriver.engine.current

process_batch-Tracks :
    (s : Stage) (b : RawBatch)
    → IsConsistent s.state_deriver.engine
    → Tracks s (process_batch s b).1 (process_batch s b).0
unfolding process_batch
process_batch-Tracks s b c =
    let envelopes =
      (DeriveSignal.derive s.lock_deriver (Adapter.adapt_batch s.adapter b.events).1).1 in
    let plain =
      derive-IsPlain s.lock_deriver (Adapter.adapt_batch s.adapter b.events).1
        (adapt_batch-IsPlain s.adapter b.events) in
    let (q, sent) = handle_envelopes (s.state_deriver, no_update) envelopes in
    let kept = handle_envelopes-Keeps (s.state_deriver, no_update) envelopes plain c refl in
    let rest =
      to_compression (CompressionCommand.process b envelopes)
      ∷ ((flush_snapshot_update q.1).1 ++ (to_snapshot SnapshotMessage.publish ∷ [])) in
    record {
      consistent = kept.consistent;
      links = rw (reported-append sent rest) (
          rw (flush_clear q.1 kept.clear) (
            Links-append s.state_deriver.engine.current q.0.engine.current _ (reported sent) []
              kept.links refl));
    }

tick_sends-reported :
    (d : StateDeriver) (engine : DefaultStateEngine) (id : ℕ) (now : DateTime)
    (o : Option StateTransition)
    → Moves d.engine.current o engine.current
    → Links d.engine.current (reported (tick_sends (hint_of id now o))) engine.current
tick_sends-reported d engine id now none m = m
tick_sends-reported d engine id now (some tr) m =
    let (u, sent) = on_hint_envelope no_update (state_hint id now tr) none in
    let h = on_state_hint no_update id now tr none refl in
    rw
      (reported-append sent
        ((flush_snapshot_update u).1 ++ (to_snapshot SnapshotMessage.publish ∷ [])))
      (rw (h.1, flush_clear u h.0) m)

process_tick-Tracks :
    (s : Stage) (now : DateTime)
    → IsConsistent s.state_deriver.engine
    → Tracks s (process_tick s now).1 (process_tick s now).0
unfolding process_tick DeriveHint.on_tick
process_tick-Tracks s now c =
    let (engine, tr) = Engine.on_tick s.state_deriver.engine now in
    record {
      consistent = on_tick-IsConsistent s.state_deriver.engine now c;
      links =
          tick_sends-reported s.state_deriver engine (timestamp_millis now) now tr
            (on_tick-Moves s.state_deriver.engine now c);
    }

handle-Tracks :
    (s : Stage) (c : DeriveCommand)
    → IsConsistent s.state_deriver.engine
    → Tracks s (handle s c).0.1 (handle s c).0.0
unfolding handle
handle-Tracks s (DeriveCommand.batch b) c =
    elim (is_empty b.events)
      as (λ e. let (s', sends) = if e then (s, []) else process_batch s b in Tracks s sends s') [
        | true ↦ record { consistent = c; links = refl }
        | false ↦ process_batch-Tracks s b c
      ]
handle-Tracks s (DeriveCommand.tick now) c = process_tick-Tracks s now c
handle-Tracks s DeriveCommand.shutdown c = record { consistent = c; links = refl }

run-Tracks :
    (s : Stage) (cs : List DeriveCommand)
    → IsConsistent s.state_deriver.engine
    → Tracks s (run s cs).1 (run s cs).0
unfolding run
run-Tracks s [] c = record { consistent = c; links = refl }
run-Tracks s (k ∷ cs) c =
    let ((s', sends), go) = handle s k in
    let h = handle-Tracks s k c in
    let t = run-Tracks s' cs h.consistent in
    let (last, rest) = run s' cs in
    let onward : Tracks s (sends ++ rest) last = record {
      consistent = t.consistent;
      links = rw (reported-append sends rest) (
          Links-append s.state_deriver.engine.current s'.state_deriver.engine.current
            last.state_deriver.engine.current (reported sends) (reported rest) h.links t.links);
    } in
    elim go
      as (λ b.
        let (z, all) = if◌then◌else◌ {A = Stage × List Send} b (last, sends ++ rest) (s', sends) in
        Tracks s all z) [ true ↦ onward | false ↦ h ]

-- From the start of the daemon, over any batches and ticks: the transitions in the updates lead
-- from `Inactive`, each on from the one before and to another state, to the state that the engine
-- is in at the end.
pub run-Links :
    (now : DateTime) (grace idle : ℕ) (cs : List DeriveCommand)
    → let (s, sends) = run (start now grace idle) cs in
      Links ActivityState.inactive (reported sends) s.state_deriver.engine.current
unfolding start DeriveHint.new Engine.new
run-Links now grace idle cs =
    (run-Tracks (start now grace idle) cs (new-IsConsistent now (as_i64 grace) (as_i64 idle))).links
