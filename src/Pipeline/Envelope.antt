-- ===== src/Pipeline/Envelope.antt =====
-- The envelope stage (src/daemon/pipeline/envelope.rs): raw batches and ticks become envelopes, and
-- go to the other stages. A command's sends are a list, in the order of the code: what is sent does
-- not depend on whether an earlier send succeeded, except that the stage stops at the first failed
-- send to the compression or the snapshot stage (`deliver`).
pub mod Counts
pub mod Transitions
pub mod Runs
pub mod Agreement
pub mod Totals
pub mod Delivery
use kronical.Prelude.{
  ℕ, ◌+◌, String, Bool, true, false, Option, none, some, List, [], ◌∷◌, ◌++◌, is_none, is_empty,
  if◌then◌else◌,
}
use kronical.Prelude.Int.{as_i64}
use kronical.Prelude.Loops.{emit_each}
use kronical.Events.Adapter
use kronical.Events.DeriveHint
use kronical.Events.DeriveHint.{StateDeriver}
use kronical.Events.DeriveSignal
use kronical.Events.Model.{
  ActivityState, EventSource, SignalKind, HintKind, EventKind, EventPayload, EventEnvelope,
}
use kronical.Pipeline.{
  RawBatch, DeriveCommand, CompressionCommand, StorageCommand, SnapshotUpdate, no_update,
  update_is_empty, SnapshotMessage, Send, to_hints, to_storage, to_compression, to_snapshot,
}
use kronical.Snapshot.{Transition}
use kronical.Time.{DateTime}

pub record Stage : Type 0 where
  pub adapter : Adapter.EventAdapter
  pub lock_deriver : DeriveSignal.LockDeriver
  pub state_deriver : StateDeriver

-- The stage at its start: the thresholds are `u64`, and cast to `i64`.
unfoldable pub start : DateTime → ℕ → ℕ → Stage
start now active_grace_secs idle_threshold_secs = record {
  adapter = Adapter.new;
  lock_deriver = DeriveSignal.new;
  state_deriver = DeriveHint.new now (as_i64 active_grace_secs) (as_i64 idle_threshold_secs);
}

abbrev with_focus : EventPayload → SnapshotUpdate → SnapshotUpdate
with_focus (EventPayload.focus f) u = record u { focus = some f }
with_focus (EventPayload.title window_id title) u = record u {
  focus_title = some (window_id, title);
}
with_focus _ u = u

unfoldable pub apply_focus_update : SnapshotUpdate → EventEnvelope → SnapshotUpdate
apply_focus_update u env = with_focus env.payload u

-- `format!("{kind:?}")`.
abbrev pub debug_name : SignalKind → String
debug_name SignalKind.keyboard_input = "KeyboardInput"
debug_name SignalKind.mouse_input = "MouseInput"
debug_name SignalKind.app_changed = "AppChanged"
debug_name SignalKind.window_changed = "WindowChanged"
debug_name SignalKind.activity_pulse = "ActivityPulse"
debug_name SignalKind.lock_start = "LockStart"
debug_name SignalKind.lock_end = "LockEnd"

abbrev timeout_reason : EventKind → EventSource → Option String
timeout_reason (EventKind.hint HintKind.state_changed) EventSource.derived = some "IdleTimeout"
timeout_reason _ _ = none

abbrev reason_of : EventEnvelope → Option SignalKind → Option String
reason_of env none = timeout_reason env.kind env.source
reason_of env (some kind) = some (debug_name kind)

unfoldable pub transition_reason : EventEnvelope → Option SignalKind → Option String
transition_reason env signal_kind = reason_of env signal_kind

abbrev with_state :
    EventPayload → EventEnvelope → Option SignalKind → SnapshotUpdate → SnapshotUpdate
with_state (EventPayload.state from to) env signal_kind u = record u {
  transition = some (record {
    from = from;
    to = to;
    at = env.timestamp;
    by_signal = transition_reason env signal_kind;
    run_id = none;
  });
  state = some to;
}
with_state _ env signal_kind u = u

-- Also `apply_state_update_signal`, which always has a signal.
unfoldable pub apply_state_update :
    SnapshotUpdate → EventEnvelope → Option SignalKind → SnapshotUpdate
apply_state_update u env signal_kind = with_state env.payload env signal_kind u

unfoldable pub flush_snapshot_update : SnapshotUpdate → SnapshotUpdate × List Send
flush_snapshot_update u =
    if update_is_empty u then (u, []) else (no_update, to_snapshot (SnapshotMessage.update u) ∷ [])

-- `update.transition.is_some() && !flush_snapshot_update(...)`.
unfoldable pub flush_transition : SnapshotUpdate → SnapshotUpdate × List Send
unfolding flush_snapshot_update
flush_transition u = if is_none u.transition then (u, []) else flush_snapshot_update u

-- A hint, with the signal that caused it: the same lines for one from the adapter, one that a
-- signal derives, and one that a tick derives.
unfoldable pub on_hint_envelope :
    SnapshotUpdate → EventEnvelope → Option SignalKind → SnapshotUpdate × List Send
unfolding apply_focus_update apply_state_update flush_transition
on_hint_envelope u env signal_kind =
    let counted = record u { hints_delta = u.hints_delta + 1 } in
    let u' = apply_state_update (apply_focus_update counted env) env signal_kind in
    let (u'', flushed) = flush_transition u' in (u'', to_hints env ∷ flushed)

abbrev pub Progress : Type 0
Progress = StateDeriver × SnapshotUpdate

abbrev on_derived : Option EventEnvelope → SignalKind → SnapshotUpdate → SnapshotUpdate × List Send
on_derived none kind u = (u, [])
on_derived (some derived) kind u = on_hint_envelope u derived (some kind)

unfoldable pub on_signal_envelope :
    StateDeriver → SnapshotUpdate → EventEnvelope → SignalKind → Progress × List Send
unfolding apply_focus_update apply_state_update flush_transition on_hint_envelope
on_signal_envelope d u env kind =
    let counted = record u { signals_delta = u.signals_delta + 1 } in
    let u' = apply_state_update (apply_focus_update counted env) env (some kind) in
    let (u'', flushed) = flush_transition u' in
    let (d', derived) = DeriveHint.on_signal d env in
    let (u''', sent) = on_derived derived kind u'' in
    ((d', u'''), to_storage (StorageCommand.envelope env) ∷ (flushed ++ sent))

-- The body of the loop over the envelopes, on the kind.
unfoldable pub on_envelope : EventKind → Progress → EventEnvelope → Progress × List Send
unfolding on_hint_envelope on_signal_envelope
on_envelope (EventKind.hint _) (d, u) env =
    let (u', sent) = on_hint_envelope u env none in ((d, u'), sent)
on_envelope (EventKind.signal kind) (d, u) env = on_signal_envelope d u env kind

unfoldable pub handle_envelopes : Progress → List EventEnvelope → Progress × List Send
unfolding emit_each
handle_envelopes p envelopes = emit_each (λ q env. on_envelope env.kind q env) p envelopes

-- A batch that is not empty.
unfoldable pub process_batch : Stage → RawBatch → Stage × List Send
unfolding flush_snapshot_update
process_batch s b =
    let (adapter, envelopes) = Adapter.adapt_batch s.adapter b.events in
    let (lock_deriver, envelopes_with_lock) = DeriveSignal.derive s.lock_deriver envelopes in
    let ((state_deriver, u), sent) =
      handle_envelopes (s.state_deriver, no_update) envelopes_with_lock in
    (
      record { adapter = adapter; lock_deriver = lock_deriver; state_deriver = state_deriver },
      sent
          ++ (to_compression (CompressionCommand.process b envelopes_with_lock)
              ∷ ((flush_snapshot_update u).1 ++ (to_snapshot SnapshotMessage.publish ∷ []))),
    )

abbrev tick_sends : Option EventEnvelope → List Send
tick_sends none = []
tick_sends (some state_hint) =
    let (u, sent) = on_hint_envelope no_update state_hint none in
    sent ++ ((flush_snapshot_update u).1 ++ (to_snapshot SnapshotMessage.publish ∷ []))

unfoldable pub process_tick : Stage → DateTime → Stage × List Send
unfolding on_hint_envelope flush_snapshot_update
process_tick s now =
    let (state_deriver, derived) = DeriveHint.on_tick s.state_deriver now in
    (record s { state_deriver = state_deriver }, tick_sends derived)

-- One command: the stage after it, its sends, and whether the loop goes on.
unfoldable pub handle : Stage → DeriveCommand → (Stage × List Send) × Bool
unfolding process_batch process_tick
handle s (DeriveCommand.batch b) = (if is_empty b.events then (s, []) else process_batch s b, true)
handle s (DeriveCommand.tick now) = (process_tick s now, true)
handle s DeriveCommand.shutdown = (
  (s, to_snapshot SnapshotMessage.shutdown ∷ to_compression CompressionCommand.shutdown ∷ []),
  false,
)

-- All that the stage sends for a list of commands, up to a shutdown, and the stage then.
unfoldable pub run : Stage → List DeriveCommand → Stage × List Send
run s [] = (s, [])
run s (c ∷ cs) =
    let ((s', sends), go) = handle s c in
    let (last, rest) = run s' cs in if go then (last, sends ++ rest) else (s', sends)
