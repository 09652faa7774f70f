-- ===== src/Pipeline/Envelope/Agreement.antt =====
-- What the envelope stage reports as the state, against the transitions that it reports.
use kronical.Prelude.{
  ◌+◌, ◌≡◌, refl, Option, none, some, List, [], ◌∷◌, ◌++◌, arith, All, All-append, if_elim,
  is_empty,
}
use kronical.Prelude.Loops.{emit_each_rule}
use kronical.Events.Adapter
use kronical.Events.DeriveSignal
use kronical.Events.DeriveHint
use kronical.Events.DeriveHint.{StateDeriver}
use kronical.Events.Model.{ActivityState, SignalKind, EventKind, EventEnvelope}
use kronical.Pipeline.{
  DeriveCommand, RawBatch, SnapshotUpdate, no_update, SnapshotMessage, Send, to_snapshot, to_hints,
  to_storage, to_compression,
}
use kronical.Pipeline.Envelope.{
  Stage, Progress, on_hint_envelope, on_derived, on_signal_envelope, on_envelope, handle_envelopes,
  apply_focus_update, apply_state_update, flush_transition, flush_snapshot_update, tick_sends,
  process_batch, process_tick, handle, run,
}
use kronical.Pipeline.Envelope.Transitions.{Links, reported, consed}
use kronical.Snapshot.{Transition}

abbrev to_of : Option Transition → Option ActivityState
to_of none = none
to_of (some t) = some t.to

-- The state of an update is the one that its transition leads to, if it has one.
abbrev pub Agrees : SnapshotUpdate → Type 0
Agrees u = u.state ≡ to_of u.transition

abbrev pub SendAgrees : Send → Type 0
SendAgrees (to_snapshot (SnapshotMessage.update u)) = Agrees u
SendAgrees _ = Unit

abbrev Agree : Progress → List Send → Progress → Type 0
Agree p sends p' = Agrees p.1 → All SendAgrees sends × Agrees p'.1

Agree-then :
    (p q r : Progress) (xs ys : List Send) → Agree p xs q → Agree q ys r → Agree p (xs ++ ys) r
Agree-then p q r xs ys f g =
    λ h. let (a, h') = f h in let (b, h'') = g h' in (All-append SendAgrees xs ys a b, h'')

flush-Agrees :
    (u : SnapshotUpdate)
    → Agrees u
    → All SendAgrees (flush_snapshot_update u).1 × Agrees (flush_snapshot_update u).0
unfolding flush_snapshot_update
flush-Agrees u h = ground arith

noted-Agrees :
    (u : SnapshotUpdate) (env : EventEnvelope) (k : Option SignalKind)
    → Agrees u
    → let (u', sends) = flush_transition (apply_state_update (apply_focus_update u env) env k) in
      All SendAgrees sends × Agrees u'
unfolding flush_transition apply_state_update apply_focus_update
noted-Agrees u env k h = ground arith

on_hint_envelope-Agrees :
    (u : SnapshotUpdate) (env : EventEnvelope) (k : Option SignalKind)
    → Agrees u
    → All SendAgrees (on_hint_envelope u env k).1 × Agrees (on_hint_envelope u env k).0
unfolding on_hint_envelope
on_hint_envelope-Agrees u env k h =
    let counted = record u { hints_delta = u.hints_delta + 1 } in
    let (a, b) = noted-Agrees counted env k h in ((tt, a), b)

on_derived-Agrees :
    (o : Option EventEnvelope) (k : SignalKind) (u : SnapshotUpdate)
    → Agrees u
    → All SendAgrees (on_derived o k u).1 × Agrees (on_derived o k u).0
on_derived-Agrees none k u h = (tt, h)
on_derived-Agrees (some env) k u h = on_hint_envelope-Agrees u env (some k) h

on_envelope-Agree :
    (k : EventKind) (p : Progress) (env : EventEnvelope)
    → Agree p (on_envelope k p env).1 (on_envelope k p env).0
unfolding on_envelope on_signal_envelope
on_envelope-Agree (EventKind.hint _) (d, u) env h = on_hint_envelope-Agrees u env none h
on_envelope-Agree (EventKind.signal k) (d, u) env h =
    let counted = record u { signals_delta = u.signals_delta + 1 } in
    let (u', flushed) =
      flush_transition (apply_state_update (apply_focus_update counted env) env (some k)) in
    let (a, b) = noted-Agrees counted env (some k) h in
    let derived = (DeriveHint.on_signal d env).1 in
    let (c, e) = on_derived-Agrees derived k u' b in
    ((tt, All-append SendAgrees flushed (on_derived derived k u').1 a c), e)

handle_envelopes-Agree :
    (p : Progress) (envelopes : List EventEnvelope)
    → Agree p (handle_envelopes p envelopes).1 (handle_envelopes p envelopes).0
unfolding handle_envelopes
handle_envelopes-Agree p envelopes =
    emit_each_rule (λ q env. on_envelope env.kind q env) Agree (λ q h. (tt, h)) Agree-then
      (λ q env. on_envelope-Agree env.kind q env) p envelopes

published-Agree :
    (u : SnapshotUpdate)
    → Agrees u
    → All SendAgrees ((flush_snapshot_update u).1 ++ (to_snapshot SnapshotMessage.publish ∷ []))
published-Agree u h =
    All-append SendAgrees (flush_snapshot_update u).1 _ (flush-Agrees u h).0 (tt, tt)

process_batch-Agree : (s : Stage) (b : RawBatch) → All SendAgrees (process_batch s b).1
unfolding process_batch
process_batch-Agree s b =
    let envelopes =
      (DeriveSignal.derive s.lock_deriver (Adapter.adapt_batch s.adapter b.events).1).1 in
    let (a, h) = handle_envelopes-Agree (s.state_deriver, no_update) envelopes refl in
    All-append SendAgrees (handle_envelopes (s.state_deriver, no_update) envelopes).1 _ a
      (tt, published-Agree (handle_envelopes (s.state_deriver, no_update) envelopes).0.1 h)

tick_sends-Agree : (o : Option EventEnvelope) → All SendAgrees (tick_sends o)
tick_sends-Agree none = tt
tick_sends-Agree (some env) =
    let (a, b) = on_hint_envelope-Agrees no_update env none refl in
    All-append SendAgrees (on_hint_envelope no_update env none).1 _ a
      (published-Agree (on_hint_envelope no_update env none).0 b)

handle-Agree : (s : Stage) (c : DeriveCommand) → All SendAgrees (handle s c).0.1
unfolding handle process_tick
handle-Agree s (DeriveCommand.batch b) =
    if_elim {A = Stage × List Send} (λ r. All SendAgrees r.1) (is_empty b.events) (s, [])
      (process_batch s b) (λ e. tt) (λ e. process_batch-Agree s b)
handle-Agree s (DeriveCommand.tick now) = tick_sends-Agree _
handle-Agree s DeriveCommand.shutdown = (tt, (tt, tt))

pub run-Agree : (s : Stage) (cs : List DeriveCommand) → All SendAgrees (run s cs).1
unfolding run
run-Agree s [] = tt
run-Agree s (c ∷ cs) =
    let ((s', sends), go) = handle s c in
    let (last, rest) = run s' cs in
    if_elim {A = Stage × List Send} (λ r. All SendAgrees r.1) go (last, sends ++ rest) (s', sends)
      (λ e. All-append SendAgrees sends rest (handle-Agree s c) (run-Agree s' cs))
      (λ e. handle-Agree s c)

-- The updates among a list of sends.
abbrev pub updates_of : List Send → List SnapshotUpdate
updates_of [] = []
updates_of (to_snapshot (SnapshotMessage.update u) ∷ sends) = u ∷ updates_of sends
updates_of (_ ∷ sends) = updates_of sends

-- The state of a reader that takes every state that an update has.
abbrev pub state_of : Option ActivityState → ActivityState → ActivityState
state_of none old = old
state_of (some state) old = state

abbrev pub follow_states : ActivityState → List SnapshotUpdate → ActivityState
follow_states s [] = s
follow_states s (u ∷ us) = follow_states (state_of u.state s) us

follow_update :
    (s t : ActivityState) (u : SnapshotUpdate) (rest : List Transition)
    → Agrees u
    → Links s (consed u.transition rest) t
    → Links (state_of u.state s) rest t
follow_update s t u rest a l = ground arith

-- Such a reader ends in the state that the transitions lead to.
pub follow-Links :
    (s t : ActivityState) (sends : List Send)
    → All SendAgrees sends
    → Links s (reported sends) t
    → follow_states s (updates_of sends) ≡ t
follow-Links s t [] a l = l
follow-Links s t (to_snapshot (SnapshotMessage.update u) ∷ sends) a l =
    follow-Links (state_of u.state s) t sends a.1 (follow_update s t u (reported sends) a.0 l)
follow-Links s t (to_snapshot (SnapshotMessage.activity r) ∷ sends) a l =
    follow-Links s t sends a.1 l
follow-Links s t (to_snapshot SnapshotMessage.publish ∷ sends) a l = follow-Links s t sends a.1 l
follow-Links s t (to_snapshot SnapshotMessage.hints_complete ∷ sends) a l =
    follow-Links s t sends a.1 l
follow-Links s t (to_snapshot SnapshotMessage.shutdown ∷ sends) a l = follow-Links s t sends a.1 l
follow-Links s t (to_hints e ∷ sends) a l = follow-Links s t sends a.1 l
follow-Links s t (to_storage c ∷ sends) a l = follow-Links s t sends a.1 l
follow-Links s t (to_compression c ∷ sends) a l = follow-Links s t sends a.1 l
