-- ===== src/Pipeline/Envelope/Transitions.antt =====
-- The transitions that the envelope stage reports, against the state engine's.
use kronical.Prelude.{
  ℕ, ◌+◌, ◌≡◌, ◌≢◌, refl, Bool, true, false, Option, none, some, List, [], ◌∷◌, ◌++◌, arith, All,
}
use kronical.Prelude.Loops.{emit_each_rule_on}
use kronical.Events.DeriveHint
use kronical.Events.DeriveHint.{StateDeriver, state_hint, hint_of}
use kronical.Events.Engine
use kronical.Events.Engine.{DefaultStateEngine, StateTransition}
use kronical.Events.Engine.Runs.{IsConsistent, Moves, on_kind-IsConsistent, on_kind-Moves}
use kronical.Events.Model.{ActivityState, SignalKind, EventKind, EventPayload, EventEnvelope}
use kronical.Pipeline.{
  SnapshotUpdate, SnapshotMessage, Send, to_hints, to_storage, to_compression, to_snapshot,
}
use kronical.Pipeline.Envelope.{
  Progress, transition_reason, apply_focus_update, apply_state_update, on_hint_envelope, on_derived,
  on_signal_envelope, flush_transition, on_envelope, handle_envelopes,
}
use kronical.Snapshot.{Transition}
use kronical.Time.{DateTime}

abbrev pub consed : Option Transition → List Transition → List Transition
consed none ts = ts
consed (some t) ts = t ∷ ts

-- The transitions in the updates of a list of sends.
abbrev pub reported : List Send → List Transition
reported [] = []
reported (to_snapshot (SnapshotMessage.update u) ∷ sends) = consed u.transition (reported sends)
reported (_ ∷ sends) = reported sends

pub reported-append : (xs ys : List Send) → reported (xs ++ ys) ≡ reported xs ++ reported ys
reported-append [] ys = refl
reported-append (to_snapshot (SnapshotMessage.update u) ∷ xs) ys =
    ground (arith, reported-append xs ys)
reported-append (to_snapshot (SnapshotMessage.activity r) ∷ xs) ys = reported-append xs ys
reported-append (to_snapshot SnapshotMessage.publish ∷ xs) ys = reported-append xs ys
reported-append (to_snapshot SnapshotMessage.hints_complete ∷ xs) ys = reported-append xs ys
reported-append (to_snapshot SnapshotMessage.shutdown ∷ xs) ys = reported-append xs ys
reported-append (to_hints e ∷ xs) ys = reported-append xs ys
reported-append (to_storage c ∷ xs) ys = reported-append xs ys
reported-append (to_compression c ∷ xs) ys = reported-append xs ys

-- Each transition leaves the state that the one before it reached, for another one.
abbrev pub Links : ActivityState → List Transition → ActivityState → Type 0
Links s [] t = s ≡ t
Links s (tr ∷ trs) t = (tr.from ≡ s) × (tr.from ≢ tr.to) × Links tr.to trs t

pub Links-append :
    (s t u : ActivityState) (xs ys : List Transition)
    → Links s xs t
    → Links t ys u
    → Links s (xs ++ ys) u
Links-append s t u [] ys l m = rw l m
Links-append s t u (x ∷ xs) ys l m = (l.0, l.1, Links-append x.to t u xs ys l.2 m)

-- No transition waits in an update between two envelopes.
abbrev pub IsClear : SnapshotUpdate → Type 0
IsClear u = u.transition ≡ none

-- A payload that no adapter and no lock deriver builds.
abbrev pub is_state : EventPayload → Bool
is_state (EventPayload.state _ _) = true
is_state _ = false

on_plain_hint :
    (u : SnapshotUpdate) (env : EventEnvelope) (k : Option SignalKind)
    → IsClear u
    → is_state env.payload ≡ false
    → IsClear (on_hint_envelope u env k).0 × (reported (on_hint_envelope u env k).1 ≡ [])
unfolding on_hint_envelope
on_plain_hint u env k c p = ground arith

-- The transition that a state hint becomes.
abbrev pub stated : ℕ → DateTime → StateTransition → Option SignalKind → Transition
stated id now tr k = record {
  from = tr.from;
  to = tr.to;
  at = now;
  by_signal = transition_reason (state_hint id now tr) k;
  run_id = none;
}

pub on_state_hint :
    (u : SnapshotUpdate) (id : ℕ) (now : DateTime) (tr : StateTransition) (k : Option SignalKind)
    → IsClear u
    → let (u', sends) = on_hint_envelope u (state_hint id now tr) k in
      IsClear u' × (reported sends ≡ stated id now tr k ∷ [])
unfolding on_hint_envelope
on_state_hint u id now tr k c = ground arith

-- A run of the stage, or a part of it: it keeps the engine consistent and the update clear, and
-- reports the engine's way.
pub record Reports (p : Progress) (sends : List Send) (p' : Progress) : Type 0 where
  pub consistent : IsConsistent p'.0.engine
  pub clear : IsClear p'.1
  pub links : Links p.0.engine.current (reported sends) p'.0.engine.current

abbrev pub Keeps : Progress → List Send → Progress → Type 0
Keeps p sends p' = IsConsistent p.0.engine → IsClear p.1 → Reports p sends p'

Keeps-then :
    (p q r : Progress) (xs ys : List Send) → Keeps p xs q → Keeps q ys r → Keeps p (xs ++ ys) r
Keeps-then p q r xs ys f g = λ c e.
    let a = f c e in
    let b = g a.consistent a.clear in
    record {
      consistent = b.consistent;
      clear = b.clear;
      links = rw (reported-append xs ys) (
          Links-append p.0.engine.current q.0.engine.current r.0.engine.current (reported xs)
            (reported ys) a.links b.links);
    }

-- A derived hint reports the engine's move.
derived-Reports :
    (d : StateDeriver) (engine : DefaultStateEngine) (u : SnapshotUpdate) (id : ℕ) (now : DateTime)
    (k : SignalKind) (o : Option StateTransition)
    → IsConsistent engine
    → IsClear u
    → Moves d.engine.current o engine.current
    → let (u', sends) = on_derived (hint_of id now o) k u in
      Reports (d, u) sends (record { engine = engine }, u')
derived-Reports d engine u id now k none c e m = record { consistent = c; clear = e; links = m }
derived-Reports d engine u id now k (some tr) c e m =
    let h = on_state_hint u id now tr (some k) e in
    record { consistent = c; clear = h.0; links = rw h.1 m }

on_plain_signal :
    (u : SnapshotUpdate) (env : EventEnvelope) (k : SignalKind)
    → IsClear u
    → is_state env.payload ≡ false
    → let counted = record u { signals_delta = u.signals_delta + 1 } in
      let (u', sends) =
        flush_transition (apply_state_update (apply_focus_update counted env) env (some k)) in
      IsClear u' × (sends ≡ [])
unfolding flush_transition apply_state_update apply_focus_update
on_plain_signal u env k c p = ground arith

on_signal_envelope-Keeps :
    (d : StateDeriver) (u : SnapshotUpdate) (env : EventEnvelope) (k : SignalKind)
    → is_state env.payload ≡ false
    → env.kind ≡ EventKind.signal k
    → let (p', sends) = on_signal_envelope d u env k in Keeps (d, u) sends p'
unfolding on_signal_envelope DeriveHint.on_signal Engine.on_signal
on_signal_envelope-Keeps d u env k plain kind c e =
    let h = on_plain_signal u env k e plain in
    let counted = record u { signals_delta = u.signals_delta + 1 } in
    let u' =
      (flush_transition (apply_state_update (apply_focus_update counted env) env (some k))).0 in
    let (engine, tr) = Engine.on_signal d.engine env env.timestamp in
    let after =
      derived-Reports d engine u' env.id env.timestamp k tr
        (on_kind-IsConsistent env.kind d.engine env.timestamp c) h.0
        (on_kind-Moves env.kind d.engine env.timestamp c) in
    record { consistent = after.consistent; clear = after.clear; links = rw h.1 after.links }

on_envelope-Keeps :
    (k : EventKind) (p : Progress) (env : EventEnvelope)
    → is_state env.payload ≡ false
    → env.kind ≡ k
    → let (p', sends) = on_envelope k p env in Keeps p sends p'
unfolding on_envelope
on_envelope-Keeps (EventKind.hint _) (d, u) env plain kind c e =
    let h = on_plain_hint u env none e plain in
    record { consistent = c; clear = h.0; links = rw h.1 refl }
on_envelope-Keeps (EventKind.signal k) (d, u) env plain kind c e =
    on_signal_envelope-Keeps d u env k plain kind c e

abbrev pub IsPlain : EventEnvelope → Type 0
IsPlain env = is_state env.payload ≡ false

pub handle_envelopes-Keeps :
    (p : Progress) (envelopes : List EventEnvelope)
    → All IsPlain envelopes
    → Keeps p (handle_envelopes p envelopes).1 (handle_envelopes p envelopes).0
unfolding handle_envelopes
handle_envelopes-Keeps p envelopes h =
    emit_each_rule_on IsPlain (λ q env. on_envelope env.kind q env) Keeps
      (λ q c e. record { consistent = c; clear = e; links = refl }) Keeps-then
      (λ q env plain. on_envelope-Keeps env.kind q env plain refl) p envelopes h
