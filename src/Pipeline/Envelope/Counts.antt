-- ===== src/Pipeline/Envelope/Counts.antt =====
-- What the envelope stage reports to the snapshot stage, against what it hands to the others.
use kronical.Prelude.{
  ℕ, ◌+◌, ◌≡◌, refl, true, false, Option, none, some, List, [], ◌∷◌, ◌++◌, arith, Bool-cases,
  is_none, inl, inr, if◌then◌else◌,
}
use kronical.Prelude.Loops.{emit_each_rule}
use kronical.Events.Adapter
use kronical.Events.DeriveSignal
use kronical.Events.DeriveHint
use kronical.Events.DeriveHint.{StateDeriver}
use kronical.Events.Model.{SignalKind, EventKind, EventEnvelope}
use kronical.Pipeline.{
  RawBatch, StorageCommand, CompressionCommand, SnapshotUpdate, no_update, update_is_empty,
  SnapshotMessage, Send, to_hints, to_storage, to_compression, to_snapshot,
}
use kronical.Pipeline.Envelope.{
  Stage, Progress, apply_focus_update, apply_state_update, on_hint_envelope, on_derived,
  on_signal_envelope, flush_snapshot_update, flush_transition, on_envelope, handle_envelopes,
  tick_sends, process_batch, process_tick,
}
use kronical.Time.{DateTime}

-- Of one send: the hint envelopes, the signal envelopes, and the counts in an update.
abbrev pub hint_of : Send → ℕ
hint_of (to_hints _) = 1
hint_of _ = 0

abbrev pub signal_of : Send → ℕ
signal_of (to_storage (StorageCommand.envelope _)) = 1
signal_of _ = 0

abbrev pub hints_delta_of : Send → ℕ
hints_delta_of (to_snapshot (SnapshotMessage.update u)) = u.hints_delta
hints_delta_of _ = 0

abbrev pub signals_delta_of : Send → ℕ
signals_delta_of (to_snapshot (SnapshotMessage.update u)) = u.signals_delta
signals_delta_of _ = 0

abbrev pub total : (Send → ℕ) → List Send → ℕ
total f [] = 0
total f (m ∷ sends) = f m + total f sends

pub total-append : (f : Send → ℕ) (xs ys : List Send) → total f (xs ++ ys) ≡ total f xs + total f ys
total-append f [] ys = omega arith
total-append f (m ∷ xs) ys = omega (arith, total-append f xs ys)

-- What was counted so far is what was handed on, or waits in the update.
record Accounts (u : SnapshotUpdate) (sends : List Send) (u' : SnapshotUpdate) : Type 0 where
  hints : total hints_delta_of sends + u'.hints_delta ≡ u.hints_delta + total hint_of sends
  signals :
      total signals_delta_of sends + u'.signals_delta ≡ u.signals_delta + total signal_of sends

Accounts-refl : (u : SnapshotUpdate) → Accounts u [] u
Accounts-refl u = omega arith

Accounts-then :
    (u v w : SnapshotUpdate) (xs ys : List Send)
    → Accounts u xs v
    → Accounts v ys w
    → Accounts u (xs ++ ys) w
Accounts-then u v w xs ys a b = omega (
  arith,
  total-append hint_of xs ys,
  total-append signal_of xs ys,
  total-append hints_delta_of xs ys,
  total-append signals_delta_of xs ys,
)

flush_snapshot_update-Accounts :
    (u : SnapshotUpdate) → Accounts u (flush_snapshot_update u).1 (flush_snapshot_update u).0
unfolding flush_snapshot_update
flush_snapshot_update-Accounts u = elim (Bool-cases (update_is_empty u)) [
  | inl e ↦ rw e (omega arith)
  | inr e ↦ rw e (omega arith)
]

flush_transition-Accounts :
    (u : SnapshotUpdate) → Accounts u (flush_transition u).1 (flush_transition u).0
unfolding flush_transition
flush_transition-Accounts u =
    elim (is_none u.transition)
      as (λ b.
        let (u', sends) = if b then (u, []) else flush_snapshot_update u in Accounts u sends u') [
          | true ↦ Accounts-refl u
          | false ↦ flush_snapshot_update-Accounts u
        ]

-- The two fields that count are not touched by the focus and the state.
record SameCounts (u u' : SnapshotUpdate) : Type 0 where
  same_hints : u'.hints_delta ≡ u.hints_delta
  same_signals : u'.signals_delta ≡ u.signals_delta

noted : SnapshotUpdate → EventEnvelope → Option SignalKind → SnapshotUpdate
noted u env signal_kind = apply_state_update (apply_focus_update u env) env signal_kind

noted-SameCounts :
    (u : SnapshotUpdate) (env : EventEnvelope) (k : Option SignalKind)
    → SameCounts u (noted u env k)
unfolding noted apply_state_update apply_focus_update
noted-SameCounts u env k = ground arith

on_hint_envelope-Accounts :
    (u : SnapshotUpdate) (env : EventEnvelope) (k : Option SignalKind)
    → Accounts u (on_hint_envelope u env k).1 (on_hint_envelope u env k).0
unfolding on_hint_envelope noted
on_hint_envelope-Accounts u env k =
    let counted = record u { hints_delta = u.hints_delta + 1 } in
    omega (arith, noted-SameCounts counted env k, flush_transition-Accounts (noted counted env k))

on_derived-Accounts :
    (o : Option EventEnvelope) (k : SignalKind) (u : SnapshotUpdate)
    → Accounts u (on_derived o k u).1 (on_derived o k u).0
on_derived-Accounts none k u = Accounts-refl u
on_derived-Accounts (some env) k u = on_hint_envelope-Accounts u env (some k)

on_signal_envelope-Accounts :
    (d : StateDeriver) (u : SnapshotUpdate) (env : EventEnvelope) (k : SignalKind)
    → let (p, sends) = on_signal_envelope d u env k in Accounts u sends p.1
unfolding on_signal_envelope noted
on_signal_envelope-Accounts d u env k =
    let counted = record u { signals_delta = u.signals_delta + 1 } in
    let flushed = flush_transition (noted counted env (some k)) in
    let derived = (DeriveHint.on_signal d env).1 in
    let sent = on_derived derived k flushed.0 in
    omega (
      arith,
      noted-SameCounts counted env (some k),
      flush_transition-Accounts (noted counted env (some k)),
      on_derived-Accounts derived k flushed.0,
      Accounts-then (noted counted env (some k)) flushed.0 sent.0 flushed.1 sent.1
          (flush_transition-Accounts (noted counted env (some k)))
          (on_derived-Accounts derived k flushed.0),
    )

on_envelope-Accounts :
    (k : EventKind) (p : Progress) (env : EventEnvelope)
    → Accounts p.1 (on_envelope k p env).1 (on_envelope k p env).0.1
unfolding on_envelope
on_envelope-Accounts (EventKind.hint _) (d, u) env = on_hint_envelope-Accounts u env none
on_envelope-Accounts (EventKind.signal k) (d, u) env = on_signal_envelope-Accounts d u env k

handle_envelopes-Accounts :
    (p : Progress) (envelopes : List EventEnvelope)
    → Accounts p.1 (handle_envelopes p envelopes).1 (handle_envelopes p envelopes).0.1
unfolding handle_envelopes
handle_envelopes-Accounts p envelopes =
    emit_each_rule (λ q env. on_envelope env.kind q env) (λ q sends q'. Accounts q.1 sends q'.1)
      (λ q. Accounts-refl q.1) (λ q r s. Accounts-then q.1 r.1 s.1)
      (λ q env. on_envelope-Accounts env.kind q env) p envelopes

-- An update that is flushed for good leaves nothing uncounted.
flushed_counts :
    (u : SnapshotUpdate)
    → ((flush_snapshot_update u).0.hints_delta ≡ 0)
      × ((flush_snapshot_update u).0.signals_delta ≡ 0)
unfolding flush_snapshot_update
flushed_counts u = ground arith

-- The sends after the loop: the job, what is left to report, and the request to publish.
publish-Accounts :
    (u : SnapshotUpdate)
    → let (u', sends) = flush_snapshot_update u in
      Accounts u (sends ++ (to_snapshot SnapshotMessage.publish ∷ [])) u'
publish-Accounts u =
    let (u', sends) = flush_snapshot_update u in
    Accounts-then u u' u' sends _ (flush_snapshot_update-Accounts u) (omega arith)

job-Accounts :
    (u u' : SnapshotUpdate) (job : CompressionCommand) (sends : List Send)
    → Accounts u sends u'
    → Accounts u (to_compression job ∷ sends) u'
job-Accounts u u' job sends a = omega arith

-- Over a batch, the hints and the signals that the updates report to the snapshot stage add up to
-- the hints sent to the hints stage and to the signals sent to storage.
pub process_batch_counts :
    (s : Stage) (b : RawBatch)
    → let sends = (process_batch s b).1 in
      (total hints_delta_of sends ≡ total hint_of sends)
      × (total signals_delta_of sends ≡ total signal_of sends)
unfolding process_batch
process_batch_counts s b =
    let envelopes =
      (DeriveSignal.derive s.lock_deriver (Adapter.adapt_batch s.adapter b.events).1).1 in
    let p : Progress = (s.state_deriver, no_update) in
    let (q, sent) = handle_envelopes p envelopes in
    let rest = (flush_snapshot_update q.1).1 ++ (to_snapshot SnapshotMessage.publish ∷ []) in
    let job = CompressionCommand.process b envelopes in
    let u' = (flush_snapshot_update q.1).0 in
    let whole : Accounts no_update (sent ++ (to_compression job ∷ rest)) u' =
      Accounts-then no_update q.1 u' sent (to_compression job ∷ rest)
        (handle_envelopes-Accounts p envelopes)
        (job-Accounts q.1 u' job rest (publish-Accounts q.1)) in
    (
      omega (arith, whole.hints, flushed_counts q.1),
      omega (arith, whole.signals, flushed_counts q.1),
    )

-- A tick reports its one hint, if there is one.
pub process_tick_counts :
    (s : Stage) (now : DateTime)
    → let sends = (process_tick s now).1 in
      (total hints_delta_of sends ≡ total hint_of sends)
      × (total signals_delta_of sends ≡ total signal_of sends)
unfolding process_tick
process_tick_counts s now = tick_counts (DeriveHint.on_tick s.state_deriver now).1
  where
    tick_counts :
        (o : Option EventEnvelope)
        → (total hints_delta_of (tick_sends o) ≡ total hint_of (tick_sends o))
          × (total signals_delta_of (tick_sends o) ≡ total signal_of (tick_sends o))
    tick_counts none = (refl, refl)
    tick_counts (some env) =
        let (u, sent) = on_hint_envelope no_update env none in
        let (u', rest) = flush_snapshot_update u in
        let whole =
          Accounts-then no_update u u' sent _ (on_hint_envelope-Accounts no_update env none)
            (publish-Accounts u) in
        (
          omega (arith, whole.hints, flushed_counts u),
          omega (arith, whole.signals, flushed_counts u),
        )
