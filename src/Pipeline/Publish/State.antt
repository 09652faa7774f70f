-- ===== src/Pipeline/Publish/State.antt =====
-- The snapshot stage behind the envelope stage: what it shows is what the engine and the counts are.
use kronical.Prelude.{
  ℕ, ◌+◌, ◌≤◌, ◌≡◌, ◌≢◌, refl, ap, sym, ◌∙◌, false, List, [], ◌∷◌, ◌++◌, arith, All,
}
use kronical.Events.Model.{ActivityState}
use kronical.Pipeline.{
  DeriveCommand, SnapshotUpdate, SnapshotMessage, Send, to_snapshot, to_hints, to_storage,
  to_compression,
}
use kronical.Pipeline.Envelope.{Stage, run, start}
use kronical.Pipeline.Envelope.Agreement.{
  updates_of, follow_states, state_of, run-Agree, follow-Links,
}
use kronical.Pipeline.Envelope.Counts.{hint_of, signal_of, hints_delta_of, signals_delta_of, total}
use kronical.Pipeline.Envelope.Runs.{run-Links}
use kronical.Pipeline.Envelope.Totals.{run-Balanced}
use kronical.Pipeline.Publish.{
  SnapshotStage, StageConfig, AppTree, Moment, apply_update, update_records, publish_snapshot,
  maybe_finalize, on_message, receive,
}
use kronical.Time.{DateTime}

-- The updates among the messages received.
abbrev pub received : List (SnapshotMessage × Moment) → List SnapshotUpdate
received [] = []
received ((SnapshotMessage.update u, at) ∷ ms) = u ∷ received ms
received (_ ∷ ms) = received ms

-- The hints stage has not ended: it does so after the envelope stage, whose sender it waits for.
abbrev pub IsEarly : SnapshotMessage × Moment → Type 0
IsEarly (m, at) = m ≢ SnapshotMessage.hints_complete

abbrev pub sum : (SnapshotUpdate → ℕ) → List SnapshotUpdate → ℕ
sum f [] = 0
sum f (u ∷ us) = f u + sum f us

abbrev pub u64_max : ℕ
u64_max = 0xffff_ffff_ffff_ffff

-- What a reader of the updates makes of the stage's state and counts.
record Follows (s : SnapshotStage) (us : List SnapshotUpdate) (s' : SnapshotStage) : Type 0 where
  state : s'.current_state ≡ follow_states s.current_state us
  hints :
      s.counts.hints_seen + sum (λ u. u.hints_delta) us ≤ u64_max
      → s'.counts.hints_seen ≡ s.counts.hints_seen + sum (λ u. u.hints_delta) us
  signals :
      s.counts.signals_seen + sum (λ u. u.signals_delta) us ≤ u64_max
      → s'.counts.signals_seen ≡ s.counts.signals_seen + sum (λ u. u.signals_delta) us
  open' : s'.hints_complete ≡ false

follow_states-append :
    (s : ActivityState) (us vs : List SnapshotUpdate)
    → follow_states s (us ++ vs) ≡ follow_states (follow_states s us) vs
follow_states-append s [] vs = refl
follow_states-append s (u ∷ us) vs = follow_states-append (state_of u.state s) us vs

sum-append :
    (f : SnapshotUpdate → ℕ) (us vs : List SnapshotUpdate) → sum f (us ++ vs) ≡ sum f us + sum f vs
sum-append f [] vs = omega arith
sum-append f (u ∷ us) vs = omega (arith, sum-append f us vs)

abbrev hints_of : SnapshotUpdate → ℕ
hints_of u = u.hints_delta

abbrev signals_of : SnapshotUpdate → ℕ
signals_of u = u.signals_delta

Follows-then :
    (s t w : SnapshotStage) (us vs : List SnapshotUpdate)
    → Follows s us t
    → Follows t vs w
    → Follows s (us ++ vs) w
Follows-then s t w us vs f g = record {
  state =
      g.state
      ∙ (ap (λ x. follow_states x vs) f.state ∙ sym (follow_states-append s.current_state us vs));
  hints = λ h. omega (arith, sum-append hints_of us vs, f.hints, g.hints, h);
  signals = λ h. omega (arith, sum-append signals_of us vs, f.signals, g.signals, h);
  open' = g.open';
}

received-cons :
    (m : SnapshotMessage × Moment) (ms : List (SnapshotMessage × Moment))
    → received (m ∷ ms) ≡ received (m ∷ []) ++ received ms
received-cons (SnapshotMessage.update u, at) ms = refl
received-cons (SnapshotMessage.activity r, at) ms = refl
received-cons (SnapshotMessage.publish, at) ms = refl
received-cons (SnapshotMessage.hints_complete, at) ms = refl
received-cons (SnapshotMessage.shutdown, at) ms = refl

nothing-Follows : (s : SnapshotStage) → s.hints_complete ≡ false → Follows s [] s
nothing-Follows s h = record {
  state = refl;
  hints = λ l. omega arith;
  signals = λ l. omega arith;
  open' = h;
}

module _ (cfg : StageConfig) (app_tree : AppTree) where
  apply_update-Follows :
      (s : SnapshotStage) (u : SnapshotUpdate)
      → s.hints_complete ≡ false
      → Follows s (u ∷ []) (apply_update s u).0
  unfolding apply_update
  apply_update-Follows s u h = ground arith

  on_message-Follows :
      (s : SnapshotStage) (m : SnapshotMessage) (at : Moment)
      → s.hints_complete ≡ false
      → m ≢ SnapshotMessage.hints_complete
      → let ((s', sent), ended) = on_message cfg app_tree s m at in
        Follows s (received ((m, at) ∷ [])) s' × (ended ≡ false)
  unfolding on_message update_records publish_snapshot maybe_finalize
  on_message-Follows s (SnapshotMessage.update u) at h n = (apply_update-Follows s u h, refl)
  on_message-Follows s (SnapshotMessage.activity r) at h n =
      let k = nothing-Follows s h in
      (record { state = k.state; hints = k.hints; signals = k.signals; open' = h }, refl)
  on_message-Follows s SnapshotMessage.publish at h n =
      let k = nothing-Follows s h in
      (record { state = k.state; hints = k.hints; signals = k.signals; open' = h }, refl)
  on_message-Follows s SnapshotMessage.hints_complete at h n = absurd (n refl)
  on_message-Follows s SnapshotMessage.shutdown at h n =
      let k = nothing-Follows s h in
      rw h (record { state = k.state; hints = k.hints; signals = k.signals; open' = refl }, refl)

  receive-Follows :
      (s : SnapshotStage) (ms : List (SnapshotMessage × Moment))
      → s.hints_complete ≡ false
      → All IsEarly ms
      → Follows s (received ms) (receive cfg app_tree s ms).0.0
  unfolding receive
  receive-Follows s [] h e = nothing-Follows s h
  receive-Follows s ((m, at) ∷ ms) h e =
      let ((s', sent), ended) = on_message cfg app_tree s m at in
      let (f, goes_on) = on_message-Follows s m at h e.0 in
      let ((last, rest), over) = receive cfg app_tree s' ms in
      rw goes_on (
        rw (received-cons (m, at) ms) (
          Follows-then s s' last (received ((m, at) ∷ [])) (received ms) f
            (receive-Follows s' ms f.open' e.1)))

  sum-updates_of :
      (sends : List Send)
      → (sum hints_of (updates_of sends) ≡ total hints_delta_of sends)
        × (sum signals_of (updates_of sends) ≡ total signals_delta_of sends)
  sum-updates_of [] = (refl, refl)
  sum-updates_of (to_snapshot (SnapshotMessage.update u) ∷ sends) =
      omega (arith, sum-updates_of sends)
  sum-updates_of (to_snapshot (SnapshotMessage.activity r) ∷ sends) =
      omega (arith, sum-updates_of sends)
  sum-updates_of (to_snapshot SnapshotMessage.publish ∷ sends) = omega (arith, sum-updates_of sends)
  sum-updates_of (to_snapshot SnapshotMessage.hints_complete ∷ sends) =
      omega (arith, sum-updates_of sends)
  sum-updates_of (to_snapshot SnapshotMessage.shutdown ∷ sends) =
      omega (arith, sum-updates_of sends)
  sum-updates_of (to_hints e ∷ sends) = omega (arith, sum-updates_of sends)
  sum-updates_of (to_storage c ∷ sends) = omega (arith, sum-updates_of sends)
  sum-updates_of (to_compression c ∷ sends) = omega (arith, sum-updates_of sends)

  -- A snapshot stage that starts inactive, before the hints stage has ended, and that received
  -- just the updates that the envelope stage sent in a run from its start, among any records and
  -- requests to publish, shows the state that the envelope stage's engine is in.
  pub receive-engine_state :
      (now : DateTime) (grace idle : ℕ) (cs : List DeriveCommand)
      → (s : SnapshotStage) (ms : List (SnapshotMessage × Moment))
      → s.current_state ≡ ActivityState.inactive
      → s.hints_complete ≡ false
      → All IsEarly ms
      → received ms ≡ updates_of (run (start now grace idle) cs).1
      → (receive cfg app_tree s ms).0.0.current_state
        ≡ (run (start now grace idle) cs).0.state_deriver.engine.current
  receive-engine_state now grace idle cs s ms i h e same =
      let (stage, sends) = run (start now grace idle) cs in
      let f = receive-Follows s ms h e in
      f.state
      ∙ (rw (same, i)
          (follow-Links ActivityState.inactive stage.state_deriver.engine.current sends
            (run-Agree (start now grace idle) cs) (run-Links now grace idle cs)))

  -- A snapshot stage that received just the updates that the envelope stage sent in a run, before
  -- the hints stage has ended, has counted, beside what it had counted before, every hint sent to
  -- the hints stage and every signal sent to storage, where the sums fit in 64 bits.
  pub receive_counts :
      (stage : Stage) (cs : List DeriveCommand)
      → (s : SnapshotStage) (ms : List (SnapshotMessage × Moment)) → s.hints_complete ≡ false
      → All IsEarly ms
      → received ms ≡ updates_of (run stage cs).1
      → s.counts.hints_seen + total hint_of (run stage cs).1 ≤ u64_max
      → s.counts.signals_seen + total signal_of (run stage cs).1 ≤ u64_max
      → let counts = (receive cfg app_tree s ms).0.0.counts in
        (counts.hints_seen ≡ s.counts.hints_seen + total hint_of (run stage cs).1)
        × (counts.signals_seen ≡ s.counts.signals_seen + total signal_of (run stage cs).1)
  receive_counts stage cs s ms h e same small small' =
      let sends = (run stage cs).1 in
      let f = receive-Follows s ms h e in
      let b = run-Balanced stage cs in
      let u = sum-updates_of sends in
      let sums : (sum hints_of (received ms) ≡ total hint_of sends)
          × (sum signals_of (received ms) ≡ total signal_of sends) =
        rw same (u.0 ∙ b.0, u.1 ∙ b.1) in
      (omega (arith, f.hints, sums), omega (arith, f.signals, sums))
