-- ===== src/Events/Engine/Runs.antt =====
-- The state engine over a whole run: every signal and tick that a caller makes, in order.
use kronical.Prelude.{◌≡◌, ◌≢◌, refl, true, false, Option, none, some, List, [], ◌∷◌, arith, All}
use kronical.Prelude.Int.{ℤ}
use kronical.Time.{DateTime}
use kronical.Events.Engine.{
  DefaultStateEngine, StateTransition, new, compute, on_kind, on_signal, on_tick,
}
use kronical.Events.Model.{ActivityState, SignalKind, EventKind, EventEnvelope}

pub data Input : Type 0 where
  signalled : EventEnvelope → DateTime → Input
  ticked : DateTime → Input

unfoldable pub step : DefaultStateEngine → Input → DefaultStateEngine × Option StateTransition
unfolding on_signal on_tick
step e (Input.signalled env now) = on_signal e env now
step e (Input.ticked now) = on_tick e now

abbrev pub emit : Option StateTransition → List StateTransition → List StateTransition
emit none trs = trs
emit (some tr) trs = tr ∷ trs

-- The engine at the end, and the transitions that it reported.
unfoldable pub run : DefaultStateEngine → List Input → DefaultStateEngine × List StateTransition
run e [] = (e, [])
run e (i ∷ is) = let (e', out) = step e i in let (last, trs) = run e' is in (last, emit out trs)

-- The flag and the state agree on being locked.
pub record IsConsistent (e : DefaultStateEngine) : Type 0 where
  pub locked_state : e.locked ≡ true → e.current ≡ ActivityState.locked
  pub state_locked : e.current ≡ ActivityState.locked → e.locked ≡ true

-- Each transition leaves the state that the one before it reached, for another one.
abbrev pub Chain : ActivityState → List StateTransition → ActivityState → Type 0
Chain s [] t = s ≡ t
Chain s (tr ∷ trs) t = (tr.from ≡ s) × (tr.from ≢ tr.to) × Chain tr.to trs t

pub new-IsConsistent : (now : DateTime) (grace idle : ℤ) → IsConsistent (new now grace idle)
unfolding new
new-IsConsistent now grace idle = ground arith

-- An unlocked engine never computes the locked state.
compute_unlocked :
    (e : DefaultStateEngine) (now : DateTime)
    → e.locked ≡ false
    → compute e now ≢ ActivityState.locked
unfolding compute
compute_unlocked e now h = ground arith

pub on_kind-IsConsistent :
    (k : EventKind) (e : DefaultStateEngine) (now : DateTime)
    → IsConsistent e
    → IsConsistent (on_kind k e now).0
unfolding on_kind
on_kind-IsConsistent (EventKind.signal SignalKind.lock_start) e now c = ground arith
on_kind-IsConsistent (EventKind.signal SignalKind.lock_end) e now c =
    ground (arith, compute_unlocked (record e { locked = false }) now)
on_kind-IsConsistent (EventKind.signal _) e now c =
    ground (arith, compute_unlocked (record e { last_signal_time = now }) now)
on_kind-IsConsistent (EventKind.hint _) e now c = c

pub on_tick-IsConsistent :
    (e : DefaultStateEngine) (now : DateTime) → IsConsistent e → IsConsistent (on_tick e now).0
unfolding on_tick
on_tick-IsConsistent e now c = ground (arith, compute_unlocked e now)

pub step-IsConsistent :
    (e : DefaultStateEngine) (i : Input) → IsConsistent e → IsConsistent (step e i).0
unfolding step
step-IsConsistent e (Input.signalled env now) c = on_kind-IsConsistent env.kind e now c
step-IsConsistent e (Input.ticked now) c = on_tick-IsConsistent e now c

run-IsConsistent :
    (e : DefaultStateEngine) (is : List Input) → IsConsistent e → IsConsistent (run e is).0
unfolding run
run-IsConsistent e [] c = c
run-IsConsistent e (i ∷ is) c = run-IsConsistent (step e i).0 is (step-IsConsistent e i c)

-- After any inputs, a new engine is locked exactly when its state is `locked`.
pub run-new-IsConsistent :
    (now : DateTime) (grace idle : ℤ) (is : List Input)
    → IsConsistent (run (new now grace idle) is).0
run-new-IsConsistent now grace idle is =
    run-IsConsistent (new now grace idle) is (new-IsConsistent now grace idle)

-- What one call reports: nothing and the state stays, or a move to another state.
abbrev pub Moves : ActivityState → Option StateTransition → ActivityState → Type 0
Moves s out t = Chain s (emit out []) t

pub on_kind-Moves :
    (k : EventKind) (e : DefaultStateEngine) (now : DateTime)
    → IsConsistent e
    → Moves e.current (on_kind k e now).1 (on_kind k e now).0.current
unfolding on_kind
on_kind-Moves (EventKind.signal SignalKind.lock_start) e now c = ground arith
on_kind-Moves (EventKind.signal SignalKind.lock_end) e now c =
    ground (arith, compute_unlocked (record e { locked = false }) now)
on_kind-Moves (EventKind.signal _) e now c = ground arith
on_kind-Moves (EventKind.hint _) e now c = refl

pub on_tick-Moves :
    (e : DefaultStateEngine) (now : DateTime)
    → IsConsistent e
    → Moves e.current (on_tick e now).1 (on_tick e now).0.current
unfolding on_tick
on_tick-Moves e now c = ground arith

step-Moves :
    (e : DefaultStateEngine) (i : Input)
    → IsConsistent e
    → Moves e.current (step e i).1 (step e i).0.current
unfolding step
step-Moves e (Input.signalled env now) c = on_kind-Moves env.kind e now c
step-Moves e (Input.ticked now) c = on_tick-Moves e now c

Chain-emit :
    (s t u : ActivityState) (out : Option StateTransition) (trs : List StateTransition)
    → Moves s out t
    → Chain t trs u
    → Chain s (emit out trs) u
Chain-emit s t u none trs m c = rw m c
Chain-emit s t u (some tr) trs m c = (m.0, m.1, rw m.2 c)

-- From a consistent engine, the transitions of a run lead from its state, each on from the one
-- before and to another state, to the state at the end.
pub run-Chain :
    (e : DefaultStateEngine) (is : List Input)
    → IsConsistent e
    → Chain e.current (run e is).1 (run e is).0.current
unfolding run
run-Chain e [] c = refl
run-Chain e (i ∷ is) c =
    Chain-emit _ (step e i).0.current _ (step e i).1 (run (step e i).0 is).1 (step-Moves e i c)
      (run-Chain (step e i).0 is (step-IsConsistent e i c))

-- An input that can unlock.
abbrev pub Unlocks : Input → Type 0
Unlocks (Input.signalled env now) = env.kind ≡ EventKind.signal SignalKind.lock_end
Unlocks (Input.ticked now) = ⊥

on_kind_locked :
    (k : EventKind) (e : DefaultStateEngine) (now : DateTime)
    → e.locked ≡ true
    → k ≢ EventKind.signal SignalKind.lock_end
    → on_kind k e now ≡ (e, none)
unfolding on_kind
on_kind_locked (EventKind.signal SignalKind.lock_end) e now l h = absurd (h refl)
on_kind_locked (EventKind.signal _) e now l h = ground arith
on_kind_locked (EventKind.hint _) e now l h = refl

step_locked :
    (e : DefaultStateEngine) (i : Input) → e.locked ≡ true → ¬ Unlocks i → step e i ≡ (e, none)
unfolding step on_tick
step_locked e (Input.signalled env now) l h = on_kind_locked env.kind e now l h
step_locked e (Input.ticked now) l h = ground arith

-- A locked engine stays as it is, and reports nothing, until a `LockEnd`: no key, click, focus
-- change or time alone unlocks it.
pub run_locked :
    (e : DefaultStateEngine) (is : List Input)
    → e.locked ≡ true
    → All (λ i. ¬ Unlocks i) is
    → run e is ≡ (e, [])
unfolding run
run_locked e [] l h = refl
run_locked e (i ∷ is) l h = rw (step_locked e i l h.0) (rw (run_locked e is l h.1))
