-- ===== src/Examples/StateMachine.antt =====
-- The state engine at concrete inputs: a grace period of 30 seconds, idle after 300.
use kronical.Prelude.{◌≡◌, refl, true, false, List, [], ◌∷◌}
use kronical.Prelude.Int.{pos}
use kronical.Events.Engine.{DefaultStateEngine, new, compute}
use kronical.Events.Engine.Levels.{IsRunning}
use kronical.Events.Engine.Runs.{
  Input, step, IsConsistent, Chain, run, run-new-IsConsistent, run-Chain, run_locked,
  new-IsConsistent,
}
use kronical.Events.Model.{ActivityState, SignalKind}
use kronical.Examples.Data.{signal_at, secs}

abbrev fresh : DefaultStateEngine
fresh = record {
  current = ActivityState.inactive;
  last_signal_time = secs 10;
  active_grace_secs = pos 30;
  idle_threshold_secs = pos 300;
  locked = false;
}

abbrev working : DefaultStateEngine
working = record fresh { current = ActivityState.active }

abbrev away : DefaultStateEngine
away = record fresh { current = ActivityState.locked; locked = true }

abbrev morning : List Input
morning =
    Input.signalled (signal_at (secs 11) 1 SignalKind.keyboard_input) (secs 11)
    ∷ Input.ticked (secs 60)
    ∷ Input.signalled (signal_at (secs 70) 2 SignalKind.lock_start) (secs 70)
    ∷ Input.signalled (signal_at (secs 71) 3 SignalKind.keyboard_input) (secs 71)
    ∷ Input.signalled (signal_at (secs 80) 4 SignalKind.lock_end) (secs 80)
    ∷ []

fresh-IsRunning : IsRunning fresh 30 300
fresh-IsRunning = record { unlocked = refl; grace = refl; idle = refl }

working-IsRunning : IsRunning working 30 300
working-IsRunning = record { unlocked = refl; grace = refl; idle = refl }

-- Typing, a pause, the lock and the unlock: active, passive, locked, and passive again.
morning_states :
    (run fresh morning).1
    ≡ record { from = ActivityState.inactive; to = ActivityState.active }
      ∷ record { from = ActivityState.active; to = ActivityState.passive }
      ∷ record { from = ActivityState.passive; to = ActivityState.locked }
      ∷ record { from = ActivityState.locked; to = ActivityState.passive }
      ∷ []
unfolding run step compute
morning_states = refl

run-new-IsConsistent_example : IsConsistent (run (new (secs 10) (pos 30) (pos 300)) morning).0
run-new-IsConsistent_example = run-new-IsConsistent (secs 10) (pos 30) (pos 300) morning

fresh-IsConsistent : IsConsistent fresh
unfolding new
fresh-IsConsistent = new-IsConsistent (secs 10) (pos 30) (pos 300)

run-Chain_example : Chain ActivityState.inactive (run fresh morning).1 (run fresh morning).0.current
run-Chain_example = run-Chain fresh morning fresh-IsConsistent

abbrev locked_inputs : List Input
locked_inputs =
    Input.signalled (signal_at (secs 71) 3 SignalKind.keyboard_input) (secs 71)
    ∷ Input.ticked (secs 500)
    ∷ []

run_locked_example : run away locked_inputs ≡ (away, [])
run_locked_example = run_locked away locked_inputs refl ((λ h. cc), ((λ h. h), tt))
