-- ===== src/Events/Engine.antt =====
-- `DefaultStateEngine` (crates/core/src/events/model.rs): the activity state from signals and ticks.
pub mod Runs
pub mod Levels
use kronical.Prelude.{Bool, true, false, Option, none, some, if◌then◌else◌}
use kronical.Prelude.Int.{ℤ, leb_ℤ}
use kronical.Events.Model.{
  ActivityState, same_state, SignalKind, EventKind, signal, hint, EventEnvelope,
}
use kronical.Time.{DateTime, since, num_seconds}

pub record StateTransition : Type 0 where
  pub from : ActivityState
  pub to : ActivityState

pub record DefaultStateEngine : Type 0 where
  pub current : ActivityState
  pub last_signal_time : DateTime
  pub active_grace_secs : ℤ
  pub idle_threshold_secs : ℤ
  pub locked : Bool

unfoldable pub new : DateTime → ℤ → ℤ → DefaultStateEngine
new now active_grace_secs idle_threshold_secs = record {
  current = ActivityState.inactive;
  last_signal_time = now;
  active_grace_secs = active_grace_secs;
  idle_threshold_secs = idle_threshold_secs;
  locked = false;
}

unfoldable pub compute : DefaultStateEngine → DateTime → ActivityState
compute e now =
    if e.locked
    then ActivityState.locked
    else let dt = num_seconds (since now e.last_signal_time) in
      if leb_ℤ dt e.active_grace_secs
      then ActivityState.active
      else if leb_ℤ dt e.idle_threshold_secs
      then ActivityState.passive
      else ActivityState.inactive

-- Moves to the computed state; a transition only if that is another state.
unfoldable pub move : DefaultStateEngine → DateTime → DefaultStateEngine × Option StateTransition
move e now =
    let to = compute e now in
    if same_state to e.current
    then (e, none)
    else (record e { current = to }, some (record { from = e.current; to = to }))

-- The `match` of `on_signal`, on the envelope's kind.
unfoldable pub on_kind :
    EventKind → DefaultStateEngine → DateTime → DefaultStateEngine × Option StateTransition
unfolding move
on_kind (signal SignalKind.lock_start) e now = if e.locked then (e, none) else (
  record e { locked = true; current = ActivityState.locked },
  some (record { from = e.current; to = ActivityState.locked }),
)
on_kind (signal SignalKind.lock_end) e now =
    if e.locked
    then (let unlocked = record e { locked = false } in
        let to = compute unlocked now in
        (record unlocked { current = to }, some (record { from = e.current; to = to })))
    else (e, none)
on_kind (signal _) e now =
    if e.locked then (e, none) else move (record e { last_signal_time = now }) now
on_kind (hint _) e now = (e, none)

unfoldable pub on_signal :
    DefaultStateEngine → EventEnvelope → DateTime → DefaultStateEngine × Option StateTransition
unfolding on_kind
on_signal e event now = on_kind event.kind e now

unfoldable pub on_tick : DefaultStateEngine → DateTime → DefaultStateEngine × Option StateTransition
unfolding move
on_tick e now = if e.locked then (e, none) else move e now
