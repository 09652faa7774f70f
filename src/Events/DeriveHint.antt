-- ===== src/Events/DeriveHint.antt =====
-- `StateDeriver` (crates/core/src/events/derive_hint.rs): the state engine's transitions as hints.
use kronical.Prelude.{ℕ, true, false, Option, none, some}
use kronical.Prelude.Int.{ℤ}
use kronical.Events.Engine
use kronical.Events.Engine.{DefaultStateEngine, StateTransition}
use kronical.Events.Model.{EventSource, HintKind, EventKind, EventPayload, EventEnvelope}
use kronical.Time.{DateTime, timestamp_millis}

pub record StateDeriver : Type 0 where
  pub engine : DefaultStateEngine

unfoldable pub new : DateTime → ℤ → ℤ → StateDeriver
new now active_grace_secs idle_threshold_secs = record {
  engine = Engine.new now active_grace_secs idle_threshold_secs;
}

-- The envelope that both methods build.
abbrev pub state_hint : ℕ → DateTime → StateTransition → EventEnvelope
state_hint id now tr = record {
  id = id;
  timestamp = now;
  source = EventSource.derived;
  kind = EventKind.hint HintKind.state_changed;
  payload = EventPayload.state tr.from tr.to;
  derived = true;
  polling = false;
  sensitive = false;
}

abbrev pub hint_of : ℕ → DateTime → Option StateTransition → Option EventEnvelope
hint_of id now none = none
hint_of id now (some tr) = some (state_hint id now tr)

unfoldable pub on_signal : StateDeriver → EventEnvelope → StateDeriver × Option EventEnvelope
on_signal d env =
    let (engine, tr) = Engine.on_signal d.engine env env.timestamp in
    (record { engine = engine }, hint_of env.id env.timestamp tr)

unfoldable pub on_tick : StateDeriver → DateTime → StateDeriver × Option EventEnvelope
on_tick d now =
    let (engine, tr) = Engine.on_tick d.engine now in
    (record { engine = engine }, hint_of (timestamp_millis now) now tr)
