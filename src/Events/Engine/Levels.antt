-- ===== src/Events/Engine/Levels.antt =====
-- Which state the clock gives: the thresholds of `DefaultStateEngine` in nanoseconds.
use kronical.Prelude.{
  ℕ, ◌+◌, ◌-◌, ◌*◌, ◌≤◌, ◌<◌, ◌≡◌, ◌≢◌, ◌⊎◌, true, false, none, some, arith, ltb, if◌then◌else◌,
  List, [], ◌∷◌, All, Bool, false, ◌∙◌,
}
use kronical.Prelude.Int.{ℤ, pos}
use kronical.Time.{DateTime, second}
use kronical.Events.Engine.{DefaultStateEngine, new, compute, on_kind, on_signal, on_tick}
use kronical.Events.Engine.Runs.{Input, step, run}
use kronical.Events.Model.{ActivityState, SignalKind, EventKind, EventEnvelope, kind_is_signal}

-- The state for a silence of `silence` nanoseconds: thresholds of `grace` and `idle` whole seconds,
-- each reached only when the next second is full.
abbrev pub level : ℕ → ℕ → ℕ → ActivityState
level grace idle silence =
    if ltb silence ((grace + 1) * second)
    then ActivityState.active
    else if ltb silence ((idle + 1) * second)
    then ActivityState.passive
    else ActivityState.inactive

abbrev pub rank : ActivityState → ℕ
rank ActivityState.active = 0
rank ActivityState.passive = 1
rank ActivityState.inactive = 2
rank ActivityState.locked = 3

pub rank-level_mono : (g i m n : ℕ) → m ≤ n → rank (level g i m) ≤ rank (level g i n)
rank-level_mono g i m n h = ground arith

module _ (e : DefaultStateEngine) (g i : ℕ) where
  -- An unlocked engine, with thresholds of `g` and `i` seconds.
  pub record IsRunning : Type 0 where
    pub unlocked : e.locked ≡ false
    pub grace : e.active_grace_secs ≡ pos g
    pub idle : e.idle_threshold_secs ≡ pos i

compute-level :
    (e : DefaultStateEngine) (g i : ℕ) (now : DateTime)
    → IsRunning e g i
    → e.last_signal_time ≤ now
    → compute e now ≡ level g i (now - e.last_signal_time)
unfolding compute
compute-level e g i now r h = ground arith

-- A tick sets the state by the silence since the last signal, and reports exactly a change.
pub on_tick-level :
    (e : DefaultStateEngine) (g i : ℕ) (now : DateTime)
    → IsRunning e g i
    → e.last_signal_time ≤ now
    → let to = level g i (now - e.last_signal_time) in
      ((on_tick e now).0 ≡ record e { current = to })
      × (((to ≡ e.current) × ((on_tick e now).1 ≡ none))
          ⊎ ((to ≢ e.current) × ((on_tick e now).1 ≡ some (record { from = e.current; to = to }))))
unfolding on_tick
on_tick-level e g i now r h = ground (arith, compute-level e g i now r h)

-- An input that is no signal: a tick, or a hint.
abbrev pub IsQuiet : Input → Type 0
IsQuiet (Input.signalled env now) = kind_is_signal env.kind ≡ false
IsQuiet (Input.ticked now) = Unit

-- What quiet inputs leave alone.
record Keeps (e e' : DefaultStateEngine) : Type 0 where
  kept_locked : e'.locked ≡ e.locked
  kept_time : e'.last_signal_time ≡ e.last_signal_time
  kept_grace : e'.active_grace_secs ≡ e.active_grace_secs
  kept_idle : e'.idle_threshold_secs ≡ e.idle_threshold_secs

on_kind-Keeps :
    (k : EventKind) (e : DefaultStateEngine) (now : DateTime)
    → kind_is_signal k ≡ false
    → Keeps e (on_kind k e now).0
unfolding on_kind
on_kind-Keeps (EventKind.signal s) e now q = absurd (cc)
on_kind-Keeps (EventKind.hint h) e now q = ground arith

step-Keeps : (e : DefaultStateEngine) (i : Input) → IsQuiet i → Keeps e (step e i).0
unfolding step on_tick
step-Keeps e (Input.signalled env now) q = on_kind-Keeps env.kind e now q
step-Keeps e (Input.ticked now) q = ground arith

run-Keeps : (e : DefaultStateEngine) (is : List Input) → All IsQuiet is → Keeps e (run e is).0
unfolding run
run-Keeps e [] q = ground arith
run-Keeps e (i ∷ is) q = ground (arith, step-Keeps e i q.0, run-Keeps (step e i).0 is q.1)

-- However many ticks and hints an unlocked engine took in between, its state at a tick that is no
-- earlier than the last signal is the level of the time since that signal: the polling interval
-- does not matter.
pub run-on_tick-level :
    (e : DefaultStateEngine) (g i : ℕ) (is : List Input) (now : DateTime)
    → IsRunning e g i
    → All IsQuiet is
    → e.last_signal_time ≤ now
    → (on_tick (run e is).0 now).0.current ≡ level g i (now - e.last_signal_time)
run-on_tick-level e g i is now r q h =
    let k = run-Keeps e is q in
    let r' : IsRunning (run e is).0 g i = record {
      unlocked = k.kept_locked ∙ r.unlocked;
      grace = k.kept_grace ∙ r.grace;
      idle = k.kept_idle ∙ r.idle;
    } in
    ground (arith, on_tick-level (run e is).0 g i now r' (omega (arith, k.kept_time)), k)

-- Without a signal, a later tick finds an unlocked engine no more active than an earlier one,
-- whatever ticks and hints came before each.
pub ticks_degrade :
    (e : DefaultStateEngine) (g i : ℕ) (is js : List Input) (t u : DateTime)
    → IsRunning e g i
    → All IsQuiet is
    → All IsQuiet js
    → e.last_signal_time ≤ t
    → t ≤ u
    → rank (on_tick (run e is).0 t).0.current ≤ rank (on_tick (run e js).0 u).0.current
ticks_degrade e g i is js t u r p q h k = rw (run-on_tick-level e g i is t r p h) (
    rw (run-on_tick-level e g i js u r q (omega arith))
      (rank-level_mono g i (t - e.last_signal_time) (u - e.last_signal_time) (omega arith)))

-- Signals of activity: all but the two of the lock.
abbrev pub is_activity : SignalKind → Bool
is_activity SignalKind.lock_start = false
is_activity SignalKind.lock_end = false
is_activity _ = true

-- A signal of activity makes an unlocked engine active at once, and restarts its silence.
pub on_signal_active :
    (e : DefaultStateEngine) (g i : ℕ) (env : EventEnvelope) (s : SignalKind) (now : DateTime)
    → IsRunning e g i
    → env.kind ≡ EventKind.signal s
    → is_activity s ≡ true
    → (on_signal e env now).0 ≡ record e { current = ActivityState.active; last_signal_time = now }
unfolding on_signal compute
on_signal_active e g i env s now r k a = ground arith

-- The first tick of a new engine reports a move from `Inactive` to `Active`, although no signal
-- was seen, if it comes no earlier than the start and before the grace period ends.
pub first_tick_activates :
    (start now : DateTime) (g : ℕ) (idle : ℤ)
    → start ≤ now
    → now < start + (g + 1) * second
    → (on_tick (new start (pos g) idle) now).1
      ≡ some (record { from = ActivityState.inactive; to = ActivityState.active })
unfolding on_tick compute new
first_tick_activates start now g idle h k = ground arith

-- A tick after a silence past both thresholds takes an unlocked active engine to `Inactive` in one
-- step: it is not `Passive` in between.
pub tick_skips_passive :
    (e : DefaultStateEngine) (g i : ℕ) (now : DateTime)
    → IsRunning e g i
    → e.current ≡ ActivityState.active
    → e.last_signal_time + (g + 1) * second ≤ now
    → e.last_signal_time + (i + 1) * second ≤ now
    → (on_tick e now).1 ≡ some (record { from = ActivityState.active; to = ActivityState.inactive })
tick_skips_passive e g i now r c h k = ground (arith, on_tick-level e g i now r (omega arith))
