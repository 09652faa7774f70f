-- ===== src/Events/DeriveSignal.antt =====
-- `LockDeriver` (crates/core/src/events/derive_signal.rs): the login window's focus as lock and
-- unlock signals, and the filter on what passes while the session is locked.
pub mod Boundaries
use kronical.Prelude.{String, Bool, true, false, not, ◌&&◌, List, [], ◌∷◌, ◌++◌, if◌then◌else◌}
use kronical.Prelude.Loops.{emit_each}
use kronical.Prelude.Text.{eq_ignore_ascii_case}
use kronical.Events.Model.{
  EventSource, SignalKind, HintKind, EventKind, EventPayload, EventEnvelope, signal, hint,
}

pub record LockDeriver : Type 0 where
  pub locked : Bool

unfoldable pub new : LockDeriver
new = record { locked = false }

unfoldable pub is_login : EventPayload → Bool
is_login (EventPayload.focus fi) = eq_ignore_ascii_case fi.app_name "loginwindow"
is_login _ = false

-- The envelope of a derived boundary, which takes the id and the time of its cause.
abbrev pub lock_signal : EventEnvelope → SignalKind → String → EventEnvelope
lock_signal e kind reason = record {
  id = e.id;
  timestamp = e.timestamp;
  source = EventSource.derived;
  kind = EventKind.signal kind;
  payload = EventPayload.lock reason;
  derived = true;
  polling = false;
  sensitive = false;
}

-- An app or window change: the flag after it, and what goes out.
unfoldable pub on_focus_change : Bool → EventEnvelope → Bool × List EventEnvelope
on_focus_change locked e =
    if is_login e.payload
    then (true, if locked then [] else lock_signal e SignalKind.lock_start "loginwindow" ∷ [])
    else (false, if locked then lock_signal e SignalKind.lock_end "unlock" ∷ e ∷ [] else e ∷ [])

abbrev forward : Bool → EventEnvelope → List EventEnvelope
forward true e = e ∷ []
forward false e = []

abbrev is_focus_changed : HintKind → Bool
is_focus_changed HintKind.focus_changed = true
is_focus_changed _ = false

-- The body of the loop, on the envelope's kind.
unfoldable pub derive_kind : EventKind → Bool → EventEnvelope → Bool × List EventEnvelope
unfolding on_focus_change
derive_kind (signal SignalKind.app_changed) locked e = on_focus_change locked e
derive_kind (signal SignalKind.window_changed) locked e = on_focus_change locked e
derive_kind (signal SignalKind.lock_start) locked e = (true, e ∷ [])
derive_kind (signal SignalKind.lock_end) locked e = (false, e ∷ [])
derive_kind (signal _) locked e = (locked, forward (not locked) e)
derive_kind (hint kind) locked e =
    (locked, forward (if locked then is_focus_changed kind else true) e)

unfoldable pub derive_event : LockDeriver → EventEnvelope → LockDeriver × List EventEnvelope
unfolding derive_kind
derive_event d e =
    let (locked, out) = derive_kind e.kind d.locked e in (record { locked = locked }, out)

unfoldable pub derive : LockDeriver → List EventEnvelope → LockDeriver × List EventEnvelope
unfolding emit_each
derive d input = emit_each derive_event d input
