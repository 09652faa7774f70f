-- ===== src/Records.antt =====
-- `RecordBuilder` (crates/core/src/records.rs): hints cut the time into activity records.
-- The builder's interner decides only which allocation a title shares; a title is its text here.
-- Each call takes the readings of the clock that it makes: `finalize_current` takes the first,
-- `start_new_current` the second.
pub mod Builder
pub mod Order
pub mod Apps
pub mod Aggregate
use kronical.Prelude.{
  ℕ, ◌+◌, ◌%◌, String, Bool, true, false, Option, none, some, List, [], ◌∷◌, ◌==◌, if◌then◌else◌,
}
use kronical.Events.{WindowFocusInfo}
use kronical.Events.Model.{
  ActivityState, same_state, HintKind, EventKind, EventPayload, EventEnvelope, hint,
}
use kronical.Time.{DateTime}

pub record ActivityRecord : Type 0 where
  pub record_id : ℕ
  pub run_id : Option String
  pub start_time : DateTime
  pub end_time : Option DateTime
  pub state : ActivityState
  pub focus_info : Option WindowFocusInfo
  pub event_count : ℕ
  pub triggering_events : List ℕ

pub record RecordBuilder : Type 0 where
  pub current_state : ActivityState
  pub current_record : Option ActivityRecord
  pub current_focus : Option WindowFocusInfo
  pub next_record_id : ℕ

-- The clock at the end of one record and at the start of the next.
pub record Readings : Type 0 where
  pub ended : DateTime
  pub started : DateTime

unfoldable pub with_next_record_id : ActivityState → ℕ → RecordBuilder
with_next_record_id initial_state next_record_id = record {
  current_state = initial_state;
  current_record = none;
  current_focus = none;
  next_record_id = next_record_id;
}

-- `next_record_id` is a `u64`.
abbrev pub u64_mod : ℕ
u64_mod = 0x1_0000_0000_0000_0000

unfoldable pub start_new_current : RecordBuilder → DateTime → RecordBuilder
start_new_current b now_utc = record b {
  current_record = some (record {
    record_id = b.next_record_id;
    run_id = none;
    start_time = now_utc;
    end_time = none;
    state = b.current_state;
    focus_info = b.current_focus;
    event_count = 0;
    triggering_events = [];
  });
  next_record_id = (b.next_record_id + 1) % u64_mod;
}

abbrev closed_at : DateTime → Option ActivityRecord → Option ActivityRecord
closed_at now none = none
closed_at now (some rec) = some (record rec { end_time = some now })

unfoldable pub finalize_current : RecordBuilder → DateTime → RecordBuilder × Option ActivityRecord
finalize_current b now = (record b { current_record = none }, closed_at now b.current_record)

unfoldable pub apply_focus_change :
    RecordBuilder → WindowFocusInfo → Readings → RecordBuilder × Option ActivityRecord
unfolding finalize_current start_new_current
apply_focus_change b focus_info now =
    let (b', completed) =
      finalize_current (record b { current_focus = some focus_info }) now.ended in
    (start_new_current b' now.started, completed)

abbrev in_window : Option WindowFocusInfo → ℕ → Bool
in_window none window_id = false
in_window (some cf) window_id = cf.window_id == window_id

abbrev retitled : Option WindowFocusInfo → String → Option WindowFocusInfo
retitled none title = none
retitled (some cf) title = some (record cf { window_title = title })

unfoldable pub apply_title_change :
    RecordBuilder → ℕ → String → Readings → RecordBuilder × Option ActivityRecord
unfolding finalize_current start_new_current
apply_title_change b window_id new_title now =
    let (b', completed) = finalize_current b now.ended in
    let titled = record b' { current_focus = retitled b'.current_focus new_title } in
    if in_window b.current_focus window_id
    then (start_new_current titled now.started, completed)
    else (b, none)

unfoldable pub transition_to :
    RecordBuilder → ActivityState → Readings → RecordBuilder × Option ActivityRecord
unfolding finalize_current start_new_current
transition_to b to now =
    let (b', completed) = finalize_current b now.ended in
    if same_state b.current_state to
    then (b, none)
    else (start_new_current (record b' { current_state = to }) now.started, completed)

-- The `match` of `on_hint`, on the kind and the payload.
unfoldable pub apply_hint :
    EventKind → EventPayload → RecordBuilder → Readings → RecordBuilder × Option ActivityRecord
unfolding apply_focus_change apply_title_change transition_to
apply_hint (hint HintKind.focus_changed) (EventPayload.focus f) b now = apply_focus_change b f now
apply_hint (hint HintKind.state_changed) (EventPayload.state _ to) b now = transition_to b to now
apply_hint (hint HintKind.title_changed) (EventPayload.title window_id title) b now =
    apply_title_change b window_id title now
apply_hint _ _ b now = (b, none)

unfoldable pub on_hint :
    RecordBuilder → EventEnvelope → Readings → RecordBuilder × Option ActivityRecord
unfolding apply_hint
on_hint b env now = apply_hint env.kind env.payload b now

unfoldable pub finalize_all : RecordBuilder → DateTime → RecordBuilder × Option ActivityRecord
unfolding finalize_current
finalize_all b now = finalize_current b now
