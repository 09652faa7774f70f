-- ===== src/Tracker/Loop.antt =====
-- The loop of the focus worker (src/daemon/tracker/focus.rs, `run_focus_worker`): the polls, the checks after
-- each message or poll, and the passes of the loop.
use kronical.Prelude.{
  ℕ, ◌+◌, String, Bool, true, false, not, ◌&&◌, ◌||◌, Option, none, some, List, [], ◌∷◌, ◌++◌, leb,
  ◌==◌, if◌then◌else◌,
}
use kronical.Prelude.Classes.{nat_eq}
use kronical.Prelude.Int.{same_ℤ}
use kronical.Prelude.Text.{str_eq}
use kronical.Common.Lru.{get_cloned, put}
use kronical.Events.{WindowFocusInfo}
use kronical.Tracker.{
  FocusCacheCaps, FocusMsg, ActiveWindowInfo, ReconcileDecision, poll_suspend_ms, is_login_app,
}
use kronical.Tracker.Titles.{
  Environment, get_process_start_time, reconcile_window_title, record_weak_title,
}
use kronical.Tracker.Worker.{
  Worker, Outcome, Polled, set_title, unlocked, emittable, schedule_emit, emit,
  emit_loginwindow_focus, see_title, see_process, touch_window, settled, reconciled, of_another_app,
  window_id_of, new_window, update_window, schedule_if_complete, on_app_change, on_window_change,
  on_app_change_info, on_window_change_info,
}

-- One pass: whether to stop, the poll interval, and what `recv_timeout` gives.
pub data Received : Type 0 where
  message : FocusMsg → Received
  timeout : Polled → Received
  disconnected : Received

pub record Pass : Type 0 where
  pub should_stop : Bool
  pub poll_value : ℕ
  pub received : Received

module _ (env : Environment) (caps : FocusCacheCaps) where
  -- The first window after an error that looked like a lock.
  unfoldable pub recovered : Worker → ActiveWindowInfo → Worker
  recovered w info =
      let w1 = unlocked w in
      let w2 =
        see_process env caps (record w1 { state = record w1.state { app_name = info.app_name } })
          info.process_id in
      let w3 = see_title env caps w2 info.title info.window_id in
      schedule_emit env caps 0
        (settled env caps (reconciled env caps (new_window env caps w3 info.window_id)))

  -- The window, and the times of its start and its update.
  abbrev pub poll_window : Worker → ActiveWindowInfo → Worker
  poll_window w info =
      let n = w.caches.queries in
      record w {
        state = record w.state {
          window_id = window_id_of env caps w info;
          window_instance_start = env.utc n;
          last_window_update = env.instant (n + 1);
        };
        caches = record w.caches { queries = n + 2 };
      }

  -- The first window of the app that was entered.
  unfoldable pub poll_reconciled : Worker → ActiveWindowInfo → Worker
  poll_reconciled w info =
      let w1 =
        see_title env caps (see_process env caps w info.process_id) info.title info.window_id in
      schedule_emit env caps 0 (settled env caps (reconciled env caps (poll_window w1 info)))

  -- Here a process that is not found keeps a start of 0.
  unfoldable pub switched : Worker → ActiveWindowInfo → Worker
  switched w info =
      let (c, start_time) = get_process_start_time env w.caches info.process_id in
      record w {
        state = record w.state {
          pid = info.process_id;
          app_name = info.app_name;
          process_start_time = start_time;
        };
        caches = c;
      }

  abbrev pub other_process : Worker → ActiveWindowInfo → Worker
  other_process w info = if same_ℤ w.state.pid info.process_id then w else switched w info

  unfoldable pub retitled : Worker → ActiveWindowInfo → Worker
  retitled w info = schedule_if_complete env caps (
      update_window env caps (see_title env caps (other_process w info) info.title info.window_id)
        info.window_id)

  -- Against the title that the window had at an earlier poll.
  unfoldable pub compare_title : Worker → ActiveWindowInfo → Option String → Worker
  compare_title w info none = w
  compare_title w info (some last_title) =
      if str_eq last_title info.title then w else retitled w info

  unfoldable pub keep_title : Worker → ActiveWindowInfo → Worker
  keep_title w info = record w {
    caches = record w.caches {
      last_titles =
          put w.caches.last_titles info.window_id info.title (env.instant w.caches.queries);
      queries = w.caches.queries + 1;
    };
  }

  unfoldable pub poll_title : Worker → ActiveWindowInfo → Worker
  poll_title w info =
      let (cache, found) =
        get_cloned w.caches.last_titles info.window_id (env.instant w.caches.queries) in
      let asked = record w {
        caches = record w.caches { last_titles = cache; queries = w.caches.queries + 1 };
      } in
      keep_title (compare_title asked info found) info

  unfoldable pub poll_state : Worker → ActiveWindowInfo → Worker
  poll_state w info =
      let w1 = if w.poll_lock_active then recovered w info else w in
      if w1.awaiting_poll_reconcile && str_eq w1.state.app_name info.app_name
      then poll_reconciled w1 info
      else w1

  abbrev pub handled_pair : Worker × List WindowFocusInfo → Outcome
  handled_pair (w, out) = Outcome.handled w out

  -- A new lock: the login window is shown at once, if it is the app.
  unfoldable pub locked : Worker → Worker × List WindowFocusInfo
  locked w =
      let w1 = record w {
        poll_lock_active = true;
        poll_lock_since = some (env.instant w.caches.queries);
        caches = record w.caches { queries = w.caches.queries + 1 };
      } in
      if is_login_app w.state.app_name then emit_loginwindow_focus env caps w1 else (w1, [])

  unfoldable pub on_poll : Worker → Polled → Outcome
  on_poll w (Polled.window info) =
      if of_another_app env caps w info
      then Outcome.continued w
      else Outcome.handled (poll_title (poll_state w info) info) []
  on_poll w (Polled.failed is_lock_error) =
      handled_pair (if is_lock_error && not w.poll_lock_active then locked w else (w, []))

  -- The end of the coalescing: the title that waits is taken, verified or not.
  unfoldable pub resolved : Worker → ReconcileDecision → Worker
  resolved w (ReconcileDecision.accept value source) =
      set_title w (record_weak_title env w.state.app_name value w.state.window_id w.caches) value
  resolved w (ReconcileDecision.hold value) = see_title env caps w value w.state.window_id

  unfoldable pub resolve : Worker → Option String → Worker
  resolve w none = w
  resolve w (some title) =
      let (c, decision) =
        reconcile_window_title env w.state.app_name title w.last_app_before_change w.caches in
      record (touch_window env caps
        (resolved (record w { caches = c; pending_window_title = none }) decision)) {
          awaiting_poll_reconcile = true;
        }

  unfoldable pub coalesced : Worker → Worker
  coalesced w =
      let w1 = record (resolve w w.pending_window_title) {
        coalesce_until = none;
        reconcile_active = false;
      } in
      if emittable env caps w1 then schedule_emit env caps 0 w1 else w1

  unfoldable pub check_coalesce : Worker → Option ℕ → Worker
  check_coalesce w none = w
  check_coalesce w (some until) =
      let w1 = record w { caches = record w.caches { queries = w.caches.queries + 1 } } in
      if leb until (env.instant w.caches.queries) then coalesced w1 else w1

  unfoldable pub check_scheduled : Worker → Option ℕ → Worker × List WindowFocusInfo
  check_scheduled w none = (w, [])
  check_scheduled w (some when) =
      let w1 = record w { caches = record w.caches { queries = w.caches.queries + 1 } } in
      if leb when (env.instant w.caches.queries) && emittable env caps w1
      then (let (w2, out) = emit env caps w1 in (record w2 { scheduled_emit_at = none }, out))
      else (w1, [])

  unfoldable pub checks : Worker → Worker × List WindowFocusInfo
  checks w = let w1 = check_coalesce w w.coalesce_until in check_scheduled w1 w1.scheduled_emit_at

  unfoldable pub on_message : Worker → FocusMsg → Outcome
  on_message w (FocusMsg.app_change pid app_name) = on_app_change env caps w pid app_name
  on_message w (FocusMsg.window_change title) = on_window_change env caps w title
  on_message w (FocusMsg.app_change_info info) = on_app_change_info env caps w info
  on_message w (FocusMsg.window_change_info info) = on_window_change_info env caps w info
  on_message w FocusMsg.stop = Outcome.continued w

  -- A poll is suspended by an interval of 0.
  unfoldable pub on_received : Worker → ℕ → Received → Outcome
  on_received w poll_value (Received.message msg) = on_message w msg
  on_received w poll_value (Received.timeout polled) =
      if poll_value == poll_suspend_ms then Outcome.continued w else on_poll w polled
  on_received w poll_value Received.disconnected = Outcome.continued w

  abbrev pub finish : Outcome → Worker × List WindowFocusInfo
  finish (Outcome.continued w) = (w, [])
  finish (Outcome.handled w out) = let (w', later) = checks w in (w', out ++ later)

  unfoldable pub pass : Worker → ℕ → Received → Worker × List WindowFocusInfo
  pass w poll_value received = finish (on_received w poll_value received)

  -- `break`: by the flag, by `Stop`, or when the senders are gone.
  abbrev pub ends_received : Received → Bool
  ends_received (Received.message FocusMsg.stop) = true
  ends_received Received.disconnected = true
  ends_received _ = false

  unfoldable pub run_focus_worker : Worker → List Pass → Worker × List WindowFocusInfo
  run_focus_worker w [] = (w, [])
  run_focus_worker w (p ∷ passes) =
      let (w', out) = pass w p.poll_value p.received in
      let (last, later) = run_focus_worker w' passes in
      if p.should_stop || ends_received p.received then (w, []) else (last, out ++ later)
