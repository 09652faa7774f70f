-- ===== src/Tracker/Worker.antt =====
-- The focus worker (src/daemon/tracker/focus.rs, `run_focus_worker`): its state, and what it does on each
-- message and at each poll. A text is its text here; the interner decides only what shares memory.
-- What the worker hands to its callback comes back as a list. Log lines are left out.
use kronical.Prelude.{
  ℕ, ◌+◌, ◌*◌, ◌%◌, ◌^◌, String, Bool, true, false, not, ◌&&◌, ◌||◌, Option, none, some, List, [],
  ◌∷◌, ltb, if◌then◌else◌,
}
use kronical.Prelude.Classes.{nat_eq}
use kronical.Prelude.Int.{ℤ, pos, same_ℤ}
use kronical.Prelude.Text.{str_eq, eq_ignore_ascii_case}
use kronical.Events.{WindowFocusInfo}
use kronical.Time.{millisecond, timestamp_millis}
use kronical.Tracker.{
  FocusCacheCaps, FocusState, ActiveWindowInfo, ReconcileDecision, loginwindow_app,
  loginwindow_window_id, is_empty_text, is_complete, can_emit, to_window_focus_info, is_login_app,
  login_id,
}
use kronical.Tracker.Titles.{
  Environment, Caches, no_caches, process_start_or_now, record_last_app_window, record_weak_title,
  validate_title_with_weak, reconcile_window_title,
}

pub record Worker : Type 0 where
  pub state : FocusState
  pub caches : Caches
  pub poll_lock_active : Bool
  pub poll_lock_since : Option ℕ
  pub coalesce_until : Option ℕ
  pub pending_window_title : Option String
  pub last_app_before_change : Option String
  pub awaiting_poll_reconcile : Bool
  pub reconcile_active : Bool
  pub emit_seq : ℕ
  pub scheduled_emit_at : Option ℕ

-- Where the loop goes on after a message: at once, by `continue`; or with the checks that follow.
pub data Outcome : Type 0 where
  continued : Worker → Outcome
  handled : Worker → List WindowFocusInfo → Outcome

-- What a poll gives: the active window, or an error and whether its text is that of a lock.
pub data Polled : Type 0 where
  window : ActiveWindowInfo → Polled
  failed : Bool → Polled

abbrev pub is_some {ℓ} : {A : Type ℓ} → Option A → Bool
is_some none = false
is_some (some a) = true

abbrev pub set_title : Worker → Caches → String → Worker
set_title w c title = record w { state = record w.state { window_title = title }; caches = c }

abbrev pub unlocked : Worker → Worker
unlocked w = record w { poll_lock_active = false; poll_lock_since = none }

-- Any app but the login window ends a lock.
abbrev pub unless_login : String → Worker → Worker
unless_login app_name w = if is_login_app app_name then w else unlocked w

module _ (env : Environment) (caps : FocusCacheCaps) where
  unfoldable pub start : Worker
  start = record {
    state = record {
      app_name = "";
      pid = pos 0;
      window_title = "";
      window_id = 0;
      window_instance_start = env.utc 0;
      process_start_time = 0;
      last_app_update = env.instant 1;
      last_window_update = env.instant 2;
    };
    caches = no_caches caps 3;
    poll_lock_active = false;
    poll_lock_since = none;
    coalesce_until = none;
    pending_window_title = none;
    last_app_before_change = none;
    awaiting_poll_reconcile = false;
    reconcile_active = false;
    emit_seq = 0;
    scheduled_emit_at = none;
  }

  abbrev pub emittable : Worker → Bool
  emittable w = can_emit caps.focus_allow_zero_window_id w.state

  -- `schedule_emit`: both arms of its match give the new time.
  unfoldable pub schedule_emit : ℕ → Worker → Worker
  schedule_emit delay_ms w = record w {
    scheduled_emit_at = some (env.instant w.caches.queries + delay_ms * millisecond);
    caches = record w.caches { queries = w.caches.queries + 1 };
  }

  -- `on_focus_change` with the state.
  unfoldable pub emit : Worker → Worker × List WindowFocusInfo
  emit w = (
    record w {
      emit_seq = (w.emit_seq + 1) % 2 ^ 64;
      caches = record_last_app_window env w.state w.caches;
    },
    to_window_focus_info w.state ∷ [],
  )

  -- `emit_loginwindow_focus`.
  unfoldable pub emit_loginwindow_focus : Worker → Worker × List WindowFocusInfo
  emit_loginwindow_focus w =
      let now = env.utc w.caches.queries in
      (
        record w { caches = record w.caches { queries = w.caches.queries + 1 } },
        record {
          pid = pos 0;
          process_start_time = timestamp_millis now;
          app_name = loginwindow_app;
          window_title = "Login";
          window_id = loginwindow_window_id;
          window_instance_start = now;
          window_position = none;
          window_size = none;
        }
            ∷ [],
      )

  -- The title of a window is kept as the app's and checked against those of other apps.
  unfoldable pub see_title : Worker → String → ℕ → Worker
  see_title w title window_id =
      let kept = record_weak_title env w.state.app_name title window_id w.caches in
      let (c, valid) = validate_title_with_weak env w.state.app_name title kept in
      set_title w c valid

  -- `process_start_time`, where a process that is not found has started now.
  unfoldable pub see_process : Worker → ℤ → Worker
  see_process w pid =
      let (c, start_time) = process_start_or_now env w.caches pid in
      record w { state = record w.state { pid = pid; process_start_time = start_time }; caches = c }

  -- The end of a change of the window: its id if it is the login window, and the time.
  unfoldable pub touch_window : Worker → Worker
  touch_window w = record w {
    state = record w.state {
      window_id = login_id w.state.app_name w.state.window_id;
      last_window_update = env.instant w.caches.queries;
    };
    caches = record w.caches { queries = w.caches.queries + 1 };
  }

  -- Before a change of app: both decisions take their title.
  abbrev pub decided : ReconcileDecision → String
  decided (ReconcileDecision.accept value source) = value
  decided (ReconcileDecision.hold value) = value

  unfoldable pub take_pending : Worker → Option String → Worker
  take_pending w none = w
  take_pending w (some title) =
      let (c, decision) =
        reconcile_window_title env w.state.app_name title w.last_app_before_change w.caches in
      set_title w c (decided decision)

  unfoldable pub emit_if_complete : Worker → Worker × List WindowFocusInfo
  emit_if_complete w = if emittable w then emit w else (w, [])

  unfoldable pub flush_app : Worker → Worker × List WindowFocusInfo
  flush_app w =
      let pending_title = w.pending_window_title in
      let taken = record w { pending_window_title = none } in
      if is_some pending_title || not (is_empty_text w.state.window_title)
      then emit_if_complete (touch_window (take_pending taken pending_title))
      else (taken, [])

  -- The new app, with no window yet.
  unfoldable pub coalescing : Worker → Worker
  coalescing w =
      if ltb 0 caps.focus_window_coalesce_ms
      then record w {
        coalesce_until =
            some (env.instant w.caches.queries + caps.focus_window_coalesce_ms * millisecond);
        caches = record w.caches { queries = w.caches.queries + 1 };
      }
      else record w { coalesce_until = none }

  unfoldable pub new_app : Worker → String → Worker
  new_app w app_name = record w {
    pending_window_title = none;
    reconcile_active = true;
    state = record w.state { app_name = app_name; window_title = ""; window_id = 0 };
  }

  unfoldable pub app_entered : Worker → Worker
  app_entered w =
      let n = w.caches.queries in
      record w {
        state = record w.state {
          window_id = login_id w.state.app_name w.state.window_id;
          window_instance_start = env.utc n;
          last_app_update = env.instant (n + 1);
        };
        caches = record w.caches { queries = n + 2 };
        awaiting_poll_reconcile = true;
      }

  unfoldable pub enter_app : Worker → ℤ → String → Worker
  enter_app w pid app_name =
      let w1 = see_process (new_app (coalescing (unless_login app_name w)) app_name) pid in
      schedule_emit (if is_login_app app_name then 50 else 150) (app_entered w1)

  abbrev pub leaving : Worker → Worker
  leaving w = record w {
    last_app_before_change =
        if not (is_empty_text w.state.app_name) then some w.state.app_name else none;
  }

  abbrev pub then_enter : ℤ → String → Worker × List WindowFocusInfo → Outcome
  then_enter pid app_name (w, out) = Outcome.handled (enter_app w pid app_name) out

  unfoldable pub on_app_change : Worker → ℤ → String → Outcome
  on_app_change w pid app_name =
      if str_eq w.state.app_name app_name && same_ℤ w.state.pid pid
      then Outcome.handled w []
      else then_enter pid app_name
          (if is_some w.coalesce_until then flush_app (leaving w) else (leaving w, []))

  -- A new title has settled.
  unfoldable pub window_applied : Worker → Worker
  window_applied w =
      let w1 = touch_window w in
      if is_complete w1.state
      then record (schedule_emit 100 w1) { reconcile_active = false }
      else w1

  -- A title that waits for the coalescing to end.
  unfoldable pub hold_title : Worker → String → Worker
  hold_title w title = record w {
    caches = record_weak_title env w.state.app_name title w.state.window_id w.caches;
    pending_window_title = some title;
  }

  unfoldable pub on_decision : Worker → ReconcileDecision → Outcome
  on_decision w (ReconcileDecision.accept value source) =
      let c = record_weak_title env w.state.app_name value w.state.window_id w.caches in
      Outcome.handled (window_applied (record (set_title w c value) { reconcile_active = false }))
        []
  on_decision w (ReconcileDecision.hold value) =
      if is_some w.coalesce_until
      then Outcome.continued (hold_title w value)
      else Outcome.handled
          (window_applied
            (record (see_title w value w.state.window_id) { reconcile_active = false }))
          []

  unfoldable pub reconcile_change : Worker → String → Outcome
  reconcile_change w title =
      let (c, decision) =
        reconcile_window_title env w.state.app_name title w.last_app_before_change w.caches in
      on_decision (record w { caches = c }) decision

  -- With the reading that is compared to the end of the coalescing, if there is one.
  unfoldable pub reconcile_or_hold : Worker → String → Option ℕ → Outcome
  reconcile_or_hold w title none = reconcile_change w title
  reconcile_or_hold w title (some until) =
      let w1 = record w { caches = record w.caches { queries = w.caches.queries + 1 } } in
      if ltb (env.instant w.caches.queries) until
      then Outcome.continued (hold_title w1 title)
      else reconcile_change w1 title

  unfoldable pub on_window_change : Worker → String → Outcome
  on_window_change w title =
      if is_empty_text title || str_eq w.state.window_title title
      then Outcome.handled w []
      else if w.reconcile_active
      then reconcile_or_hold w title w.coalesce_until
      else Outcome.handled (window_applied (see_title w title w.state.window_id)) []

  -- While the app is reconciled, what is said of another one is ignored.
  abbrev pub of_another_app : Worker → ActiveWindowInfo → Bool
  of_another_app w info =
      w.reconcile_active
      && (not (eq_ignore_ascii_case w.state.app_name info.app_name)
          && not (is_empty_text w.state.app_name))

  abbrev pub settled : Worker → Worker
  settled w = record w { coalesce_until = none; pending_window_title = none }

  abbrev pub named : Worker → String → Worker
  named w app_name =
      unless_login app_name (record w { state = record w.state { app_name = app_name } })

  unfoldable pub schedule_if_complete : Worker → Worker
  schedule_if_complete w = if is_complete w.state then schedule_emit 0 w else w

  abbrev pub reconciled : Worker → Worker
  reconciled w = record w { awaiting_poll_reconcile = false; reconcile_active = false }

  abbrev pub window_id_of : Worker → ActiveWindowInfo → ℕ
  window_id_of w info = login_id w.state.app_name info.window_id

  -- The window's id, `window_instance_start` and both updates, which are one reading.
  unfoldable pub new_window : Worker → ℕ → Worker
  new_window w window_id =
      let n = w.caches.queries in
      record w {
        state = record w.state {
          window_id = window_id;
          window_instance_start = env.utc n;
          last_app_update = env.instant (n + 1);
          last_window_update = env.instant (n + 1);
        };
        caches = record w.caches { queries = n + 2 };
      }

  unfoldable pub on_app_change_info : Worker → ActiveWindowInfo → Outcome
  on_app_change_info w info =
      if of_another_app w info
      then Outcome.continued w
      else (let w1 = see_process (named (settled w) info.app_name) info.process_id in
          let w2 = see_title w1 info.title info.window_id in
          Outcome.handled (schedule_if_complete (reconciled (new_window w2 (window_id_of w2 info))))
            [])

  -- The id of a window, and the time of its update.
  unfoldable pub update_window : Worker → ℕ → Worker
  update_window w window_id = record w {
    state = record w.state {
      window_id = window_id;
      last_window_update = env.instant w.caches.queries;
    };
    caches = record w.caches { queries = w.caches.queries + 1 };
  }

  unfoldable pub on_window_change_info : Worker → ActiveWindowInfo → Outcome
  on_window_change_info w info =
      if of_another_app w info
      then Outcome.continued w
      else (let w1 = settled w in
          let w2 =
            if same_ℤ w.state.pid info.process_id
            then w1
            else see_process (named w1 info.app_name) info.process_id in
          let w3 = see_title w2 info.title info.window_id in
          Outcome.handled
            (schedule_if_complete (reconciled (update_window w3 (window_id_of w3 info)))) [])
