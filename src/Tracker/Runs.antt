-- ===== src/Tracker/Runs.antt =====
-- Whole runs of the focus worker: what it hands over, and its state.
use kronical.Prelude.{
  ℕ, ◌+◌, ◌%◌, ◌^◌, ◌≡◌, refl, sym, ◌∙◌, String, true, false, not, ◌&&◌, ◌||◌, ◌==◌, Option, none,
  some, List, [], ◌∷◌, inr, All, arith, if_elim, if◌then◌else◌, leb,
}
use kronical.Prelude.Text.{str_eq}
use kronical.Events.{WindowFocusInfo}
use kronical.Tracker.{
  FocusCacheCaps, FocusMsg, ActiveWindowInfo, ReconcileDecision, is_login_app, poll_suspend_ms,
}
use kronical.Tracker.Titles.{Environment, reconcile_window_title}
use kronical.Tracker.Frames.{
  Keeps-trans, see_title-Keeps, see_process-Keeps, touch_window-Keeps, new_window-Keeps,
  schedule_emit-Keeps, poll_title-Keeps,
}
use kronical.Tracker.Worker.{
  Worker, Outcome, Polled, start, unlocked, emittable, see_title, see_process, schedule_emit,
  settled, reconciled, new_window, of_another_app, emit_loginwindow_focus,
}
use kronical.Tracker.Loop.{
  Pass, Received, recovered, poll_window, poll_reconciled, poll_state, locked, resolved, resolve,
  coalesced, check_coalesce, check_scheduled, checks, on_poll, on_message, on_received, finish,
  pass, ends_received, run_focus_worker, handled_pair,
}
use kronical.Tracker.Emissions.{
  IsSound, Goes, Resets, IsShown, windows_in, Keeps-Resets, if-Resets, quiet, same, emit-Goes,
}
use kronical.Tracker.Messages.{
  P, Z, silent, after, Goes-append, see_title-Resets, Resets-trans, on_app_change-Goes,
  on_window_change-Goes, on_app_change_info-Goes, on_window_change_info-Goes,
}

module _ (env : Environment) (caps : FocusCacheCaps) where
  recovered-Resets :
      (w : Worker) (info : ActiveWindowInfo) → IsSound w → Resets w (recovered env caps w info)
  unfolding recovered
  recovered-Resets w info h =
      let w1 = record (unlocked w) { state = record w.state { app_name = info.app_name } } in
      let w2 = see_process env caps w1 info.process_id in
      let w3 = see_title env caps w2 info.title info.window_id in
      let w4 = new_window env caps w3 info.window_id in
      let r1 : Resets w w1 = record {
        sound = record { lock = refl; waits = h.waits };
        seq = refl;
      } in
      let r4 = Keeps-Resets w w1 w4 r1 (
        Keeps-trans (see_process-Keeps env caps w1 info.process_id) (
          Keeps-trans (see_title-Keeps env caps w2 info.title info.window_id)
            (new_window-Keeps env caps w3 info.window_id))) in
      let w5 = settled env caps (reconciled env caps w4) in
      Keeps-Resets w w5 _
        (record { sound = record { lock = r4.sound.lock; waits = refl }; seq = r4.seq })
        (schedule_emit-Keeps env caps 0 w5)

  poll_reconciled-Resets :
      (w : Worker) (info : ActiveWindowInfo)
      → IsSound w
      → Resets w (poll_reconciled env caps w info)
  unfolding poll_reconciled
  poll_reconciled-Resets w info h =
      let w2 = see_process env caps w info.process_id in
      let w3 = see_title env caps w2 info.title info.window_id in
      let r3 = Keeps-Resets w w w3 (same env caps w h) (
        Keeps-trans (see_process-Keeps env caps w info.process_id)
          (see_title-Keeps env caps w2 info.title info.window_id)) in
      let w5 = settled env caps (reconciled env caps (poll_window env caps w3 info)) in
      Keeps-Resets w w5 _
        (record { sound = record { lock = r3.sound.lock; waits = refl }; seq = r3.seq })
        (schedule_emit-Keeps env caps 0 w5)

  poll_state-Resets :
      (w : Worker) (info : ActiveWindowInfo) → IsSound w → Resets w (poll_state env caps w info)
  unfolding poll_state
  poll_state-Resets w info h =
      let w1 = if w.poll_lock_active then recovered env caps w info else w in
      let r =
        if-Resets w (recovered env caps w info) w w.poll_lock_active (recovered-Resets w info h)
          (same env caps w h) in
      if-Resets w (poll_reconciled env caps w1 info) w1
        (w1.awaiting_poll_reconcile && str_eq w1.state.app_name info.app_name)
        (Resets-trans env caps w w1 _ r (poll_reconciled-Resets w1 info r.sound)) r

  locked-Goes : (w : Worker) → IsSound w → Goes (Z env caps) w (locked env caps w)
  unfolding locked emit_loginwindow_focus
  locked-Goes w h =
      let w1 = record w {
        poll_lock_active = true;
        poll_lock_since = some (env.instant w.caches.queries);
        caches = record w.caches { queries = w.caches.queries + 1 };
      } in
      if_elim (Goes (Z env caps) w) (is_login_app w.state.app_name)
        (emit_loginwindow_focus env caps w1) (w1, [])
        (λ _. record {
          sound = record { lock = refl; waits = h.waits };
          shown = (inr (record { app = refl; process = refl; id = refl }), tt);
          counted = omega arith;
        })
        λ _. record {
          sound = record { lock = refl; waits = h.waits };
          shown = tt;
          counted = omega arith;
        }

  pair-Goes :
      (w : Worker) (r : Worker × List WindowFocusInfo)
      → Goes (Z env caps) w r
      → P env caps w (handled_pair env caps r)
  pair-Goes w (v, out) g = g

  on_poll-Goes :
      (w : Worker) (polled : Polled) → IsSound w → P env caps w (on_poll env caps w polled)
  unfolding on_poll
  on_poll-Goes w (Polled.window info) h =
      let s = poll_state-Resets w info h in
      let t = Keeps-Resets w _ _ s (poll_title-Keeps env caps (poll_state env caps w info) info) in
      if_elim (P env caps w) (of_another_app env caps w info) (Outcome.continued w) _
        (λ _. quiet env caps w w (same env caps w h)) λ _. silent env caps w _ t
  on_poll-Goes w (Polled.failed is_lock_error) h = pair-Goes w _ (
      if_elim (Goes (Z env caps) w) (is_lock_error && not w.poll_lock_active) (locked env caps w)
        (w, []) (λ _. locked-Goes w h) λ _. quiet env caps w w (same env caps w h))

  resolved-Resets :
      (w : Worker) (d : ReconcileDecision) → IsSound w → Resets w (resolved env caps w d)
  unfolding resolved
  resolved-Resets w (ReconcileDecision.accept value source) h = record {
    sound = record { lock = h.lock; waits = h.waits };
    seq = refl;
  }
  resolved-Resets w (ReconcileDecision.hold value) h =
      see_title-Resets env caps w value w.state.window_id h

  resolve-Resets :
      (w : Worker) (o : Option String)
      → o ≡ w.pending_window_title
      → IsSound w
      → Resets w (resolve env caps w o)
  unfolding resolve
  resolve-Resets w none e h = same env caps w h
  resolve-Resets w (some title) e h =
      let asked =
        reconcile_window_title env w.state.app_name title w.last_app_before_change w.caches in
      let v = record w { caches = asked.0; pending_window_title = none } in
      let r = resolved-Resets v asked.1 (record { lock = h.lock; waits = refl }) in
      let t =
        Keeps-Resets v (resolved env caps v asked.1) _ r
          (touch_window-Keeps env caps (resolved env caps v asked.1)) in
      record { sound = record { lock = t.sound.lock; waits = t.sound.waits }; seq = t.seq }

  resolved_taken :
      (w : Worker) (d : ReconcileDecision)
      → (resolved env caps w d).pending_window_title ≡ w.pending_window_title
  unfolding resolved
  resolved_taken w (ReconcileDecision.accept value source) = refl
  resolved_taken w (ReconcileDecision.hold value) =
      (see_title-Keeps env caps w value w.state.window_id).pending

  resolve_taken :
      (w : Worker) (o : Option String)
      → o ≡ w.pending_window_title
      → (resolve env caps w o).pending_window_title ≡ none
  unfolding resolve
  resolve_taken w none e = sym e
  resolve_taken w (some title) e =
      let asked =
        reconcile_window_title env w.state.app_name title w.last_app_before_change w.caches in
      let v = record w { caches = asked.0; pending_window_title = none } in
      (touch_window-Keeps env caps (resolved env caps v asked.1)).pending ∙ resolved_taken v asked.1

  coalesced-Resets : (w : Worker) → IsSound w → Resets w (coalesced env caps w)
  unfolding coalesced
  coalesced-Resets w h =
      let v = resolve env caps w w.pending_window_title in
      let r = resolve-Resets w w.pending_window_title refl h in
      let w1 = record v { coalesce_until = none; reconcile_active = false } in
      let r1 : Resets w w1 = record {
        sound = record {
          lock = r.sound.lock;
          waits = rw (resolve_taken w w.pending_window_title refl) refl;
        };
        seq = r.seq;
      } in
      if-Resets w (schedule_emit env caps 0 w1) w1 (emittable env caps w1)
        (Keeps-Resets w w1 _ r1 (schedule_emit-Keeps env caps 0 w1)) r1

  check_coalesce-Resets :
      (w : Worker) (o : Option ℕ) → IsSound w → Resets w (check_coalesce env caps w o)
  unfolding check_coalesce
  check_coalesce-Resets w none h = same env caps w h
  check_coalesce-Resets w (some until) h =
      let w1 = record w { caches = record w.caches { queries = w.caches.queries + 1 } } in
      let r1 : Resets w w1 = record {
        sound = record { lock = h.lock; waits = h.waits };
        seq = refl;
      } in
      if-Resets w (coalesced env caps w1) w1 (leb until (env.instant w.caches.queries))
        (Resets-trans env caps w w1 _ r1 (coalesced-Resets w1 r1.sound)) r1

  check_scheduled-Goes :
      (w : Worker) (o : Option ℕ) → IsSound w → Goes (Z env caps) w (check_scheduled env caps w o)
  unfolding check_scheduled
  check_scheduled-Goes w none h = quiet env caps w w (same env caps w h)
  check_scheduled-Goes w (some when) h =
      let w1 = record w { caches = record w.caches { queries = w.caches.queries + 1 } } in
      let r1 : Resets w w1 = record {
        sound = record { lock = h.lock; waits = h.waits };
        seq = refl;
      } in
      if_elim (Goes (Z env caps) w)
        (leb when (env.instant w.caches.queries) && emittable env caps w1) _ (w1, [])
        (λ due.
          let g = emit-Goes env caps w w1 r1 (ground (arith, due)) in
          record {
            sound = record { lock = g.sound.lock; waits = g.sound.waits };
            shown = g.shown;
            counted = g.counted;
          })
        λ _. quiet env caps w w1 r1

  checks-Goes : (w : Worker) → IsSound w → Goes (Z env caps) w (checks env caps w)
  unfolding checks
  checks-Goes w h =
      let r = check_coalesce-Resets w w.coalesce_until h in
      after env caps w _ _ r
        (check_scheduled-Goes (check_coalesce env caps w w.coalesce_until) _ r.sound)

  on_message-Goes :
      (w : Worker) (msg : FocusMsg) → IsSound w → P env caps w (on_message env caps w msg)
  unfolding on_message
  on_message-Goes w (FocusMsg.app_change pid app_name) h =
      on_app_change-Goes env caps w pid app_name h
  on_message-Goes w (FocusMsg.window_change title) h = on_window_change-Goes env caps w title h
  on_message-Goes w (FocusMsg.app_change_info info) h = on_app_change_info-Goes env caps w info h
  on_message-Goes w (FocusMsg.window_change_info info) h =
      on_window_change_info-Goes env caps w info h
  on_message-Goes w FocusMsg.stop h = quiet env caps w w (same env caps w h)

  on_received-Goes :
      (w : Worker) (poll_value : ℕ) (r : Received)
      → IsSound w
      → P env caps w (on_received env caps w poll_value r)
  unfolding on_received
  on_received-Goes w poll_value (Received.message msg) h = on_message-Goes w msg h
  on_received-Goes w poll_value (Received.timeout polled) h =
      if_elim (P env caps w) (poll_value == poll_suspend_ms) (Outcome.continued w) _
        (λ _. quiet env caps w w (same env caps w h)) λ _. on_poll-Goes w polled h
  on_received-Goes w poll_value Received.disconnected h = quiet env caps w w (same env caps w h)

  finish-Goes :
      (w : Worker) (o : Outcome) → P env caps w o → Goes (Z env caps) w (finish env caps o)
  finish-Goes w (Outcome.continued v) g = g
  finish-Goes w (Outcome.handled v out) g =
      Goes-append (Z env caps) w v _ out _ g (checks-Goes v g.sound)

  run-Goes :
      (w : Worker) (passes : List Pass)
      → IsSound w
      → Goes (Z env caps) w (run_focus_worker env caps w passes)
  unfolding run_focus_worker pass
  run-Goes w [] h = quiet env caps w w (same env caps w h)
  run-Goes w (p ∷ passes) h =
      let g =
        finish-Goes w (on_received env caps w p.poll_value p.received)
          (on_received-Goes w p.poll_value p.received h) in
      let r = pass env caps w p.poll_value p.received in
      if_elim (Goes (Z env caps) w) (p.should_stop || ends_received env caps p.received) (w, []) _
        (λ _. quiet env caps w w (same env caps w h))
        λ _. Goes-append (Z env caps) w r.0 _ r.1 _ g (run-Goes r.0 passes g.sound)

  -- Whatever is received and polled, from the start: each focus change that the worker hands over is
  -- a window, with the name of its app, a title, a process and its start, and with an id unless a 0 is
  -- allowed; or the login window of a lock. The sequence number counts the windows, on 64 bits. At
  -- the end a lock that is on has the time of its start, and a title that waits has a time at which
  -- the wait ends.
  pub run_focus_worker-Shows :
      (passes : List Pass)
      → let r = run_focus_worker env caps (start env caps) passes in
        All (IsShown caps.focus_allow_zero_window_id) r.1
        × (r.0.emit_seq % 2 ^ 64 ≡ windows_in r.1 % 2 ^ 64)
        × IsSound r.0
  unfolding start
  run_focus_worker-Shows passes =
      let g = run-Goes (start env caps) passes (record { lock = refl; waits = refl }) in
      (g.shown, omega (arith, g.counted), g.sound)
