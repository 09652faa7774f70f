-- ===== src/Tracker/Messages.antt =====
-- What each message of the focus worker does to its state, and what it hands over.
use kronical.Prelude.{
  ℕ, ◌+◌, ◌≡◌, refl, sym, ap, ◌∙◌, String, Bool, true, false, ◌&&◌, ◌||◌, Option, none, some, List,
  [], ◌∷◌, ◌++◌, inl, inr, All-append, arith, if_elim, if◌then◌else◌, Bool-cases, ltb,
}
use kronical.Prelude.Int.{ℤ, same_ℤ}
use kronical.Prelude.Text.{str_eq}
use kronical.Events.{WindowFocusInfo}
use kronical.Tracker.{
  FocusCacheCaps, ActiveWindowInfo, ReconcileDecision, is_complete, is_login_app, is_empty_text,
}
use kronical.Tracker.Titles.{Environment, record_weak_title, reconcile_window_title}
use kronical.Tracker.Frames.{
  Keeps, Keeps-trans, see_title-Keeps, see_process-Keeps, touch_window-Keeps, new_window-Keeps,
  update_window-Keeps, schedule_emit-Keeps, schedule_if_complete-Keeps,
}
use kronical.Tracker.Worker.{
  Worker, Outcome, is_some, unlocked, see_title, see_process, touch_window, coalescing,
  unless_login, new_app, app_entered, enter_app, leaving, then_enter, flush_app, schedule_emit,
  schedule_if_complete, set_title, window_applied, hold_title, on_decision, reconcile_change,
  reconcile_or_hold, on_app_change, on_window_change, on_app_change_info, on_window_change_info,
  settled, named, reconciled, window_id_of, of_another_app,
}
use kronical.Tracker.Emissions.{
  IsSound, Goes, GoesTo, Resets, IsShown, windows_in, Keeps-Resets, if-Resets, quiet, same,
  flush_app-Goes,
}

pub windows_in-append :
    (a b : List WindowFocusInfo) → windows_in (a ++ b) ≡ windows_in a + windows_in b
windows_in-append [] b = omega arith
windows_in-append (i ∷ a) b = omega (arith, windows_in-append a b)

-- Two steps in a row.
pub Goes-append :
    (z : Bool) (u v w : Worker) (a b : List WindowFocusInfo)
    → Goes z u (v, a)
    → Goes z v (w, b)
    → Goes z u (w, a ++ b)
Goes-append z u v w a b g h = record {
  sound = h.sound;
  shown = All-append (IsShown z) a b g.shown h.shown;
  counted = omega (arith, g.counted, h.counted, windows_in-append a b);
}

module _ (env : Environment) (caps : FocusCacheCaps) where
  abbrev pub P : Worker → Outcome → Type 0
  P = GoesTo caps.focus_allow_zero_window_id

  abbrev pub Z : Bool
  Z = caps.focus_allow_zero_window_id

  pub silent : (w w' : Worker) → Resets w w' → P w (Outcome.handled w' [])
  silent w w' r = quiet env caps w w' r

  -- Each way to settle the lock.
  unless_login-Resets :
      (w : Worker) (app_name : String) → IsSound w → Resets w (unless_login app_name w)
  unless_login-Resets w app_name h =
      if-Resets w w (unlocked w) (is_login_app app_name) (same env caps w h)
        (record { sound = record { lock = refl; waits = h.waits }; seq = refl })

  new_app-Resets :
      (w : Worker) (app_name : String)
      → IsSound w
      → Resets w (new_app env caps (coalescing env caps w) app_name)
  unfolding new_app coalescing
  new_app-Resets w app_name h = ground (arith, h.lock)

  app_entered-Keeps : (w : Worker) → Keeps w (app_entered env caps w)
  unfolding app_entered
  app_entered-Keeps w = ground arith

  enter_app-Resets :
      (w : Worker) (pid : ℤ) (app_name : String)
      → IsSound w
      → Resets w (enter_app env caps w pid app_name)
  unfolding enter_app
  enter_app-Resets w pid app_name h =
      let u = unless_login-Resets w app_name h in
      let v = new_app-Resets (unless_login app_name w) app_name u.sound in
      let w1 = new_app env caps (coalescing env caps (unless_login app_name w)) app_name in
      let w2 = see_process env caps w1 pid in
      Keeps-Resets w w1 _ (record { sound = v.sound; seq = v.seq ∙ u.seq })
        (Keeps-trans (see_process-Keeps env caps w1 pid) (
          Keeps-trans (app_entered-Keeps w2)
            (schedule_emit-Keeps env caps _ (app_entered env caps w2))))

  leaving-Resets : (w : Worker) → IsSound w → Resets w (leaving env caps w)
  leaving-Resets w h = record { sound = record { lock = h.lock; waits = h.waits }; seq = refl }

  pub after :
      (w w' : Worker) (r : Worker × List WindowFocusInfo) → Resets w w' → Goes Z w' r → Goes Z w r
  after w w' r s g = record {
    sound = g.sound;
    shown = g.shown;
    counted = omega (arith, g.counted, s.seq);
  }

  then_enter-Goes :
      (w : Worker) (pid : ℤ) (app_name : String) (r : Worker × List WindowFocusInfo)
      → Goes Z w r
      → P w (then_enter env caps pid app_name r)
  then_enter-Goes w pid app_name (v, out) g =
      let e = enter_app-Resets v pid app_name g.sound in
      record { sound = e.sound; shown = g.shown; counted = omega (arith, g.counted, e.seq) }

  pub on_app_change-Goes :
      (w : Worker) (pid : ℤ) (app_name : String)
      → IsSound w
      → P w (on_app_change env caps w pid app_name)
  unfolding on_app_change
  on_app_change-Goes w pid app_name h =
      let l = leaving-Resets w h in
      let v = leaving env caps w in
      if_elim (P w) (str_eq w.state.app_name app_name && same_ℤ w.state.pid pid)
        (Outcome.handled w []) _ (λ _. silent w w (same env caps w h))
        λ _. then_enter-Goes w pid app_name _ (
          if_elim (Goes Z w) (is_some w.coalesce_until) (flush_app env caps v) (v, [])
            (λ _. after w v _ l (flush_app-Goes env caps v l.sound)) λ _. quiet env caps w v l)

  window_applied-Resets : (w : Worker) → IsSound w → Resets w (window_applied env caps w)
  unfolding window_applied
  window_applied-Resets w h =
      let t = touch_window env caps w in
      let s = schedule_emit env caps 100 t in
      let r = Keeps-Resets w w t (same env caps w h) (touch_window-Keeps env caps w) in
      let r' = Keeps-Resets w t s r (schedule_emit-Keeps env caps 100 t) in
      if-Resets w (record s { reconcile_active = false }) t (is_complete t.state)
        (record { sound = record { lock = r'.sound.lock; waits = r'.sound.waits }; seq = r'.seq }) r

  pub see_title-Resets :
      (w : Worker) (title : String) (id : ℕ) → IsSound w → Resets w (see_title env caps w title id)
  see_title-Resets w title id h =
      Keeps-Resets w w _ (same env caps w h) (see_title-Keeps env caps w title id)

  -- A title waits only where the coalescing has an end.
  hold_title-Resets :
      (w : Worker) (title : String)
      → IsSound w
      → is_some w.coalesce_until ≡ true
      → Resets w (hold_title env caps w title)
  unfolding hold_title
  hold_title-Resets w title h c = record {
    sound = record { lock = h.lock; waits = rw c refl };
    seq = refl;
  }

  on_decision-Goes :
      (w : Worker) (d : ReconcileDecision) → IsSound w → P w (on_decision env caps w d)
  unfolding on_decision
  on_decision-Goes w (ReconcileDecision.accept value source) h =
      let v =
        record (set_title w
          (record_weak_title env w.state.app_name value w.state.window_id w.caches) value) {
            reconcile_active = false;
          } in
      let r = window_applied-Resets v (record { lock = h.lock; waits = h.waits }) in
      silent w _ (record { sound = r.sound; seq = r.seq })
  on_decision-Goes w (ReconcileDecision.hold value) h =
      elim (Bool-cases (is_some w.coalesce_until)) [
        | inl ends ↦ rw ends (quiet env caps w _ (hold_title-Resets w value h ends))
        | inr none_set ↦
            let s = see_title-Resets w value w.state.window_id h in
            let v = record (see_title env caps w value w.state.window_id) {
              reconcile_active = false;
            } in
            let r =
              window_applied-Resets v (record { lock = s.sound.lock; waits = s.sound.waits }) in
            rw none_set (silent w _ (record { sound = r.sound; seq = r.seq ∙ s.seq }))
      ]

  -- A step counts from where the count was.
  pub after_all : (w w' : Worker) (o : Outcome) → Resets w w' → P w' o → P w o
  after_all w w' (Outcome.continued v) r g = after w w' (v, []) r g
  after_all w w' (Outcome.handled v out) r g = after w w' (v, out) r g

  reconcile_change-Goes :
      (w : Worker) (title : String) → IsSound w → P w (reconcile_change env caps w title)
  unfolding reconcile_change
  reconcile_change-Goes w title h =
      let asked =
        reconcile_window_title env w.state.app_name title w.last_app_before_change w.caches in
      let v = record w { caches = asked.0 } in
      let k : IsSound v = record { lock = h.lock; waits = h.waits } in
      after_all w v (on_decision env caps v asked.1) (record { sound = k; seq = refl })
        (on_decision-Goes v asked.1 k)

  reconcile_or_hold-Goes :
      (w : Worker) (title : String)
      → IsSound w
      → P w (reconcile_or_hold env caps w title w.coalesce_until)
  unfolding reconcile_or_hold
  reconcile_or_hold-Goes w title h = waiting w.coalesce_until refl
    where
      waiting : (o : Option ℕ) → o ≡ w.coalesce_until → P w (reconcile_or_hold env caps w title o)
      waiting none e = reconcile_change-Goes w title h
      waiting (some until) e =
          let v = record w { caches = record w.caches { queries = w.caches.queries + 1 } } in
          let k : IsSound v = record { lock = h.lock; waits = h.waits } in
          let r : Resets w v = record { sound = k; seq = refl } in
          if_elim (P w) (ltb (env.instant w.caches.queries) until)
            (Outcome.continued (hold_title env caps v title)) (reconcile_change env caps v title)
            (λ _.
              after_all w v (Outcome.continued (hold_title env caps v title)) r
                (quiet env caps v _ (hold_title-Resets v title k (ap is_some (sym e)))))
            λ _.
              after_all w v (reconcile_change env caps v title) r (reconcile_change-Goes v title k)

  pub on_window_change-Goes :
      (w : Worker) (title : String) → IsSound w → P w (on_window_change env caps w title)
  unfolding on_window_change
  on_window_change-Goes w title h =
      let s = see_title-Resets w title w.state.window_id h in
      let a = window_applied-Resets (see_title env caps w title w.state.window_id) s.sound in
      let plain =
        Outcome.handled (window_applied env caps (see_title env caps w title w.state.window_id))
          [] in
      if_elim (P w) (is_empty_text title || str_eq w.state.window_title title)
        (Outcome.handled w []) _ (λ _. silent w w (same env caps w h))
        λ _.
          if_elim (P w) w.reconcile_active (reconcile_or_hold env caps w title w.coalesce_until)
            plain (λ _. reconcile_or_hold-Goes w title h)
            λ _. silent w _ (record { sound = a.sound; seq = a.seq ∙ s.seq })

  -- What names the app and its process, from a state in which no title waits.
  pub settled-Resets : (w : Worker) → IsSound w → Resets w (settled env caps w)
  settled-Resets w h = record { sound = record { lock = h.lock; waits = refl }; seq = refl }

  named-Resets :
      (w : Worker) (app_name : String) (pid : ℤ)
      → IsSound w
      → Resets w (see_process env caps (named env caps w app_name) pid)
  named-Resets w app_name pid h =
      let v = record w { state = record w.state { app_name = app_name } } in
      let u = unless_login-Resets v app_name (record { lock = h.lock; waits = h.waits }) in
      Keeps-Resets w (unless_login app_name v) _ (record { sound = u.sound; seq = u.seq })
        (see_process-Keeps env caps (unless_login app_name v) pid)

  -- The end of both: the window is known.
  pub known-Resets :
      (w w' : Worker)
      → Resets w w'
      → Resets w (schedule_if_complete env caps (reconciled env caps w'))
  known-Resets w w' r =
      let v = reconciled env caps w' in
      Keeps-Resets w v _
        (record { sound = record { lock = r.sound.lock; waits = r.sound.waits }; seq = r.seq })
        (schedule_if_complete-Keeps env caps v)

  pub Resets-trans : (u v w : Worker) → Resets u v → Resets v w → Resets u w
  Resets-trans u v w a b = record { sound = b.sound; seq = b.seq ∙ a.seq }

  pub on_app_change_info-Goes :
      (w : Worker) (info : ActiveWindowInfo) → IsSound w → P w (on_app_change_info env caps w info)
  unfolding on_app_change_info
  on_app_change_info-Goes w info h =
      let s = settled-Resets w h in
      let n = named-Resets (settled env caps w) info.app_name info.process_id s.sound in
      let w1 =
        see_process env caps (named env caps (settled env caps w) info.app_name) info.process_id in
      let w2 = see_title env caps w1 info.title info.window_id in
      let t = see_title-Resets w1 info.title info.window_id n.sound in
      let k =
        Keeps-Resets w1 w2 _ t (new_window-Keeps env caps w2 (window_id_of env caps w2 info)) in
      let all =
        Resets-trans w (settled env caps w) _ s
          (Resets-trans (settled env caps w) w1 _ n (known-Resets w1 _ k)) in
      if_elim (P w) (of_another_app env caps w info) (Outcome.continued w) _
        (λ _. quiet env caps w w (same env caps w h)) λ _. silent w _ all

  pub on_window_change_info-Goes :
      (w : Worker) (info : ActiveWindowInfo)
      → IsSound w
      → P w (on_window_change_info env caps w info)
  unfolding on_window_change_info
  on_window_change_info-Goes w info h =
      let w1 = settled env caps w in
      let s = settled-Resets w h in
      let p = see_process env caps (named env caps w1 info.app_name) info.process_id in
      let w2 = if same_ℤ w.state.pid info.process_id then w1 else p in
      let n =
        if-Resets w1 w1 p (same_ℤ w.state.pid info.process_id) (same env caps w1 s.sound)
          (named-Resets w1 info.app_name info.process_id s.sound) in
      let w3 = see_title env caps w2 info.title info.window_id in
      let t = see_title-Resets w2 info.title info.window_id n.sound in
      let k =
        Keeps-Resets w2 w3 _ t (update_window-Keeps env caps w3 (window_id_of env caps w3 info)) in
      let all = Resets-trans w w1 _ s (Resets-trans w1 w2 _ n (known-Resets w2 _ k)) in
      if_elim (P w) (of_another_app env caps w info) (Outcome.continued w) _
        (λ _. quiet env caps w w (same env caps w h)) λ _. silent w _ all
