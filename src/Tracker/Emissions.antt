-- ===== src/Tracker/Emissions.antt =====
-- What the focus worker hands to its callback, over any run.
use kronical.Prelude.{
  ℕ, ◌+◌, ◌%◌, ◌^◌, ◌<◌, ◌≡◌, ◌≢◌, refl, ◌∙◌, Bool, true, false, not, ◌&&◌, ◌||◌, none, List, [],
  ◌∷◌, ◌⊎◌, inl, All, arith, if_elim, if◌then◌else◌,
}
use kronical.Prelude.Int.{pos, ltb_ℤ}
use kronical.Prelude.Text.{eq_iff}
use kronical.Events.{WindowFocusInfo}
use kronical.Tracker.{
  FocusCacheCaps, FocusState, loginwindow_app, loginwindow_window_id, can_emit,
  to_window_focus_info,
}
use kronical.Tracker.Frames.{Keeps, touch_window-Keeps, take_pending-Keeps}
use kronical.Tracker.{is_empty_text}
use kronical.Tracker.Titles.{Environment}
use kronical.Tracker.Worker.{
  is_some, emit_if_complete, take_pending, touch_window, Worker, Outcome, emit, emittable,
  flush_app,
}

-- A window of an app, known by its process; a window id of 0 only where it is allowed.
pub record IsWindow (allow_zero : Bool) (i : WindowFocusInfo) : Type 0 where
  pub app : i.app_name ≢ ""
  pub title : i.window_title ≢ ""
  pub process : ltb_ℤ (pos 0) i.pid ≡ true
  pub started : 0 < i.process_start_time
  pub id : (allow_zero ≡ true) ⊎ (0 < i.window_id)

-- The login window that a lock stands for.
pub record IsLock (i : WindowFocusInfo) : Type 0 where
  pub app : i.app_name ≡ loginwindow_app
  pub process : i.pid ≡ pos 0
  pub id : i.window_id ≡ loginwindow_window_id

abbrev pub IsShown : Bool → WindowFocusInfo → Type 0
IsShown allow_zero i = IsWindow allow_zero i ⊎ IsLock i

can_emit-IsWindow :
    (allow_zero : Bool) (s : FocusState)
    → can_emit allow_zero s ≡ true
    → IsWindow allow_zero (to_window_focus_info s)
unfolding can_emit
can_emit-IsWindow allow_zero s h = record {
  app = ground (arith, eq_iff s.app_name "");
  title = ground (arith, eq_iff s.window_title "");
  process = ground arith;
  started = ground arith;
  id = ground arith;
}

-- How many windows are among them: a lock has no process.
abbrev pub windows_in : List WindowFocusInfo → ℕ
windows_in [] = 0
windows_in (i ∷ out) = (if ltb_ℤ (pos 0) i.pid then 1 else 0) + windows_in out

-- A lock has the time of its start, and a title waits only until the coalescing ends.
pub record IsSound (w : Worker) : Type 0 where
  pub lock : is_some w.poll_lock_since ≡ w.poll_lock_active
  pub waits : (is_some w.pending_window_title && not (is_some w.coalesce_until)) ≡ false

-- A step: what it hands over, how it counts it, and the state after it.
pub record Goes (allow_zero : Bool) (w : Worker) (r : Worker × List WindowFocusInfo) : Type 0 where
  pub sound : IsSound r.0
  pub shown : All (IsShown allow_zero) r.1
  pub counted : r.0.emit_seq % 2 ^ 64 ≡ (w.emit_seq + windows_in r.1) % 2 ^ 64

abbrev pub GoesTo : Bool → Worker → Outcome → Type 0
GoesTo allow_zero w (Outcome.continued w') = Goes allow_zero w (w', [])
GoesTo allow_zero w (Outcome.handled w' out) = Goes allow_zero w (w', out)

-- A state whose lock or title is settled anew, with the count as it was.
pub record Resets (w w' : Worker) : Type 0 where
  pub sound : IsSound w'
  pub seq : w'.emit_seq ≡ w.emit_seq

pub Keeps-Resets : (u v w : Worker) → Resets u v → Keeps v w → Resets u w
Keeps-Resets u v w r k = record {
  sound = record {
    lock = ground (arith, r.sound.lock, k.since, k.active);
    waits = ground (arith, r.sound.waits, k.pending, k.coalesce);
  };
  seq = k.seq ∙ r.seq;
}

pub if-Resets :
    (w a b : Worker) (test : Bool) → Resets w a → Resets w b → Resets w (if test then a else b)
if-Resets w a b true h k = h
if-Resets w a b false h k = k

module _ (env : Environment) (caps : FocusCacheCaps) where
  abbrev pub Gone : Worker → Worker × List WindowFocusInfo → Type 0
  Gone w r = Goes caps.focus_allow_zero_window_id w r

  pub quiet : (w w' : Worker) → Resets w w' → Gone w (w', [])
  quiet w w' r = record { sound = r.sound; shown = tt; counted = omega (arith, r.seq) }

  pub same : (w : Worker) → IsSound w → Resets w w
  same w h = record { sound = h; seq = refl }

  pub emit-Goes :
      (w w' : Worker) → Resets w w' → emittable env caps w' ≡ true → Gone w (emit env caps w')
  unfolding emit
  emit-Goes w w' r h =
      let shown = can_emit-IsWindow caps.focus_allow_zero_window_id w'.state h in
      record {
        sound = record { lock = r.sound.lock; waits = r.sound.waits };
        shown = (inl shown, tt);
        counted = rw shown.process (omega (arith, r.seq));
      }

  pub flush_app-Goes : (w : Worker) → IsSound w → Gone w (flush_app env caps w)
  unfolding flush_app emit_if_complete
  flush_app-Goes w h =
      let taken = record w { pending_window_title = none } in
      let r : Resets w taken = record {
        sound = record { lock = h.lock; waits = refl };
        seq = refl;
      } in
      let p = take_pending env caps taken w.pending_window_title in
      let t = touch_window env caps p in
      let r' =
        Keeps-Resets w p t
          (Keeps-Resets w taken p r (take_pending-Keeps env caps taken w.pending_window_title))
          (touch_window-Keeps env caps p) in
      if_elim (Gone w) (is_some w.pending_window_title || not (is_empty_text w.state.window_title))
        (emit_if_complete env caps t) (taken, [])
        (λ _.
          if_elim (Gone w) (emittable env caps t) (emit env caps t) (t, []) (emit-Goes w t r')
            (λ _. quiet w t r'))
        λ _. quiet w taken r
