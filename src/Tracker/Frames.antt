-- ===== src/Tracker/Frames.antt =====
-- What the steps of the focus worker leave alone: the count of what is shown, the lock, the coalescing
-- and the title that waits.
use kronical.Prelude.{
  ℕ, ◌≡◌, refl, ◌∙◌, String, Bool, true, false, Option, none, some, if◌then◌else◌,
}
use kronical.Prelude.Int.{ℤ, same_ℤ}
use kronical.Prelude.{arith}
use kronical.Prelude.Text.{str_eq}
use kronical.Tracker.{is_complete, FocusCacheCaps, ActiveWindowInfo}
use kronical.Tracker.Titles.{Environment}
use kronical.Tracker.Worker.{
  Worker, see_title, see_process, touch_window, take_pending, new_window, update_window,
  schedule_emit, schedule_if_complete,
}
use kronical.Tracker.Loop.{switched, other_process, retitled, compare_title, keep_title, poll_title}

pub record Keeps (w w' : Worker) : Type 0 where
  pub seq : w'.emit_seq ≡ w.emit_seq
  pub active : w'.poll_lock_active ≡ w.poll_lock_active
  pub since : w'.poll_lock_since ≡ w.poll_lock_since
  pub coalesce : w'.coalesce_until ≡ w.coalesce_until
  pub pending : w'.pending_window_title ≡ w.pending_window_title

pub kept : {w : Worker} → Keeps w w
kept = record { seq = refl; active = refl; since = refl; coalesce = refl; pending = refl }

pub Keeps-trans : {u v w : Worker} → Keeps u v → Keeps v w → Keeps u w
Keeps-trans a b = record {
  seq = b.seq ∙ a.seq;
  active = b.active ∙ a.active;
  since = b.since ∙ a.since;
  coalesce = b.coalesce ∙ a.coalesce;
  pending = b.pending ∙ a.pending;
}

module _ (env : Environment) (caps : FocusCacheCaps) where
  pub see_title-Keeps :
      (w : Worker) (title : String) (id : ℕ) → Keeps w (see_title env caps w title id)
  unfolding see_title
  see_title-Keeps w title id = ground arith

  pub see_process-Keeps : (w : Worker) (pid : ℤ) → Keeps w (see_process env caps w pid)
  unfolding see_process
  see_process-Keeps w pid = ground arith

  pub touch_window-Keeps : (w : Worker) → Keeps w (touch_window env caps w)
  unfolding touch_window
  touch_window-Keeps w = ground arith

  pub take_pending-Keeps : (w : Worker) (o : Option String) → Keeps w (take_pending env caps w o)
  unfolding take_pending
  take_pending-Keeps w none = ground arith
  take_pending-Keeps w (some title) = ground arith

  pub new_window-Keeps : (w : Worker) (id : ℕ) → Keeps w (new_window env caps w id)
  unfolding new_window
  new_window-Keeps w id = ground arith

  pub update_window-Keeps : (w : Worker) (id : ℕ) → Keeps w (update_window env caps w id)
  unfolding update_window
  update_window-Keeps w id = ground arith

  pub schedule_emit-Keeps : (ms : ℕ) (w : Worker) → Keeps w (schedule_emit env caps ms w)
  unfolding schedule_emit
  schedule_emit-Keeps ms w = ground arith

  pub if-Keeps :
      (w a b : Worker) (test : Bool) → Keeps w a → Keeps w b → Keeps w (if test then a else b)
  if-Keeps w a b true h k = h
  if-Keeps w a b false h k = k

  pub schedule_if_complete-Keeps : (w : Worker) → Keeps w (schedule_if_complete env caps w)
  unfolding schedule_if_complete
  schedule_if_complete-Keeps w =
      if-Keeps w (schedule_emit env caps 0 w) w (is_complete w.state) (schedule_emit-Keeps 0 w) kept

  switched-Keeps : (w : Worker) (info : ActiveWindowInfo) → Keeps w (switched env caps w info)
  unfolding switched
  switched-Keeps w info = ground arith

  other_process-Keeps :
      (w : Worker) (info : ActiveWindowInfo) → Keeps w (other_process env caps w info)
  other_process-Keeps w info =
      if-Keeps w w (switched env caps w info) (same_ℤ w.state.pid info.process_id) kept
        (switched-Keeps w info)

  retitled-Keeps : (w : Worker) (info : ActiveWindowInfo) → Keeps w (retitled env caps w info)
  unfolding retitled
  retitled-Keeps w info = Keeps-trans (other_process-Keeps w info) (
      Keeps-trans (see_title-Keeps (other_process env caps w info) info.title info.window_id)
        (Keeps-trans (update_window-Keeps _ info.window_id) (schedule_if_complete-Keeps _)))

  compare_title-Keeps :
      (w : Worker) (info : ActiveWindowInfo) (o : Option String)
      → Keeps w (compare_title env caps w info o)
  unfolding compare_title
  compare_title-Keeps w info none = kept
  compare_title-Keeps w info (some last_title) =
      if-Keeps w w (retitled env caps w info) (str_eq last_title info.title) kept
        (retitled-Keeps w info)

  pub poll_title-Keeps :
      (w : Worker) (info : ActiveWindowInfo) → Keeps w (poll_title env caps w info)
  unfolding poll_title keep_title
  poll_title-Keeps w info =
      let c = compare_title-Keeps _ info _ in
      record {
        seq = c.seq;
        active = c.active;
        since = c.since;
        coalesce = c.coalesce;
        pending = c.pending;
      }
