-- ===== src/Examples/Tracking.antt =====
-- The focus worker at concrete inputs: each query of a clock is 20 milliseconds after the one before,
-- and every process is found.
use kronical.Prelude.{
  ◌+◌, ◌*◌, ◌%◌, ◌^◌, ◌≡◌, ◌⊎◌, refl, String, true, false, ◌&&◌, none, some, List, [], ◌∷◌, All,
  arith, map,
}
use kronical.Prelude.Classes.{string_eq}
use kronical.Prelude.Int.{pos}
use kronical.Prelude.Text.{str_eq, eq_iff, eq_ignore_ascii_case}
use kronical.Common.Lru.Bounds.{IsValid}
use kronical.Common.Lru.{any_entry_matches, get_cloned, put}
use kronical.Time.{millisecond}
use kronical.Tracker.{
  FocusCacheCaps, FocusMsg, ActiveWindowInfo, unknown_window_title, is_login_app,
  to_window_focus_info, can_emit,
}
use kronical.Tracker.Titles.{
  Environment, Caches, matches_previous, validate_title_with_weak, reconcile_window_title,
  record_weak_title,
}
use kronical.Tracker.Worker.{
  Worker, Outcome, Polled, start, on_window_change, on_app_change, hold_title, emit,
  emit_if_complete, flush_app, take_pending, touch_window,
}
use kronical.Tracker.Loop.{Pass, Received, pass, run_focus_worker}
use kronical.Tracker.Emissions.{IsShown, IsSound, windows_in}
use kronical.Tracker.Runs.{run_focus_worker-Shows}
use kronical.Tracker.Faults.{outs, IsUnknown, held, suspended, change_loses_title, suspended_stalls}
use kronical.Tracker.Owners.{
  Checked, title_of, validate_title-Checked, reconcile_window_title-Checked,
}

abbrev system : Environment
system = record {
  instant = λ n. n * (20 * millisecond);
  utc = λ n. 1_000_000_000_000 + n * (20 * millisecond);
  process_start = λ n pid. some 5;
}

abbrev small_caps : FocusCacheCaps
small_caps = record {
  pid_cache_capacity = 4;
  title_cache_capacity = 4;
  title_cache_ttl_secs = 60;
  focus_window_coalesce_ms = 100;
  focus_allow_zero_window_id = false;
}

abbrev editor : ActiveWindowInfo
editor = record { title = "notes"; app_name = "Editor"; process_id = pos 7; window_id = 3 }

-- The window is told and a poll follows.
abbrev told : List Pass
told =
    record {
      should_stop = false;
      poll_value = 0;
      received = Received.message (FocusMsg.app_change_info editor);
    }
    ∷ record {
      should_stop = false;
      poll_value = 500;
      received = Received.timeout (Polled.failed false);
    }
    ∷ []

run_focus_worker-Shows_example :
    let r = run_focus_worker system small_caps (start system small_caps) told in
    All (IsShown false) r.1 × (r.0.emit_seq % 2 ^ 64 ≡ windows_in r.1 % 2 ^ 64) × IsSound r.0
run_focus_worker-Shows_example = run_focus_worker-Shows system small_caps told

-- An editor that was entered, whose titles are held until 10 seconds after the start.
abbrev entered : Worker
entered = record {
  state = record {
    app_name = "Editor";
    pid = pos 7;
    window_title = "";
    window_id = 3;
    window_instance_start = 1_000_000_000_000;
    process_start_time = 5;
    last_app_update = 0;
    last_window_update = 0;
  };
  caches = record {
    pid_cache = record { map = []; capacity = 4; ttl = none };
    last_titles = record { map = []; capacity = 4; ttl = none };
    last_app_window = record { map = []; capacity = 4; ttl = none };
    weak_app_window = record { map = []; capacity = 4; ttl = some 2_000_000_000 };
    queries = 3;
  };
  poll_lock_active = false;
  poll_lock_since = none;
  coalesce_until = some 10_000_000_000;
  pending_window_title = none;
  last_app_before_change = none;
  awaiting_poll_reconcile = false;
  reconcile_active = true;
  emit_seq = 0;
  scheduled_emit_at = none;
}

weak-IsValid : IsValid entered.caches.weak_app_window
weak-IsValid = record { distinct = tt; bounded = omega arith; positive = omega arith }

change_loses_title_example :
    (on_window_change system small_caps entered "notes"
      ≡ Outcome.continued (held system small_caps entered "notes"))
    × All IsUnknown (
        outs
          (on_app_change system small_caps (held system small_caps entered "notes") (pos 9) "Mail"))
unfolding eq_ignore_ascii_case
change_loses_title_example =
    change_loses_title system small_caps entered "notes" 10_000_000_000 (pos 9) "Mail" refl refl
      refl refl refl refl refl refl weak-IsValid tt refl

-- A placeholder is handed over there.
change_shows_placeholder :
    map {B = String × String}
      (λ i. (i.app_name, i.window_title))
      (outs
        (on_app_change system small_caps (held system small_caps entered "notes") (pos 9) "Mail"))
    ≡ ("Editor", "-") ∷ []
unfolding on_app_change hold_title flush_app emit_if_complete can_emit touch_window take_pending
    reconcile_window_title eq_ignore_ascii_case get_cloned record_weak_title put emit
change_shows_placeholder = refl

-- The editor with its title, to be handed over.
abbrev waiting : Worker
waiting = record entered {
  state = record entered.state { window_title = "notes" };
  coalesce_until = none;
  reconcile_active = false;
  scheduled_emit_at = some 0;
}

suspended_stalls_example :
    (run_focus_worker system small_caps waiting
        (map (suspended system small_caps) (Polled.window editor ∷ Polled.failed true ∷ []))
      ≡ (waiting, []))
    × ((pass system small_caps waiting 500 (Received.timeout (Polled.failed false))).1
        ≡ to_window_focus_info waiting.state ∷ [])
unfolding can_emit
suspended_stalls_example =
    suspended_stalls system small_caps waiting 0 500
      (Polled.window editor ∷ Polled.failed true ∷ []) refl refl refl refl (omega arith)

validate_title-Checked_example :
    let valid = (validate_title_with_weak system "Editor" "notes" entered.caches).1 in
    ((valid ≡ "notes") × Checked system "Editor" "notes" entered.caches)
    ⊎ (valid ≡ unknown_window_title)
validate_title-Checked_example =
    validate_title-Checked system "Editor" "notes" entered.caches refl
      λ e. ground (arith, eq_iff "notes" "-", e)

-- Mail had the title a moment ago.
abbrev of_mail : Caches
of_mail = record entered.caches {
  last_app_window = record { map = ("Mail", (("notes", 4), 0)) ∷ []; capacity = 4; ttl = none };
}

title_of_mail : (validate_title_with_weak system "Editor" "notes" of_mail).1 ≡ "-"
unfolding validate_title_with_weak get_cloned any_entry_matches
title_of_mail = refl

reconcile_window_title-Checked_example :
    let (c', previous) = matches_previous system (some "Mail") "inbox" of_mail in
    let decision = (reconcile_window_title system "Editor" "inbox" (some "Mail") of_mail).1 in
    (title_of system "Editor" "inbox" decision ≡ unknown_window_title)
    ⊎ ((title_of system "Editor" "inbox" decision ≡ "inbox")
        × ((is_login_app "Editor" && str_eq "inbox" "Login" ≡ true)
            ⊎ ((previous ≡ false) × Checked system "Editor" "inbox" c')))
reconcile_window_title-Checked_example =
    reconcile_window_title-Checked system "Editor" "inbox" (some "Mail") of_mail
