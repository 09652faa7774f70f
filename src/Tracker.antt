-- ===== src/Tracker.antt =====
-- The focus tracker (src/daemon/tracker/focus.rs): what the system's window hooks and its polling say
-- of the active window, as one stream of focus changes. Here its data: the settings, the state of the
-- focus and the messages. An `Instant` is a number of nanoseconds.
pub mod Titles
pub mod Worker
pub mod Loop
pub mod Frames
pub mod Emissions
pub mod Messages
pub mod Runs
pub mod Faults
pub mod Owners
use kronical.Prelude.{ℕ, ◌*◌, String, Bool, not, ◌&&◌, ◌||◌, ltb, ◌==◌, if◌then◌else◌}
use kronical.Prelude.Int.{ℤ, pos, ltb_ℤ}
use kronical.Prelude.Text.{str_eq, eq_ignore_ascii_case}
use kronical.Events.{WindowFocusInfo}
use kronical.Prelude.{none}
use kronical.Time.{DateTime}

abbrev pub loginwindow_app : String
loginwindow_app = "loginwindow"

-- `u32::MAX`.
abbrev pub loginwindow_window_id : ℕ
loginwindow_window_id = 4_294_967_295

abbrev pub poll_suspend_ms : ℕ
poll_suspend_ms = 0

abbrev pub unknown_window_title : String
unknown_window_title = "-"

pub record FocusCacheCaps : Type 0 where
  pub pid_cache_capacity : ℕ
  pub title_cache_capacity : ℕ
  pub title_cache_ttl_secs : ℕ
  pub focus_window_coalesce_ms : ℕ
  pub focus_allow_zero_window_id : Bool

pub record FocusState : Type 0 where
  pub app_name : String
  pub pid : ℤ
  pub window_title : String
  pub window_id : ℕ
  pub window_instance_start : DateTime
  pub process_start_time : ℕ
  pub last_app_update : ℕ
  pub last_window_update : ℕ

abbrev pub is_empty_text : String → Bool
is_empty_text s = str_eq s ""

unfoldable pub is_complete : FocusState → Bool
is_complete s =
    not (is_empty_text s.app_name)
    && (not (is_empty_text s.window_title)
        && (ltb_ℤ (pos 0) s.pid && (ltb 0 s.window_id && ltb 0 s.process_start_time)))

-- The closure `can_emit`: a window id of 0 may be allowed.
unfoldable pub can_emit : Bool → FocusState → Bool
can_emit allow_zero_window_id s =
    not (is_empty_text s.app_name)
    && (not (is_empty_text s.window_title)
        && (ltb_ℤ (pos 0) s.pid
            && (ltb 0 s.process_start_time && (allow_zero_window_id || ltb 0 s.window_id))))

abbrev pub to_window_focus_info : FocusState → WindowFocusInfo
to_window_focus_info s = record {
  pid = s.pid;
  process_start_time = s.process_start_time;
  app_name = s.app_name;
  window_title = s.window_title;
  window_id = s.window_id;
  window_instance_start = s.window_instance_start;
  window_position = none;
  window_size = none;
}

abbrev pub is_login_app : String → Bool
is_login_app app_name = eq_ignore_ascii_case app_name loginwindow_app

-- The login window has an id of its own where the system gives none.
abbrev pub login_id : String → ℕ → ℕ
login_id app_name window_id =
    if is_login_app app_name && window_id == 0 then loginwindow_window_id else window_id

-- winshift's description of the active window: the fields that are read.
pub record ActiveWindowInfo : Type 0 where
  pub title : String
  pub app_name : String
  pub process_id : ℤ
  pub window_id : ℕ

pub data FocusMsg : Type 0 where
  app_change : ℤ → String → FocusMsg
  window_change : String → FocusMsg
  app_change_info window_change_info : ActiveWindowInfo → FocusMsg
  stop : FocusMsg

pub data ReconcileSource : Type 0 where
  pending cached : ReconcileSource

pub data ReconcileDecision : Type 0 where
  accept : String → ReconcileSource → ReconcileDecision
  hold : String → ReconcileDecision
