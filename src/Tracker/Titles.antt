-- ===== src/Tracker/Titles.antt =====
-- The caches of the focus worker (src/daemon/tracker/focus.rs, the closures of `run_focus_worker`): when
-- processes started, and which titles the windows of an app have had. Every reading of a clock and every
-- question to the system is a query of the environment; the caches count the queries.
use kronical.Prelude.{
  ℕ, ◌+◌, ◌*◌, String, Bool, true, false, not, ◌&&◌, ◌||◌, Option, none, some, if◌then◌else◌, ◌==◌,
  ltb,
}
use kronical.Prelude.Classes.{nat_eq, string_eq, int_eq}
use kronical.Prelude.Int.{ℤ}
use kronical.Prelude.Text.{str_eq}
use kronical.Common.Lru.{
  LruCache, with_capacity, with_capacity_and_ttl, get_cloned, put, any_entry_matches,
}
use kronical.Time.{DateTime, second, timestamp_millis}
use kronical.Tracker.{
  FocusCacheCaps, FocusState, ReconcileSource, ReconcileDecision, unknown_window_title,
  is_empty_text, is_login_app,
}

-- What the n-th query gives: `Instant::now()`, `Utc::now()`, and the start of a process that
-- sysinfo finds.
pub record Environment : Type 0 where
  pub instant : ℕ → ℕ
  pub utc : ℕ → DateTime
  pub process_start : ℕ → ℤ → Option ℕ

-- An app's last window: its title and its id.
abbrev pub TitleCache : Type 0
TitleCache = LruCache String (String × ℕ)

pub record Caches : Type 0 where
  pub pid_cache : LruCache ℤ ℕ
  pub last_titles : LruCache ℕ String
  pub last_app_window : TitleCache
  pub weak_app_window : TitleCache
  pub queries : ℕ

unfoldable pub no_caches : FocusCacheCaps → ℕ → Caches
no_caches caps queries = record {
  pid_cache = with_capacity caps.pid_cache_capacity;
  last_titles =
      if ltb 0 caps.title_cache_ttl_secs
      then with_capacity_and_ttl caps.title_cache_capacity (caps.title_cache_ttl_secs * second)
      else with_capacity caps.title_cache_capacity;
  last_app_window = with_capacity caps.title_cache_capacity;
  weak_app_window = with_capacity_and_ttl caps.title_cache_capacity (2 * second);
  queries = queries;
}

-- The closures `title_matches_other_app` and `title_matches_app`, at a reading of the clock.
abbrev pub of_other : String → String → String → String × ℕ → Bool
of_other app_name title key (cached_title, id) =
    not (str_eq key app_name) && str_eq cached_title title

abbrev pub title_matches_other_app : ℕ → String → String → TitleCache → TitleCache × Bool
title_matches_other_app now app_name title cache =
    any_entry_matches cache (of_other app_name title) now

abbrev pub has_title : String → Option (String × ℕ) → Bool
has_title title none = false
has_title title (some (cached_title, id)) = str_eq cached_title title

abbrev pub title_matches_app : ℕ → String → String → TitleCache → TitleCache × Bool
title_matches_app now app_name title cache =
    let (cache', found) = get_cloned cache app_name now in (cache', has_title title found)

-- `if test { return found; }`, then the rest.
abbrev pub or_else {ℓ} : {A : Type ℓ} → Caches × Bool → A → (Caches → Caches × A) → Caches × A
or_else (c, true) found rest = (c, found)
or_else (c, false) found rest = rest c

abbrev pub placeholder : ReconcileDecision
placeholder = ReconcileDecision.accept unknown_window_title ReconcileSource.cached

module _ (env : Environment) where
  -- A call on one of the two caches, with its reading.
  abbrev pub on_strong : (ℕ → TitleCache → TitleCache × Bool) → Caches → Caches × Bool
  on_strong call c =
      let (cache, matches) = call (env.instant c.queries) c.last_app_window in
      (record c { last_app_window = cache; queries = c.queries + 1 }, matches)

  abbrev pub on_weak : (ℕ → TitleCache → TitleCache × Bool) → Caches → Caches × Bool
  on_weak call c =
      let (cache, matches) = call (env.instant c.queries) c.weak_app_window in
      (record c { weak_app_window = cache; queries = c.queries + 1 }, matches)

  -- The start of a process that the system finds is kept.
  abbrev pub keep_start : Caches → ℤ → Option ℕ → Caches × ℕ
  keep_start c pid none = (c, 0)
  keep_start c pid (some start_time) = (
    record c {
      pid_cache = put c.pid_cache pid start_time (env.instant c.queries);
      queries = c.queries + 1;
    },
    start_time,
  )

  abbrev pub start_or_ask : Caches → ℤ → Option ℕ → Caches × ℕ
  start_or_ask c pid (some start_time) = (c, start_time)
  start_or_ask c pid none =
      keep_start (record c { queries = c.queries + 1 }) pid (env.process_start c.queries pid)

  unfoldable pub get_process_start_time : Caches → ℤ → Caches × ℕ
  get_process_start_time c pid =
      let (cache, found) = get_cloned c.pid_cache pid (env.instant c.queries) in
      start_or_ask (record c { pid_cache = cache; queries = c.queries + 1 }) pid found

  -- A process that is not found has started now, in milliseconds.
  unfoldable pub process_start_or_now : Caches → ℤ → Caches × ℕ
  process_start_or_now c pid =
      let (c', start_time) = get_process_start_time c pid in
      if start_time == 0
      then (record c' { queries = c'.queries + 1 }, timestamp_millis (env.utc c'.queries))
      else (c', start_time)

  unfoldable pub record_last_app_window : FocusState → Caches → Caches
  record_last_app_window s c =
      if not (is_empty_text s.app_name)
        && (not (is_empty_text s.window_title) && not (str_eq s.window_title unknown_window_title))
      then record c {
        last_app_window =
            put c.last_app_window s.app_name (s.window_title, s.window_id) (env.instant c.queries);
        queries = c.queries + 1;
      }
      else c

  unfoldable pub record_weak_title : String → String → ℕ → Caches → Caches
  record_weak_title app_name title window_id c =
      if not (is_empty_text app_name)
        && (not (is_empty_text title) && not (str_eq title unknown_window_title))
      then record c {
        weak_app_window = put c.weak_app_window app_name (title, window_id) (env.instant c.queries);
        queries = c.queries + 1;
      }
      else c

  unfoldable pub validate_title_with_weak : String → String → Caches → Caches × String
  validate_title_with_weak app_name title c =
      if is_empty_text title || str_eq title unknown_window_title
      then (c, title)
      else or_else (on_strong (λ now. title_matches_app now app_name title) c) title (λ c1.
        or_else (on_strong (λ now. title_matches_other_app now app_name title) c1)
          unknown_window_title
          (λ c2.
            or_else (on_weak (λ now. title_matches_other_app now app_name title) c2)
              unknown_window_title
              (λ c3.
                or_else (on_weak (λ now. title_matches_app now app_name title) c3) title
                  (λ c4. (c4, title)))))

  -- Whether the title is one of the app before: the weak cache is asked only if the other does not
  -- have it.
  abbrev pub matches_previous : Option String → String → Caches → Caches × Bool
  matches_previous none title c = (c, false)
  matches_previous (some prev_app) title c =
      or_else (on_strong (λ now. title_matches_app now prev_app title) c) true
        (on_weak (λ now. title_matches_app now prev_app title))

  unfoldable pub reconcile_window_title :
      String → String → Option String → Caches → Caches × ReconcileDecision
  reconcile_window_title app_name title last_app c =
      let own = ReconcileDecision.accept title ReconcileSource.pending in
      if is_login_app app_name && str_eq title "Login"
      then (c, own)
      else or_else (matches_previous last_app title c) placeholder (λ c1.
        or_else (on_strong (λ now. title_matches_app now app_name title) c1) own (λ c2.
          or_else (on_strong (λ now. title_matches_other_app now app_name title) c2) placeholder
            (λ c3.
              or_else (on_weak (λ now. title_matches_other_app now app_name title) c3) placeholder
                (λ c4.
                  or_else (on_weak (λ now. title_matches_app now app_name title) c4) own
                    (λ c5. (c5, ReconcileDecision.hold title))))))
