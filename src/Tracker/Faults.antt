-- ===== src/Tracker/Faults.antt =====
-- Where the focus worker loses what it was told: a title at a change of app, and a focus change while
-- polls are suspended.
use kronical.Prelude.{
  ℕ, ◌+◌, ◌<◌, ◌≡◌, refl, ap, ◌∙◌, String, Bool, true, false, not, ◌&&◌, ◌||◌, ◌==◌, none, some,
  List, [], ◌∷◌, map, All, arith, if_elim, ltb, leb,
}
use kronical.Prelude.Classes.{string_eq}
use kronical.Prelude.Int.{ℤ, same_ℤ}
use kronical.Prelude.Text.{str_eq, eq_iff}
use kronical.Common.Lru.{LruCache, get_cloned, put, expired}
use kronical.Common.Lru.Bounds.{IsValid, get_cloned-put_self}
use kronical.Events.{WindowFocusInfo}
use kronical.Tracker.{
  FocusCacheCaps, is_login_app, is_empty_text, unknown_window_title, to_window_focus_info,
}
use kronical.Tracker.Titles.{
  Environment, Caches, on_strong, on_weak, or_else, matches_previous, placeholder,
  reconcile_window_title, record_weak_title, has_title, title_matches_app,
}
use kronical.Tracker.Worker.{
  Worker, Outcome, Polled, is_some, decided, take_pending, touch_window, emit, emit_if_complete,
  emittable, flush_app, leaving, hold_title, reconcile_or_hold, on_app_change, on_window_change,
}
use kronical.Tracker.Loop.{
  Pass, Received, on_received, on_poll, pass, checks, check_coalesce, check_scheduled,
  run_focus_worker,
}

abbrev pub outs : Outcome → List WindowFocusInfo
outs (Outcome.continued w) = []
outs (Outcome.handled w out) = out

or_else_found {ℓ} :
    {A : Type ℓ} (x : Caches × Bool) (a : A) (rest : Caches → Caches × A)
    → x.1 ≡ true
    → (or_else x a rest).1 ≡ a
or_else_found (c, true) a rest h = refl
or_else_found (c, false) a rest h = cc

-- A title that the weak cache has for an app is that app's.
weak_found :
    (x : Caches × Bool) (rest : Caches → Caches × Bool)
    → (rest x.0).1 ≡ true
    → (or_else x true rest).1 ≡ true
weak_found (c, true) rest h = refl
weak_found (c, false) rest h = h

abbrev pub IsUnknown : WindowFocusInfo → Type 0
IsUnknown i = i.window_title ≡ unknown_window_title

module _ (env : Environment) (caps : FocusCacheCaps) where
  own_title :
      (app title : String) (id : ℕ) (c : Caches)
      → (get_cloned c.weak_app_window app (env.instant (c.queries + 1))).1 ≡ some (title, id)
      → (matches_previous env (some app) title c).1 ≡ true
  own_title app title id c h =
      weak_found (on_strong env (λ now. title_matches_app now app title) c)
        (on_weak env (λ now. title_matches_app now app title))
        (ap (has_title title) h ∙ (eq_iff title title).1 refl)

  reconcile-own :
      (app title : String) (id : ℕ) (c : Caches)
      → (is_login_app app && str_eq title "Login") ≡ false
      → (get_cloned c.weak_app_window app (env.instant (c.queries + 1))).1 ≡ some (title, id)
      → (reconcile_window_title env app title (some app) c).1 ≡ placeholder
  unfolding reconcile_window_title
  reconcile-own app title id c other h = rw other (
      or_else_found (matches_previous env (some app) title c) placeholder _
        (own_title app title id c h))

  taken-IsUnknown :
      (w : Worker) (title : String)
      → (reconcile_window_title env w.state.app_name title w.last_app_before_change w.caches).1
        ≡ placeholder
      → (take_pending env caps w (some title)).state.window_title ≡ unknown_window_title
  unfolding take_pending
  taken-IsUnknown w title h = ap (decided env caps) h

  emit-IsUnknown :
      (w : Worker)
      → w.state.window_title ≡ unknown_window_title
      → All IsUnknown (emit_if_complete env caps w).1
  unfolding emit_if_complete emit
  emit-IsUnknown w h =
      if_elim (λ (r : Worker × List WindowFocusInfo). All IsUnknown r.1) (emittable env caps w)
        (emit env caps w) (w, []) (λ _. (h, tt)) λ _. tt

  touch_window-title :
      (w : Worker) → (touch_window env caps w).state.window_title ≡ w.state.window_title
  unfolding touch_window
  touch_window-title w = refl

  flush-IsUnknown :
      (w : Worker) (title : String)
      → w.pending_window_title ≡ some title
      → (reconcile_window_title env w.state.app_name title w.last_app_before_change w.caches).1
        ≡ placeholder
      → All IsUnknown (flush_app env caps w).1
  unfolding flush_app
  flush-IsUnknown w title held h =
      let taken = record w { pending_window_title = none } in
      let v = take_pending env caps taken w.pending_window_title in
      let titled : v.state.window_title ≡ unknown_window_title =
        ap (λ o. (take_pending env caps taken o).state.window_title) held
        ∙ taken-IsUnknown taken title h in
      if_elim (λ (r : Worker × List WindowFocusInfo). All IsUnknown r.1)
        (is_some w.pending_window_title || not (is_empty_text w.state.window_title))
        (emit_if_complete env caps (touch_window env caps v)) (taken, [])
        (λ _. emit-IsUnknown (touch_window env caps v) (touch_window-title v ∙ titled)) λ _. tt

  on_app_change-IsUnknown :
      (w : Worker) (pid : ℤ) (app_name : String)
      → is_some w.coalesce_until ≡ true
      → All IsUnknown (flush_app env caps (leaving env caps w)).1
      → All IsUnknown (outs (on_app_change env caps w pid app_name))
  unfolding on_app_change
  on_app_change-IsUnknown w pid app_name ends h =
      if_elim (λ o. All IsUnknown (outs o))
        (str_eq w.state.app_name app_name && same_ℤ w.state.pid pid) (Outcome.handled w []) _
        (λ _. tt) λ _. rw ends h

  -- What a title that arrives within the coalescing leaves.
  abbrev pub held : Worker → String → Worker
  held w title =
      hold_title env caps (record w { caches = record w.caches { queries = w.caches.queries + 1 } })
        title

  held-remembers :
      (w : Worker) (title : String) {c : Caches}
      → record_weak_title env w.state.app_name title w.state.window_id
          (record w.caches { queries = w.caches.queries + 1 })
        ≡ c
      → held w title ≡ record w { caches = c; pending_window_title = some title }
  unfolding hold_title
  held-remembers w title h = ap (λ c. record w { caches = c; pending_window_title = some title }) h

  on_window_change-held :
      (w : Worker) (title : String) (until : ℕ)
      → (is_empty_text title || str_eq w.state.window_title title) ≡ false
      → w.reconcile_active ≡ true
      → w.coalesce_until ≡ some until
      → ltb (env.instant w.caches.queries) until ≡ true
      → on_window_change env caps w title ≡ Outcome.continued (held w title)
  unfolding on_window_change reconcile_or_hold
  on_window_change-held w title until new active ends early =
      rw new (rw active (rw ends (rw early refl)))

  recorded :
      (c : Caches) (app title : String) (id : ℕ)
      → is_empty_text app ≡ false
      → is_empty_text title ≡ false
      → str_eq title unknown_window_title ≡ false
      → record_weak_title env app title id c ≡ record c {
        weak_app_window = put c.weak_app_window app (title, id) (env.instant c.queries);
        queries = c.queries + 1;
      }
  unfolding record_weak_title
  recorded c app title id a b d = rw a (rw b (rw d refl))

  -- The worker whose weak cache has the title, at a change of app.
  kept_title :
      (w : Worker) (title : String) (id : ℕ) (pid : ℤ) (app_name : String)
      → w.pending_window_title ≡ some title
      → is_some w.coalesce_until ≡ true
      → is_empty_text w.state.app_name ≡ false
      → (is_login_app w.state.app_name && str_eq title "Login") ≡ false
      → (get_cloned w.caches.weak_app_window w.state.app_name
          (env.instant (w.caches.queries + 1))).1
        ≡ some (title, id)
      → All IsUnknown (outs (on_app_change env caps w pid app_name))
  kept_title w title id pid app_name waits ends app other h =
      on_app_change-IsUnknown w pid app_name ends (
        flush-IsUnknown (leaving env caps w) title waits
          (rw app (reconcile-own w.state.app_name title id w.caches other h)))

  -- A title arrives while the titles of its app are held: the app is being reconciled and its coalescing
  -- has not ended. The title is neither empty, nor the placeholder, nor the one that is shown; the
  -- app has a name, and it is not the login window with the title "Login". The weak cache is well
  -- formed, its entries are older, and what it takes now has not expired two readings of the clock
  -- later. Then the title is held, and whatever is handed over on a message of an app that comes
  -- next has the placeholder for a title.
  pub change_loses_title :
      (w : Worker) (title : String) (until : ℕ) (pid : ℤ) (app_name : String)
      → is_empty_text title ≡ false
      → str_eq title unknown_window_title ≡ false
      → str_eq w.state.window_title title ≡ false
      → is_empty_text w.state.app_name ≡ false
      → (is_login_app w.state.app_name && str_eq title "Login") ≡ false
      → w.reconcile_active ≡ true
      → w.coalesce_until ≡ some until
      → ltb (env.instant w.caches.queries) until ≡ true
      → let now = env.instant (w.caches.queries + 1) in
        let weak = w.caches.weak_app_window in
        IsValid weak
        → All (λ x. x.1.1 < now) weak.map
        → expired weak.ttl (env.instant (w.caches.queries + 3)) now ≡ false
        → (on_window_change env caps w title ≡ Outcome.continued (held w title))
          × All IsUnknown (outs (on_app_change env caps (held w title) pid app_name))
  change_loses_title w title until pid app_name named titled new app other active ends early valid
        older fresh =
      (on_window_change-held w title until (rw named new) active ends early, lost)
    where
      weak : LruCache String (String × ℕ)
      weak =
          put w.caches.weak_app_window w.state.app_name (title, w.state.window_id)
            (env.instant (w.caches.queries + 1))

      remembered : Worker
      remembered = record w {
        caches = record w.caches { weak_app_window = weak; queries = w.caches.queries + 1 + 1 };
        pending_window_title = some title;
      }

      found :
          (get_cloned weak w.state.app_name (env.instant (w.caches.queries + 3))).1
          ≡ some (title, w.state.window_id)
      found =
          get_cloned-put_self w.caches.weak_app_window w.state.app_name (title, w.state.window_id)
            (env.instant (w.caches.queries + 1)) (env.instant (w.caches.queries + 3)) valid older
            fresh

      three : w.caches.queries + 1 + 1 + 1 ≡ w.caches.queries + 3
      three = omega arith

      held_as : held w title ≡ remembered
      held_as = held-remembers w title (
          recorded (record w.caches { queries = w.caches.queries + 1 }) w.state.app_name title
            w.state.window_id app named titled)

      lost : All IsUnknown (outs (on_app_change env caps (held w title) pid app_name))
      lost = rw held_as (
          kept_title remembered title w.state.window_id pid app_name refl (ap is_some ends) app
            other (rw three found))

  -- A poll that is suspended: a pass with an interval of 0 in which nothing arrives.
  abbrev pub suspended : Polled → Pass
  suspended polled = record {
    should_stop = false;
    poll_value = 0;
    received = Received.timeout polled;
  }

  run-suspended :
      (w : Worker) (polls : List Polled)
      → run_focus_worker env caps w (map suspended polls) ≡ (w, [])
  unfolding run_focus_worker pass on_received
  run-suspended w [] = refl
  run-suspended w (p ∷ polls) = run-suspended w polls

  due :
      (w : Worker) (when : ℕ)
      → w.coalesce_until ≡ none
      → w.scheduled_emit_at ≡ some when
      → leb when (env.instant w.caches.queries) ≡ true
      → emittable env caps w ≡ true
      → (checks env caps w).1 ≡ to_window_focus_info w.state ∷ []
  unfolding checks check_coalesce check_scheduled emit
  due w when settled scheduled past ready = rw settled (rw scheduled (rw past (rw ready refl)))

  -- A focus change that is due is not handed over while polls are suspended: however many of them pass,
  -- nothing is, and the worker is as it was. A single poll that is not suspended hands it over, even if
  -- it finds no window.
  pub suspended_stalls :
      (w : Worker) (when poll_value : ℕ) (polls : List Polled)
      → w.coalesce_until ≡ none
      → w.scheduled_emit_at ≡ some when
      → leb when (env.instant w.caches.queries) ≡ true
      → emittable env caps w ≡ true
      → 0 < poll_value
      → (run_focus_worker env caps w (map suspended polls) ≡ (w, []))
        × ((pass env caps w poll_value (Received.timeout (Polled.failed false))).1
            ≡ to_window_focus_info w.state ∷ [])
  unfolding pass on_received on_poll
  suspended_stalls w when poll_value polls settled scheduled past ready active = (
    run-suspended w polls,
    rw (polls-active poll_value active) (due w when settled scheduled past ready),
  )
    where
      polls-active : (n : ℕ) → 0 < n → (n == 0) ≡ false
      polls-active n h = ground arith
