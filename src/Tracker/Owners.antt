-- ===== src/Tracker/Owners.antt =====
-- Whose title a window gets: what the checks of the focus worker's closures `validate_title_with_weak` and
-- `reconcile_window_title` keep out.
use kronical.Prelude.{
  ℕ, ◌+◌, ◌≡◌, ◌≢◌, refl, String, Bool, true, false, ◌&&◌, Option, some, List, [], ◌∷◌, All, ◌⊎◌,
  inl, inr, Option-cases, arith, if_elim,
}
use kronical.Prelude.Classes.{string_eq}
use kronical.Prelude.Text.{str_eq, eq_iff}
use kronical.Common.Lru.{expired, scan, get_cloned, any_entry_matches}
use kronical.Tracker.{
  ReconcileDecision, ReconcileSource, unknown_window_title, is_empty_text, is_login_app,
}
use kronical.Tracker.Titles.{
  Environment, Caches, TitleCache, of_other, has_title, title_matches_app, title_matches_other_app,
  on_strong, on_weak, or_else, matches_previous, placeholder, validate_title_with_weak,
  reconcile_window_title,
}

-- At a time, no app but this one has had the title, as far as entries that have not expired tell.
abbrev pub NoOther : ℕ → String → String → TitleCache → Type 0
NoOther now app_name title c =
    All
      (λ (key, ((cached_title, id), ts)).
        (expired c.ttl now ts ≡ true) ⊎ (key ≡ app_name) ⊎ (cached_title ≢ title))
      c.map

scan-NoOther :
    (ttl : Option ℕ) (now : ℕ) (app title : String) (m : List (String × ((String × ℕ) × ℕ)))
    (keys : List String)
    → scan ttl now (of_other app title) m ≡ some keys
    → All
        (λ (key, ((cached_title, id), ts)).
          (expired ttl now ts ≡ true) ⊎ (key ≡ app) ⊎ (cached_title ≢ title))
        m
unfolding scan
scan-NoOther ttl now app title [] keys h = tt
scan-NoOther ttl now app title ((key, ((t, id), ts)) ∷ m) keys h =
    elim (Option-cases (scan ttl now (of_other app title) m)) [
      | inl stop ↦ ground (arith, stop)
      | inr (rest, e) ↦
          (ground (arith, eq_iff key app, eq_iff t title), scan-NoOther ttl now app title m rest e)
    ]

any_entry-NoOther :
    (now : ℕ) (app title : String) (c : TitleCache)
    → (any_entry_matches c (of_other app title) now).1 ≡ false
    → NoOther now app title c
unfolding any_entry_matches
any_entry-NoOther now app title c h =
    elim (Option-cases (scan c.ttl now (of_other app title) c.map)) [
      | inl stop ↦ ground (arith, stop)
      | inr (rest, e) ↦ scan-NoOther c.ttl now app title c.map rest e
    ]

or_else_elim {ℓ κ} :
    {A : Type ℓ} (P : A → Type κ) (x : Caches × Bool) (a : A) (rest : Caches → Caches × A)
    → (x.1 ≡ true → P a)
    → (x.1 ≡ false → P (rest x.0).1)
    → P (or_else x a rest).1
or_else_elim P (c, true) a rest f g = f refl
or_else_elim P (c, false) a rest f g = g refl

module _ (env : Environment) (app title : String) where
  -- Whether a cache's own entry of the app has the title.
  abbrev pub IsOwn : ℕ → TitleCache → Type 0
  IsOwn now c = has_title title (get_cloned c app now).1 ≡ true

  -- The title is the app's own, or no app in either cache has had it but this one.
  abbrev pub Checked : Caches → Type 0
  Checked c =
      let strong = c.last_app_window in
      IsOwn (env.instant c.queries) strong
      ⊎ (NoOther (env.instant (c.queries + 1)) app title
            (get_cloned strong app (env.instant c.queries)).0
          × NoOther (env.instant (c.queries + 1 + 1)) app title c.weak_app_window)

  both :
      (c : Caches)
      → let strong = on_strong env (λ now. title_matches_app now app title) c in
        let other = on_strong env (λ now. title_matches_other_app now app title) strong.0 in
        other.1 ≡ false
        → (on_weak env (λ now. title_matches_other_app now app title) other.0).1 ≡ false
        → Checked c
  both c h k = inr (any_entry-NoOther _ app title _ h, any_entry-NoOther _ app title _ k)

  -- A title of a window is taken for an app only if the app's last window had it, or no other app
  -- that the caches remember has had it. A title that is neither empty nor the placeholder is either
  -- taken or replaced by the placeholder.
  pub validate_title-Checked :
      (c : Caches)
      → is_empty_text title ≡ false
      → title ≢ unknown_window_title
      → let valid = (validate_title_with_weak env app title c).1 in
        ((valid ≡ title) × Checked c) ⊎ (valid ≡ unknown_window_title)
  unfolding validate_title_with_weak
  validate_title-Checked c named titled =
      let P = λ (r : String). ((r ≡ title) × Checked c) ⊎ (r ≡ unknown_window_title) in
      let unlike : str_eq title unknown_window_title ≡ false =
        ground (arith, eq_iff title unknown_window_title) in
      let strong = on_strong env (λ now. title_matches_app now app title) c in
      let other = on_strong env (λ now. title_matches_other_app now app title) strong.0 in
      let weak = on_weak env (λ now. title_matches_other_app now app title) other.0 in
      rw named (
        rw unlike (
          or_else_elim P strong title _ (λ own. inl (refl, inl own))
            λ _.
              or_else_elim P other unknown_window_title _ (λ _. inr refl)
                λ h.
                  or_else_elim P weak unknown_window_title _ (λ _. inr refl)
                    λ k.
                      or_else_elim P (on_weak env (λ now. title_matches_app now app title) weak.0)
                        title _ (λ _. inl (refl, both c h k)) λ _. inl (refl, both c h k)))

  abbrev pub title_of : ReconcileDecision → String
  title_of (ReconcileDecision.accept value source) = value
  title_of (ReconcileDecision.hold value) = value

  -- While an app is reconciled, the title that it is to have is replaced by the placeholder, unless it
  -- is the login window's; or, after the title was found not to be that of the app before, the app's
  -- last window had it or no other app that the caches remember has had it.
  pub reconcile_window_title-Checked :
      (last_app : Option String) (c : Caches)
      → let (c', previous) = matches_previous env last_app title c in
        let decision = (reconcile_window_title env app title last_app c).1 in
        (title_of decision ≡ unknown_window_title)
        ⊎ ((title_of decision ≡ title)
            × ((is_login_app app && str_eq title "Login" ≡ true)
                ⊎ ((previous ≡ false) × Checked c')))
  unfolding reconcile_window_title
  reconcile_window_title-Checked last_app c =
      let prev = matches_previous env last_app title c in
      let c' = prev.0 in
      let strong = on_strong env (λ now. title_matches_app now app title) c' in
      let other = on_strong env (λ now. title_matches_other_app now app title) strong.0 in
      let weak = on_weak env (λ now. title_matches_other_app now app title) other.0 in
      let Q = λ (d : ReconcileDecision).
        (title_of d ≡ unknown_window_title)
        ⊎ ((title_of d ≡ title)
            × ((is_login_app app && str_eq title "Login" ≡ true)
                ⊎ ((prev.1 ≡ false) × Checked c'))) in
      let own = ReconcileDecision.accept title ReconcileSource.pending in
      if_elim (λ (r : Caches × ReconcileDecision). Q r.1) (is_login_app app && str_eq title "Login")
        (c, own) _ (λ login. inr (refl, inl login))
        λ _.
          or_else_elim Q prev placeholder _ (λ _. inl refl)
            λ p.
              or_else_elim Q strong own _ (λ o. inr (refl, inr (p, inl o)))
                λ _.
                  or_else_elim Q other placeholder _ (λ _. inl refl)
                    λ h.
                      or_else_elim Q weak placeholder _ (λ _. inl refl)
                        λ k.
                          or_else_elim Q
                            (on_weak env (λ now. title_matches_app now app title) weak.0) own _
                            (λ _. inr (refl, inr (p, both c' h k)))
                            λ _. inr (refl, inr (p, both c' h k))
