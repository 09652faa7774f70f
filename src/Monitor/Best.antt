-- ===== src/Monitor/Best.antt =====
-- The period of sleep with the best score (src/bin/kronictl.rs, `find_sleep_period_with_window`).
use kronical.Prelude.{
  ◌≡◌, refl, sym, true, false, Bool-cases, ◌⊎◌, inl, inr, Option, none, some, List, [], ◌∷◌, ◌++◌,
  All, All-append, All-imp, Exists, Exists-front, Exists-last, is_empty, if◌then◌else◌,
}
use mathlib.Core.List.{foldl, append_assoc, append-nil}
use mathlib.Core.Option
use mathlib.Core.Option.{some-injective}
use mathlib.Core.Path.{subst}
use kronical.Prelude.Int.{ℤ}
use kronical.Prelude.Sort.{sort_by}
use kronical.Records.{ActivityRecord}
use kronical.Time.{DateTime}
use kronical.Monitor.{LocalTime, Doubles}
use kronical.Monitor.Sleep.{
  Period, segments_of, merge_segments, clipped, is_candidate, score_of, consider,
  find_sleep_period_with_window,
}

-- Without segments there is nothing to merge.
pub early_return :
    {F : Type 0} (local : LocalTime) (f : Doubles F) (window : Period) (min_duration_secs : ℤ)
    (segments : List Period)
    → let best =
        Option.map
          (λ best. best.1)
          (foldl (consider local f window min_duration_secs) none (merge_segments segments)) in
      (if is_empty segments then none else best) ≡ best
unfolding merge_segments sort_by
early_return local f window min_duration_secs [] = refl
early_return local f window min_duration_secs (s ∷ segments) = refl

module _ {F : Type 0} (local : LocalTime) (f : Doubles F) (window : Period)
    (min_duration_secs : ℤ) where
  abbrev Candidate : Period → Type 0
  Candidate segment = is_candidate window min_duration_secs segment ≡ true

  -- A segment that is no candidate, or whose score is not greater.
  abbrev pub IsNoBetter : F → Period → Type 0
  IsNoBetter best segment =
      (is_candidate window min_duration_secs segment ≡ false)
      ⊎ (f.gt (score_of local f (clipped window segment)) best ≡ false)

  -- The best of the segments seen so far.
  abbrev IsBest : List Period → Option (F × Period) → Type 0
  IsBest seen none = All (λ s. is_candidate window min_duration_secs s ≡ false) seen
  IsBest seen (some (best, period)) =
      Exists (λ s. Candidate s × (period ≡ clipped window s)) seen
      × (best ≡ score_of local f period)
      × All (IsNoBetter best) seen

  -- `>` of `f64`: what is not greater than a number is not greater than a greater one, and no number
  -- is greater than itself.
  pub record IsGreater : Type 0 where
    pub irrefl : (a : F) → f.gt a a ≡ false
    pub below : (a b c : F) → f.gt a b ≡ false → f.gt c b ≡ true → f.gt a c ≡ false

  module _ (order : IsGreater) where
    consider-IsBest :
        (seen : List Period) (best : Option (F × Period)) (s : Period)
        → IsBest seen best
        → IsBest (seen ++ s ∷ []) (consider local f window min_duration_secs best s)
    unfolding consider
    consider-IsBest seen none s h = elim (Bool-cases (is_candidate window min_duration_secs s)) [
      | inl c ↦ rw c (
        Exists-last (λ t. Candidate t × (clipped window s ≡ clipped window t)) seen s (c, refl),
        refl,
        All-append (IsNoBetter _) seen (s ∷ []) (All-imp _ (IsNoBetter _) (λ t n. inl n) seen h)
            (inr (order.irrefl _), tt),
      )
      | inr c ↦ rw c (All-append _ seen (s ∷ []) h (c, tt))
    ]
    consider-IsBest seen (some (best, period)) s (e, same, all) =
        let P = λ (t : Period). Candidate t × (period ≡ clipped window t) in
        let kept : IsNoBetter best s → IsBest (seen ++ s ∷ []) (some (best, period)) = λ n. (
          Exists-front P seen (s ∷ []) e,
          same,
          All-append (IsNoBetter best) seen (s ∷ []) all (n, tt),
        ) in
        elim (Bool-cases (is_candidate window min_duration_secs s)) [
          | inr c ↦ rw c (kept (inl c))
          | inl c ↦ elim (Bool-cases (f.gt (score_of local f (clipped window s)) best)) [
            | inr n ↦ rw c (rw n (kept (inr n)))
            | inl g ↦ rw c (
                rw g (
                  Exists-last (λ t. Candidate t × (clipped window s ≡ clipped window t)) seen s
                      (c, refl),
                  refl,
                  All-append (IsNoBetter _) seen (s ∷ [])
                      (All-imp (IsNoBetter best) (IsNoBetter _)
                        (λ t n. elim n [
                          | inl no_candidate ↦ inl no_candidate
                          | inr b ↦ inr (order.below _ best _ b g)
                        ])
                        seen all)
                      (inr (order.irrefl _), tt),
                ))
          ]
        ]

    all-IsBest :
        (seen : List Period) (best : Option (F × Period)) (segments : List Period)
        → IsBest seen best
        → IsBest
            (seen ++ segments)
            (foldl (consider local f window min_duration_secs) best segments)
    all-IsBest seen best [] h = rw (append-nil seen) h
    all-IsBest seen best (s ∷ segments) h = rw (sym (append_assoc seen (s ∷ []) segments)) (
        all-IsBest (seen ++ s ∷ []) (consider local f window min_duration_secs best s) segments
          (consider-IsBest seen best s h))

    found_best :
        (merged : List Period) (o : Option (F × Period))
        → IsBest merged o
        → ((Option.map (λ best. best.1) o ≡ none)
            × All (λ s. is_candidate window min_duration_secs s ≡ false) merged)
          ⊎ ((period : Period) × (Option.map (λ best. best.1) o ≡ some period)
              × Exists
                  (λ s.
                    (is_candidate window min_duration_secs s ≡ true) × (period ≡ clipped window s))
                  merged
              × All (IsNoBetter (score_of local f period)) merged)
    found_best merged none h = inl (refl, h)
    found_best merged (some (best, period)) (e, same, all) =
        inr (period, refl, e, subst (λ b. All (IsNoBetter b) merged) same all)

    -- Of the records' stays at the login window, merged over gaps of up to an hour, the period found is the
    -- part within the window of one that is a candidate: there is such a part, and it is long enough. Its
    -- score is no less than that of any other candidate. Nothing is found only if there is no
    -- candidate.
    pub find_sleep_period-IsBest :
        (records : List ActivityRecord) (now : DateTime)
        → let found = find_sleep_period_with_window local f records now window min_duration_secs in
          let merged = merge_segments (segments_of now records) in
          ((found ≡ none) × All (λ s. is_candidate window min_duration_secs s ≡ false) merged)
          ⊎ ((period : Period) × (found ≡ some period)
              × Exists
                  (λ s.
                    (is_candidate window min_duration_secs s ≡ true) × (period ≡ clipped window s))
                  merged
              × All (IsNoBetter (score_of local f period)) merged)
    unfolding find_sleep_period_with_window
    find_sleep_period-IsBest records now =
        let merged = merge_segments (segments_of now records) in
        rw (early_return local f window min_duration_secs (segments_of now records)) (
          found_best merged (foldl (consider local f window min_duration_secs) none merged)
            (all-IsBest [] none merged tt))
