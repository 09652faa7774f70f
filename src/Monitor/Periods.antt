-- ===== src/Monitor/Periods.antt =====
-- What a period of sleep is that is found (src/bin/kronictl.rs, `find_sleep_period_with_window`).
use kronical.Prelude.{
  ℕ, ◌<◌, ◌≤◌, ◌≡◌, refl, sym, ◌∙◌, min, max, Bool, true, false, not, ◌&&◌, Bool-cases, ◌⊎◌, inl,
  inr, Option, none, some, List, [], ◌∷◌, ◌++◌, All, Exists, Exists-front, Exists-last, arith, ltb,
  if_elim,
}
use mathlib.Core.List.{foldl, append_assoc}
use mathlib.Core.Option
use mathlib.Core.Option.{some-injective}
use mathlib.Core.Path.{subst}
use kronical.Prelude.Int.{ℤ, ltb_ℤ, pos_part}
use kronical.Records.{ActivityRecord}
use kronical.Time.{DateTime, since, num_seconds}
use kronical.Monitor.{LocalTime, Doubles, overlap_seconds}
use kronical.Monitor.Sleep.{
  Period, is_loginwindow, rec_end, segments_of, merge_segments, clipped, is_candidate, score_of,
  is_better, consider, find_sleep_period_with_window,
}
use kronical.Monitor.Segments.{AtLogin, Spans, merged-Spans}
use kronical.Monitor.Best.{early_return}

max-either : (a b : ℕ) → (max a b ≡ b) ⊎ (max a b ≡ a)
max-either a b = ground arith

min-either : (a b : ℕ) → (min a b ≡ b) ⊎ (min a b ≡ a)
min-either a b = ground arith

both_true : (a b : Bool) → a && b ≡ true → (a ≡ true) × (b ≡ true)
both_true a b h = ground (arith, h)

not-true : (a : Bool) → not a ≡ true → a ≡ false
not-true a h = ground (arith, h)

positive_span :
    (start last : ℕ) → ltb 0 (pos_part (num_seconds (since last start))) ≡ true → start < last
positive_span start last h = ground (arith, h)

-- What is asleep from one time to another: within the window, at least as long as is asked, from the start
-- of the window or of a record at the login window, to the end of the window or of such a record.
pub record IsStay (records : List ActivityRecord) (now : DateTime) (window : Period)
    (min_duration_secs : ℤ) (period : Period) : Type 0 where
  pub after_start : window.0 ≤ period.0
  pub before_end : period.1 ≤ window.1
  pub positive : period.0 < period.1
  pub long : ltb_ℤ (num_seconds (since period.1 period.0)) min_duration_secs ≡ false
  pub starts :
      (period.0 ≡ window.0)
      ⊎ Exists (λ r. (is_loginwindow r ≡ true) × (r.start_time ≡ period.0)) records
  pub ends :
      (period.1 ≡ window.1)
      ⊎ Exists (λ r. (is_loginwindow r ≡ true) × (rec_end now r ≡ period.1)) records

module _ (records : List ActivityRecord) (now : DateTime) (window : Period)
    (min_duration_secs : ℤ) where
  abbrev StartsAt : DateTime → Type 0
  StartsAt t = Exists (λ r. (is_loginwindow r ≡ true) × (r.start_time ≡ t)) records

  abbrev EndsAt : DateTime → Type 0
  EndsAt t = Exists (λ r. (is_loginwindow r ≡ true) × (rec_end now r ≡ t)) records

  candidate-IsStay :
      (s : Period)
      → StartsAt s.0 × EndsAt s.1
      → is_candidate window min_duration_secs s ≡ true
      → IsStay records now window min_duration_secs (clipped window s)
  unfolding is_candidate overlap_seconds
  candidate-IsStay s ends c =
      let (overlaps, long) = both_true _ _ c in
      record {
        after_start = omega arith;
        before_end = omega arith;
        positive = positive_span _ _ overlaps;
        long = not-true _ long;
        starts = elim (max-either s.0 window.0) [
          | inl e ↦ inl e
          | inr e ↦ inr (subst StartsAt (sym e) ends.0)
        ];
        ends = elim (min-either s.1 window.1) [
          | inl e ↦ inl e
          | inr e ↦ inr (subst EndsAt (sym e) ends.1)
        ];
      }

  one_of :
      (P : ActivityRecord → Type 0) (before : List ActivityRecord) (r : ActivityRecord)
      (rs : List ActivityRecord)
      → before ++ r ∷ rs ≡ records
      → P r
      → Exists P records
  one_of P before r rs e p =
      subst (Exists P) (append_assoc before (r ∷ []) rs ∙ e)
        (Exists-front P (before ++ r ∷ []) rs (Exists-last P before r p))

  -- Every record at the login window is one of the records.
  at_login :
      (before rs : List ActivityRecord)
      → before ++ rs ≡ records
      → All (AtLogin StartsAt EndsAt now) rs
  at_login before [] e = tt
  at_login before (r ∷ rs) e =
      let here : AtLogin StartsAt EndsAt now r = elim (Bool-cases (is_loginwindow r)) [
        | inr other ↦ inl other
        | inl login ↦ inr (
          one_of (λ x. (is_loginwindow x ≡ true) × (x.start_time ≡ r.start_time)) before r rs e
              (login, refl),
          one_of (λ x. (is_loginwindow x ≡ true) × (rec_end now x ≡ rec_end now r)) before r rs e
              (login, refl),
        )
      ] in
      (here, at_login (before ++ r ∷ []) rs (append_assoc before (r ∷ []) rs ∙ e))

  module _ {F : Type 0} (local : LocalTime) (f : Doubles F) where
    abbrev Sleeps : Option (F × Period) → Type 0
    Sleeps none = Unit
    Sleeps (some (best, period)) = IsStay records now window min_duration_secs period

    all-Sleeps :
        (best : Option (F × Period)) (segments : List Period)
        → Sleeps best
        → All (Spans StartsAt EndsAt now) segments
        → Sleeps (foldl (consider local f window min_duration_secs) best segments)
    unfolding consider
    all-Sleeps best [] h all = h
    all-Sleeps best (s ∷ segments) h all =
        all-Sleeps (consider local f window min_duration_secs best s) segments
          (if_elim Sleeps
            (is_candidate window min_duration_secs s
              && is_better local f best (score_of local f (clipped window s)))
            _ best (λ c. candidate-IsStay s all.0 (both_true _ _ c).0) λ _. h)
          all.1

    found-Sleeps :
        (o : Option (F × Period)) (period : Period)
        → Sleeps o
        → Option.map (λ best. best.1) o ≡ some period
        → IsStay records now window min_duration_secs period
    found-Sleeps none period h e = cc
    found-Sleeps (some (best, p)) period h e =
        subst (IsStay records now window min_duration_secs) (some-injective p period e) h

    -- The period that is found is within the window, at least as long as is asked and not empty, and
    -- starts and ends with the window or with a record at the login window.
    pub find_sleep_period-IsStay :
        (period : Period)
        → find_sleep_period_with_window local f records now window min_duration_secs ≡ some period
        → IsStay records now window min_duration_secs period
    unfolding find_sleep_period_with_window
    find_sleep_period-IsStay period h =
        let merged = merge_segments (segments_of now records) in
        found-Sleeps (foldl (consider local f window min_duration_secs) none merged) period
          (all-Sleeps none merged tt
            (merged-Spans StartsAt EndsAt now records (at_login [] records refl)))
          (sym (early_return local f window min_duration_secs (segments_of now records)) ∙ h)
