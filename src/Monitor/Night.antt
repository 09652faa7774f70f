-- ===== src/Monitor/Night.antt =====
-- The part of a period that counts as night (src/bin/kronictl.rs, `night_band_overlap_seconds`).
use kronical.Prelude.{
  ℕ, suc, ◌+◌, ◌*◌, ◌<◌, ◌≤◌, ◌≡◌, refl, ◌∙◌, some, arith, ltb, ltb→lt, if◌then◌else◌, if_elim,
}
use kronical.Prelude.Int.{pos_part}
use kronical.Time.{DateTime, since, num_seconds}
use kronical.Monitor.{LocalTime, hours, midpoint_of, overlap_seconds, night_band_overlap_seconds}

-- A local time whose days have 24 hours: days have numbers, each starts at its midnight and ends at the
-- next, and the hours of a day are found from any instant of it. chrono's `Local` is one where the
-- clock is not changed.
pub record IsSteady (local : LocalTime) : Type 0 where
  pub midnight : ℕ → DateTime
  pub next : (d : ℕ) → midnight (suc d) ≡ midnight d + hours 24
  pub hour_of_day :
      (t : DateTime) (d h : ℕ)
      → midnight d ≤ t
      → t < midnight (suc d)
      → h < 24
      → local.earliest t h ≡ some (midnight d + hours h)

no_overlap :
    (start last band_start band_end : DateTime)
    → last ≤ band_start
    → overlap_seconds start last band_start band_end ≡ 0
unfolding overlap_seconds
no_overlap start last band_start band_end h = ground (arith, h)

all_overlaps :
    (start last band_start band_end : DateTime)
    → band_start ≤ start
    → last ≤ band_end
    → overlap_seconds start last band_start band_end ≡ pos_part (num_seconds (since last start))
unfolding overlap_seconds
all_overlaps start last band_start band_end h k = ground (arith, h, k)

-- The overlap of a period is that with the band of the day on which its midpoint is.
on_day :
    (local : LocalTime) (days : IsSteady local) (start last : DateTime) (d : ℕ)
    → days.midnight d ≤ midpoint_of local start last
    → midpoint_of local start last < days.midnight (suc d)
    → night_band_overlap_seconds local start last
      ≡ overlap_seconds start last
          (days.midnight d + hours 22)
          (days.midnight d + hours 22 + hours 12)
unfolding night_band_overlap_seconds
on_day local days start last d h k =
    rw (days.hour_of_day (midpoint_of local start last) d 22 h k (omega arith)) refl

-- In a local time whose days have 24 hours, a period within one night, from 22:00 of a day to 10:00 of the
-- next, counts as night as a whole if its midpoint is before midnight; if it is at midnight or
-- later, nothing of it does.
pub night_band_overlap-one_night :
    (local : LocalTime) (days : IsSteady local) (d : ℕ) (start last : DateTime)
    → start ≤ last
    → days.midnight d + hours 22 ≤ start
    → last ≤ days.midnight (suc d) + hours 10
    → night_band_overlap_seconds local start last ≡ (
        if ltb (start + last) (2 * days.midnight (suc d))
        then pos_part (num_seconds (since last start))
        else 0)
night_band_overlap-one_night local days d start last ordered evening morning =
    if_elim (λ n. night_band_overlap_seconds local start last ≡ n)
      (ltb (start + last) (2 * days.midnight (suc d))) _ _
      (λ early.
        on_day local days start last d (omega arith) (omega (arith, ltb→lt _ _ early))
        ∙ all_overlaps start last _ _ evening (omega (arith, days.next d)))
      λ late.
        on_day local days start last (suc d) (ground (arith, late))
          (omega (arith, days.next (suc d)))
        ∙ no_overlap start last _ _ (omega arith)
