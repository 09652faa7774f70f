-- ===== src/Pipeline/Ingest/Ids.antt =====
-- The ids that the ingest stage gives.
use kronical.Prelude.{
  ℕ, ◌+◌, ◌*◌, ◌%◌, ◌≤◌, ◌<◌, ◌≡◌, ◌≢◌, refl, ◌∙◌, false, Option, none, some, List, [], ◌∷◌, arith,
  leb, ◌==◌, if_elim, All, is_none,
}
use kronical.Prelude.Bits.{or_shifted}
use kronical.Pipeline.Ingest.{
  IdState, event_id_seq_mask, make_id, fresh_id, wait_next, next_event_id,
}
use kronical.Time.{DateTime, timestamp_millis}

-- The id that was given last, as a number.
abbrev pub last_id : IdState → ℕ
last_id s = s.last_event_ms * 4096 + s.event_seq

-- The milliseconds that an id has room for.
abbrev pub ms_bound : ℕ
ms_bound = 0x10_0000_0000_0000

pub record Bounded (s : IdState) : Type 0 where
  pub seq : s.event_seq ≤ event_id_seq_mask
  pub ms : s.last_event_ms < ms_bound

-- A reading that is no earlier than the last event, and fits.
abbrev pub IsLater : IdState → DateTime → Type 0
IsLater s now = (s.last_event_ms ≤ timestamp_millis now) × (timestamp_millis now < ms_bound)

make_id-sum :
    (ms seq : ℕ) → ms < ms_bound → seq ≤ event_id_seq_mask → make_id ms seq ≡ ms * 4096 + seq
unfolding make_id
make_id-sum ms seq h l =
    let fits : ms * 4096 % 0x1_0000_0000_0000_0000 ≡ ms * 4096 = omega arith in
    rw fits (or_shifted 12 (ms * 4096) ms seq refl (omega arith))

-- What a call gives: an id above the last one, which is then the last.
abbrev pub Gives : IdState → IdState × (DateTime × ℕ) → Type 0
Gives s (s', (now, id)) = Bounded s' × (id ≡ last_id s') × (last_id s < id)

fresh-Gives :
    (s : IdState) (now : DateTime)
    → Bounded s
    → IsLater s now
    → timestamp_millis now ≢ s.last_event_ms
    → Gives s (fresh_id now)
fresh-Gives s now b l apart =
    let id = make_id-sum (timestamp_millis now) 0 l.1 (omega arith) in
    (record { seq = omega arith; ms = l.1 }, id, omega (arith, id, b.seq, l.0, apart))

abbrev pub AllGive : IdState → Option (IdState × (DateTime × ℕ)) → Type 0
AllGive s none = Unit
AllGive s (some r) = Gives s r

wait_next-Gives :
    (s : IdState) (readings : List DateTime)
    → Bounded s
    → All (IsLater s) readings
    → AllGive s (wait_next s.last_event_ms readings)
unfolding wait_next
wait_next-Gives s [] b l = tt
wait_next-Gives s (now ∷ readings) b l =
    if_elim (AllGive s) (timestamp_millis now == s.last_event_ms)
      (wait_next s.last_event_ms readings) (some (fresh_id now))
      (λ same. wait_next-Gives s readings b l.1) (λ apart. fresh-Gives s now b l.0 (ground arith))

-- From a state within its bounds, over readings of the clock that are no earlier than the last
-- event and below 2 ^ 52 milliseconds, the id that a call gives, if it returns, is above the last
-- one that was given, and is then the last one itself; the new state is within its bounds, its
-- sequence number in 12 bits.
pub next_event_id-Gives :
    (s : IdState) (readings : List DateTime)
    → Bounded s
    → All (IsLater s) readings
    → AllGive s (next_event_id s readings)
unfolding next_event_id
next_event_id-Gives s [] b l = tt
next_event_id-Gives s (now ∷ readings) b l =
    if_elim (AllGive s) (timestamp_millis now == s.last_event_ms) _ (some (fresh_id now))
      (λ same.
        if_elim (AllGive s) (leb event_id_seq_mask s.event_seq) (wait_next s.last_event_ms readings)
          _ (λ full. wait_next-Gives s readings b l.1)
          (λ room.
            let more : s.event_seq + 1 ≤ event_id_seq_mask = ground arith in
            let now_is : timestamp_millis now ≡ s.last_event_ms = ground arith in
            let id = make_id-sum (timestamp_millis now) (s.event_seq + 1) l.0.1 more in
            (
              record { seq = more; ms = b.ms },
              id ∙ omega (arith, now_is),
              omega (arith, id, now_is),
            )))
      (λ apart. fresh-Gives s now b l.0 (ground arith))

-- Some reading shows another millisecond than the last event's.
abbrev pub Advances : IdState → List DateTime → Type 0
Advances s [] = ⊥
Advances s (now ∷ readings) = timestamp_millis now ≡ s.last_event_ms → Advances s readings

pub wait_next-returns :
    (s : IdState) (readings : List DateTime)
    → Advances s readings
    → is_none (wait_next s.last_event_ms readings) ≡ false
unfolding wait_next
wait_next-returns s [] h = absurd h
wait_next-returns s (now ∷ readings) h =
    if_elim (λ r. is_none r ≡ false) (timestamp_millis now == s.last_event_ms)
      (wait_next s.last_event_ms readings) (some (fresh_id now))
      (λ same. wait_next-returns s readings (h (ground arith))) (λ apart. refl)

-- A call returns as soon as the clock shows another millisecond than the last event's.
pub next_event_id-returns :
    (s : IdState) (now : DateTime) (readings : List DateTime)
    → Advances s (now ∷ readings)
    → is_none (next_event_id s (now ∷ readings)) ≡ false
unfolding next_event_id
next_event_id-returns s now readings h =
    if_elim (λ r. is_none r ≡ false) (timestamp_millis now == s.last_event_ms) _
      (some (fresh_id now))
      (λ same.
        if_elim (λ r. is_none r ≡ false) (leb event_id_seq_mask s.event_seq)
          (wait_next s.last_event_ms readings) _
          (λ full. wait_next-returns s readings (h (ground arith))) (λ room. refl))
      (λ apart. refl)
