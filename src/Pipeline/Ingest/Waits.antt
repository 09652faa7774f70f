-- ===== src/Pipeline/Ingest/Waits.antt =====
-- When the ingest stage's loop goes on: its waits for the clock.
use kronical.Prelude.{
  ℕ, ◌≡◌, refl, false, Option, none, some, List, [], ◌∷◌, arith, if_elim, All, is_none,
}
use kronical.Pipeline.{DeriveCommand}
use kronical.Pipeline.Ingest.{
  KronicalEvent, IdState, next_event_id, Ingest, Arrival, Turn, next_turn, take_event, continued,
  on_arrival, run_ingest,
}
use kronical.Pipeline.Ingest.Ids.{Advances, next_event_id-returns}
use kronical.Time.{DateTime, timestamp_millis}
use mathlib.Core.Path.{subst}

-- The readings that a call makes show two different milliseconds, or more.
abbrev pub Awake : Arrival → Type 0
Awake (Arrival.received _ [] _ _) = ⊥
Awake (Arrival.received _ (now ∷ readings) _ _) =
    ¬ All (λ t. timestamp_millis t ≡ timestamp_millis now) readings
Awake _ = Unit

advances :
    (s : IdState) (readings : List DateTime)
    → ¬ All (λ t. timestamp_millis t ≡ s.last_event_ms) readings
    → Advances s readings
advances s [] h = h tt
advances s (t ∷ readings) h = λ e. advances s readings (λ a. h (e, a))

Awake-returns :
    (s : Ingest) (e : KronicalEvent) (readings : List DateTime) (utc : DateTime) (instant : ℕ)
    → Awake (Arrival.received e readings utc instant)
    → is_none (next_event_id s.ids readings) ≡ false
Awake-returns s e [] utc instant h = absurd h
Awake-returns s e (now ∷ readings) utc instant h = next_event_id-returns s.ids now readings (λ same.
    advances s.ids readings (subst (λ ms. ¬ All (λ t. timestamp_millis t ≡ ms) readings) same h))

take_event-returns :
    (s : Ingest) (e : KronicalEvent) (utc : DateTime) (instant : ℕ)
    (r : Option (IdState × (DateTime × ℕ)))
    → is_none r ≡ false
    → is_none (take_event s e utc instant r) ≡ false
take_event-returns s e utc instant none h = cc
take_event-returns s e utc instant (some r) h = refl

on_arrival-returns : (s : Ingest) (a : Arrival) → Awake a → is_none (on_arrival s a) ≡ false
unfolding on_arrival
on_arrival-returns s (Arrival.received e readings utc instant) h = ground (
  arith,
  take_event-returns s e utc instant (next_event_id s.ids readings),
  Awake-returns s e readings utc instant,
)
on_arrival-returns s Arrival.disconnected h = refl
on_arrival-returns s (Arrival.ticker utc before after) h = ground arith

next_turn-returns :
    (go : Ingest → Option (Ingest × List DeriveCommand)) (o : Option Turn)
    → is_none o ≡ false
    → ((s' : Ingest) → is_none (go s') ≡ false)
    → is_none (next_turn go o) ≡ false
next_turn-returns go none h k = cc
next_turn-returns go (some ((s', sends), over)) h k =
    if_elim (λ r. is_none r ≡ false) over (some (s', sends)) (continued (go s') sends) (λ e. refl)
      (λ e. later (go s') (k s'))
  where
    later :
        (r : Option (Ingest × List DeriveCommand))
        → is_none r ≡ false
        → is_none (continued r sends) ≡ false
    later none h = cc
    later (some r) h = refl

-- If the readings that are made for each arriving event show two different milliseconds, no wait
-- for the clock goes on, from any state of the stage: every turn of the run is taken.
pub run_ingest-returns :
    (s : Ingest) (arrivals : List Arrival)
    → All Awake arrivals
    → is_none (run_ingest s arrivals) ≡ false
unfolding run_ingest
run_ingest-returns s [] h = refl
run_ingest-returns s (a ∷ as') h =
    next_turn-returns (λ s'. run_ingest s' as') (on_arrival s a) (on_arrival-returns s a h.0)
      (λ s'. run_ingest-returns s' as' h.1)
