-- ===== src/Examples/Intake.antt =====
-- The ingest stage at concrete inputs.
use kronical.Prelude.{ℕ, ◌*◌, ◌≡◌, refl, false, some, List, [], ◌∷◌, ◌++◌, map, arith, is_none}
use kronical.Pipeline.Ingest.{
  KronicalEvent, IdState, Ingest, Arrival, next_event_id, make_id, run_ingest,
}
use kronical.Pipeline.Ingest.Flow.{content, arriving, Accounted, run_ingest-Accounted}
use kronical.Pipeline.Ingest.Waits.{run_ingest-returns}
use kronical.Pipeline.Ingest.Ids.{AllGive, next_event_id-Gives}
use kronical.Time.{DateTime, millisecond}

abbrev at_ms : ℕ → DateTime
at_ms n = n * millisecond

-- The last number of millisecond 7 was given.
abbrev worn : IdState
worn = record { last_event_ms = 7; event_seq = 4095 }

abbrev readings : List DateTime
readings = at_ms 7 ∷ at_ms 7 ∷ at_ms 8 ∷ []

-- The next id is the first of millisecond 8.
worn_next :
    next_event_id worn readings
    ≡ some (record { last_event_ms = 8; event_seq = 0 }, (at_ms 8, 8 * 4096))
unfolding next_event_id make_id
worn_next = refl

next_event_id-Gives_example : AllGive worn (next_event_id worn readings)
next_event_id-Gives_example =
    next_event_id-Gives worn readings (record { seq = omega arith; ms = omega arith })
      ((omega arith, omega arith), ((omega arith, omega arith), ((omega arith, omega arith), tt)))

abbrev idle : Ingest
idle = record {
  pending = [];
  ids = record { last_event_ms = 0; event_seq = 0 };
  last_idle_tick = 0;
}

-- Two keys, a flush, another key, and the shutdown.
abbrev arrivals : List Arrival
arrivals =
    Arrival.received KronicalEvent.keyboard_input (at_ms 5 ∷ at_ms 6 ∷ []) (at_ms 6) 6
    ∷ Arrival.received KronicalEvent.keyboard_input (at_ms 6 ∷ at_ms 7 ∷ []) (at_ms 7) 7
    ∷ Arrival.ticker (at_ms 50) 50 51
    ∷ Arrival.received KronicalEvent.keyboard_input (at_ms 60 ∷ at_ms 61 ∷ []) (at_ms 61) 61
    ∷ Arrival.received KronicalEvent.shutdown (at_ms 70 ∷ at_ms 71 ∷ []) (at_ms 71) 71
    ∷ []

run_ingest-Accounted_example :
    Accounted (map content [] ++ map content (arriving arrivals)) (run_ingest idle arrivals)
run_ingest-Accounted_example = run_ingest-Accounted idle arrivals

run_ingest-returns_example : is_none (run_ingest idle arrivals) ≡ false
run_ingest-returns_example = run_ingest-returns idle arrivals (
  (λ h. omega (arith, h.0)),
  ((λ h. omega (arith, h.0)), (tt, ((λ h. omega (arith, h.0)), ((λ h. omega (arith, h.0)), tt)))),
)
