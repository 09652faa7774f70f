-- ===== src/Snapshot/Bus.antt =====
-- What the bus keeps of all that was pushed to it, and what it publishes.
use kronical.Prelude.{
  ℕ, ◌+◌, ◌-◌, ◌%◌, ◌≤◌, ◌<◌, inl, inr, leb, leb→le, Bool-cases, ◌≡◌, refl, ap, sym, min, ◌∙◌, List,
  [], ◌∷◌, ◌++◌, length, take, drop, last_n, arith, String,
}
use kronical.Snapshot.{
  Transition, SnapshotBus, Published, push_bounded, push_transition, push_health,
  recent_transitions, publish_basic,
}
use kronical.Snapshot.Ring.{push_bounded-last_n, length-reverse, take_all, take-reverse-drop}
use native.Mathlib.Nat.{mod-eq_of_lt}
use mathlib.Core.List.{reverse, foldl, append_assoc, append-nil}

-- A bus that saw the transitions `seen`, oldest first.
abbrev pub Holds : SnapshotBus → List Transition → Type 0
Holds bus seen = bus.transitions ≡ last_n 64 seen

-- A bus that keeps exactly the newest 64 of the transitions that it saw, in order, does so after
-- any further pushes.
pub push_transitions-Holds :
    (bus : SnapshotBus) (seen ts : List Transition)
    → Holds bus seen
    → Holds (foldl push_transition bus ts) (seen ++ ts)
unfolding push_transition
push_transitions-Holds bus seen [] h = h ∙ ap (last_n 64) (sym (append-nil seen))
push_transitions-Holds bus seen (t ∷ ts) h = rw (← append_assoc seen (t ∷ []) ts) (
    push_transitions-Holds (push_transition bus t) (seen ++ (t ∷ [])) ts
      (ap (λ l. push_bounded l t) h ∙ push_bounded-last_n seen t))

-- Health messages are kept in the same way.
pub push_health-last_n :
    (bus : SnapshotBus) (seen msgs : List String)
    → bus.health ≡ last_n 64 seen
    → (foldl push_health bus msgs).health ≡ last_n 64 (seen ++ msgs)
unfolding push_health
push_health-last_n bus seen [] h = h ∙ ap (last_n 64) (sym (append-nil seen))
push_health-last_n bus seen (m ∷ msgs) h = rw (← append_assoc seen (m ∷ []) msgs) (
    push_health-last_n (push_health bus m) (seen ++ (m ∷ [])) msgs
      (ap (λ l. push_bounded l m) h ∙ push_bounded-last_n seen m))

recent-take :
    (bus : SnapshotBus) (limit : ℕ)
    → recent_transitions bus limit ≡ take limit (reverse bus.transitions)
unfolding recent_transitions
recent-take bus limit =
    ap (λ n. take n (reverse bus.transitions))
      (ap (min limit) (sym (length-reverse bus.transitions)))
    ∙ take_all limit (reverse bus.transitions)

-- On a bus that keeps the newest 64 of the transitions that it saw, the recent transitions up to a
-- limit of at most 64 are the newest of all that it saw, the newest first.
pub recent_transitions-newest :
    (bus : SnapshotBus) (seen : List Transition) (limit : ℕ)
    → Holds bus seen
    → limit ≤ 64
    → recent_transitions bus limit ≡ take limit (reverse seen)
recent_transitions-newest bus seen limit h l =
    recent-take bus limit ∙ (ap (λ ts. take limit (reverse ts)) h ∙ kept)
  where
    kept : take limit (reverse (last_n 64 seen)) ≡ take limit (reverse seen)
    kept = elim (Bool-cases (leb 64 (length seen))) [
      | inl full ↦
          take-reverse-drop limit (length seen - 64) seen
            (omega (arith, leb→le 64 (length seen) full))
      | inr room ↦
          let short : length seen - 64 ≡ 0 = ground arith in
          ap (λ k. take limit (reverse (drop k seen))) short
    ]

-- On a bus that keeps the newest 64 of the transitions that it saw, and whose sequence number is
-- not at its end, a published snapshot has the next number, the run's id, the newest five
-- transitions of all that it saw, the newest first, and the counts and records that the caller
-- gave; the queues of the bus stay as they are.
pub publish_basic-newest :
    (bus : SnapshotBus) (seen : List Transition) (mono_ns : ℕ) (p : Published)
    → Holds bus seen
    → bus.seq + 1 < 0x1_0000_0000_0000_0000
    → let bus' = publish_basic bus mono_ns p in
      (bus'.seq ≡ bus.seq + 1)
      × (bus'.snapshot.seq ≡ bus'.seq)
      × (bus'.snapshot.run_id ≡ bus.run_id)
      × (bus'.snapshot.transitions_recent ≡ take 5 (reverse seen))
      × (bus'.snapshot.counts ≡ p.counts)
      × (bus'.snapshot.records ≡ p.records)
      × Holds bus' seen
      × (bus'.health ≡ bus.health)
unfolding publish_basic
publish_basic-newest bus seen mono_ns p h small =
    let next : (bus.seq + 1) % 0x1_0000_0000_0000_0000 ≡ bus.seq + 1 = mod-eq_of_lt small in
    (next, refl, refl, recent_transitions-newest bus seen 5 h (omega arith), refl, refl, h, refl)
