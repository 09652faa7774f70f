-- ===== src/Common/Threads/Ids.antt =====
-- The ids of a registry's records.
use kronical.Prelude.{
  ℕ, ◌+◌, ◌≤◌, ◌<◌, ◌≡◌, refl, ap, sym, true, false, String, Option, none, some, List, [], ◌∷◌,
  ◌++◌, arith, if_elim, length, is_none, ◌&&◌,
}
use kronical.Prelude.Text.{str_eq}
use kronical.Common.Threads.{
  ThreadRecord, ThreadRegistry, ThreadStatus, next_of, add, named, reserve_slots, claim, grown,
  registered, spawn, update_id, set_joining, set_result, let_go, begin_join, end_join, drop_handle,
}

module _ {H : Type 0} where
  -- The ids, in the order of the records.
  abbrev pub ids : List (ThreadRecord H) → List ℕ
  ids [] = []
  ids (r ∷ rs) = r.id ∷ ids rs

  pub update_id-ids :
      (id : ℕ) (f : ThreadRecord H → ThreadRecord H) (rs : List (ThreadRecord H))
      → ((r : ThreadRecord H) → (f r).id ≡ r.id)
      → ids (update_id id f rs) ≡ ids rs
  unfolding update_id
  update_id-ids id f [] h = refl
  update_id-ids id f (r ∷ rs) h = ground (arith, h r, update_id-ids id f rs h)

  abbrev ClaimIds : List (ThreadRecord H) → Option (ℕ × List (ThreadRecord H)) → Type 0
  ClaimIds rs none = Unit
  ClaimIds rs (some (id, rs')) = ids rs' ≡ ids rs

  grown-ids :
      (r : ThreadRecord H) (rs : List (ThreadRecord H)) (o : Option (ℕ × List (ThreadRecord H)))
      → ClaimIds rs o
      → ClaimIds (r ∷ rs) (grown r o)
  grown-ids r rs none h = tt
  grown-ids r rs (some (id, rs')) h = ap (λ l. r.id ∷ l) h

  claim-ids : (name : String) (h : H) (rs : List (ThreadRecord H)) → ClaimIds rs (claim name h rs)
  unfolding claim
  claim-ids name h [] = tt
  claim-ids name h (r ∷ rs) =
      if_elim (ClaimIds (r ∷ rs)) (str_eq r.name name && is_none r.handle) (some _)
        (grown r (claim name h rs)) (λ e. refl) (λ e. grown-ids r rs _ (claim-ids name h rs))

-- The ids are given in order, from 0 and without a gap.
abbrev pub Counted : ℕ → List ℕ → ℕ → Type 0
Counted n [] m = n ≡ m
Counted n (id ∷ l) m = (id ≡ n) × Counted (n + 1) l m

pub Counted-le : (n m : ℕ) (l : List ℕ) → Counted n l m → n ≤ m
Counted-le n m [] h = omega (arith, h)
Counted-le n m (id ∷ l) h = omega (arith, Counted-le (n + 1) m l h.1)

Counted-snoc : (n m : ℕ) (l : List ℕ) → Counted n l m → Counted n (l ++ (m ∷ [])) (m + 1)
Counted-snoc n m [] h = (sym h, ap (λ k. k + 1) h)
Counted-snoc n m (id ∷ l) h = (h.0, Counted-snoc (n + 1) m l h.1)

-- One call by a client of the registry.
pub data Call (H : Type 0) : Type 0 where
  reserve : List String → Call H
  spawned : String → Option H → Call H
  begun ended_ok ended_err dropped : ℕ → Call H

module _ {H : Type 0} where
  unfoldable pub step : ThreadRegistry H → Call H → ThreadRegistry H
  unfolding reserve_slots spawn begin_join end_join drop_handle
  step reg (Call.reserve slots) = reserve_slots reg slots
  step reg (Call.spawned name answer) = (spawn reg name answer).0
  step reg (Call.begun id) = (begin_join reg id).0
  step reg (Call.ended_ok id) = end_join reg id true
  step reg (Call.ended_err id) = end_join reg id false
  step reg (Call.dropped id) = drop_handle reg id

  unfoldable pub steps : ThreadRegistry H → List (Call H) → ThreadRegistry H
  steps reg [] = reg
  steps reg (c ∷ cs) = steps (step reg c) cs

  abbrev pub IsValid : ThreadRegistry H → Type 0
  IsValid reg = Counted 0 (ids reg.records) reg.next_id

  -- How many records a call can add.
  abbrev pub room : Call H → ℕ
  room (Call.reserve slots) = length slots
  room (Call.spawned name answer) = 1
  room _ = 0

  abbrev pub rooms : List (Call H) → ℕ
  rooms [] = 0
  rooms (c ∷ cs) = room c + rooms cs

  ids-append : (xs ys : List (ThreadRecord H)) → ids (xs ++ ys) ≡ ids xs ++ ids ys
  ids-append [] ys = refl
  ids-append (x ∷ xs) ys = ap (λ l. x.id ∷ l) (ids-append xs ys)

  -- What a call does to the numbering: it stays valid, and grows by `n` at most.
  record Grows (reg : ThreadRegistry H) (n : ℕ) (reg' : ThreadRegistry H) : Type 0 where
    valid : IsValid reg'
    bounded : reg'.next_id ≤ reg.next_id + n

  add-Grows :
      (reg : ThreadRegistry H) (name : String) (status : ThreadStatus) (h : Option H)
      → IsValid reg
      → reg.next_id + 1 < 0x1_0000_0000_0000_0000
      → Grows reg 1 (add reg name status h)
  add-Grows reg name status h v small =
      let e : next_of reg.next_id ≡ reg.next_id + 1 = omega arith in
      let l =
        ids-append reg.records
          (record { id = reg.next_id; name = name; status = status; handle = h } ∷ []) in
      record {
        valid = rw e (rw l (Counted-snoc 0 reg.next_id (ids reg.records) v));
        bounded = omega (arith, e);
      }

  reserve_slots-Grows :
      (reg : ThreadRegistry H) (slots : List String)
      → IsValid reg
      → reg.next_id + length slots < 0x1_0000_0000_0000_0000
      → Grows reg (length slots) (reserve_slots reg slots)
  unfolding reserve_slots
  reserve_slots-Grows reg [] v small = record { valid = v; bounded = omega arith }
  reserve_slots-Grows reg (name ∷ slots) v small =
      let more = add reg name ThreadStatus.reserved none in
      let g = add-Grows reg name ThreadStatus.reserved none v (omega arith) in
      if_elim (Grows reg (length (name ∷ slots))) (named name reg.records) (reserve_slots reg slots)
        (reserve_slots more slots)
        (λ e.
          let k = reserve_slots-Grows reg slots v (omega arith) in
          record { valid = k.valid; bounded = omega (arith, k.bounded) })
        (λ e.
          let k = reserve_slots-Grows more slots g.valid (omega (arith, g.bounded)) in
          record { valid = k.valid; bounded = omega (arith, k.bounded, g.bounded) })

  registered-Grows :
      (reg : ThreadRegistry H) (name : String) (h : H) (o : Option (ℕ × List (ThreadRecord H)))
      → IsValid reg
      → reg.next_id + 1 < 0x1_0000_0000_0000_0000
      → ClaimIds reg.records o
      → Grows reg 1 (registered reg name h o).0
  registered-Grows reg name h none v small c =
      add-Grows reg name ThreadStatus.running (some h) v small
  registered-Grows reg name h (some (id, rs)) v small c = record {
    valid = rw c v;
    bounded = omega arith;
  }

  same-Grows :
      (reg : ThreadRegistry H) (rs : List (ThreadRecord H))
      → IsValid reg
      → ids rs ≡ ids reg.records
      → Grows reg 0 (record reg { records = rs })
  same-Grows reg rs v e = record { valid = rw e v; bounded = omega arith }

  step-Grows :
      (reg : ThreadRegistry H) (c : Call H)
      → IsValid reg
      → reg.next_id + room c < 0x1_0000_0000_0000_0000
      → Grows reg (room c) (step reg c)
  unfolding step spawn begin_join end_join drop_handle
  step-Grows reg (Call.reserve slots) v small = reserve_slots-Grows reg slots v small
  step-Grows reg (Call.spawned name none) v small = record { valid = v; bounded = omega arith }
  step-Grows reg (Call.spawned name (some h)) v small =
      registered-Grows reg name h _ v small (claim-ids name h reg.records)
  step-Grows reg (Call.begun id) v small =
      same-Grows reg _ v (update_id-ids id set_joining reg.records (λ r. refl))
  step-Grows reg (Call.ended_ok id) v small =
      same-Grows reg _ v (update_id-ids id (set_result true) reg.records (λ r. refl))
  step-Grows reg (Call.ended_err id) v small =
      same-Grows reg _ v (update_id-ids id (set_result false) reg.records (λ r. refl))
  step-Grows reg (Call.dropped id) v small =
      same-Grows reg _ v (update_id-ids id let_go reg.records (λ r. refl))

  -- From a registry whose records are numbered from 0 without a gap, with the first free number as
  -- its next id, any calls in any order leave such a registry, while the ids do not run out.
  pub steps-IsValid :
      (reg : ThreadRegistry H) (cs : List (Call H))
      → IsValid reg
      → reg.next_id + rooms cs < 0x1_0000_0000_0000_0000
      → IsValid (steps reg cs)
  unfolding steps
  steps-IsValid reg [] v small = v
  steps-IsValid reg (c ∷ cs) v small =
      let g = step-Grows reg c v (omega arith) in
      steps-IsValid (step reg c) cs g.valid (omega (arith, g.bounded))
