-- ===== src/Common/Threads/Handles.antt =====
-- What a thread's handle finds in the registry.
use kronical.Prelude.{
  ℕ, ◌+◌, ◌≤◌, ◌<◌, ◌≡◌, refl, ap, ◌∙◌, Bool, true, false, String, Option, none, some, List, [],
  ◌∷◌, ◌++◌, arith, if_elim, if◌then◌else◌, ◌==◌, is_none, ◌&&◌,
}
use kronical.Prelude.Text.{str_eq, eq_iff}
use mathlib.Core.Path.{subst}
use kronical.Common.Threads.{
  ThreadRecord, ThreadRegistry, ThreadHandle, ThreadStatus, claim, grown, registered, spawn,
  lookup_id, update_id, set_joining, set_result, let_go, begin_join, end_join, drop_handle,
}
use kronical.Common.Threads.Ids.{ids, Counted, Counted-le, IsValid, update_id-ids}

module _ {H : Type 0} where
  abbrev changed :
      (ThreadRecord H → ThreadRecord H) → Option (ThreadRecord H) → Option (ThreadRecord H)
  changed f none = none
  changed f (some r) = some (f r)

  lookup-update_id :
      (id : ℕ) (f : ThreadRecord H → ThreadRecord H) (rs : List (ThreadRecord H))
      → ((r : ThreadRecord H) → (f r).id ≡ r.id)
      → lookup_id id (update_id id f rs) ≡ changed f (lookup_id id rs)
  unfolding update_id
  lookup-update_id id f [] h = refl
  lookup-update_id id f (r ∷ rs) h = ground (arith, h r, lookup-update_id id f rs h)

  -- A `join` of a registered id, with the drop of the handle that ends it and no other call in
  -- between, leaves the record without a join handle, and joined or panicked as the thread ended:
  -- never detached.
  pub join-result :
      (reg : ThreadRegistry H) (id : ℕ) (r : ThreadRecord H) (ok : Bool)
      → lookup_id id reg.records ≡ some r
      → lookup_id id (drop_handle (end_join (begin_join reg id).0 id ok) id).records
        ≡ some (record r {
          status = if ok then ThreadStatus.joined else ThreadStatus.panicked;
          handle = none;
        })
  unfolding drop_handle end_join begin_join
  join-result reg id r ok h =
      let joining = update_id id set_joining reg.records in
      let ended = update_id id (set_result ok) joining in
      lookup-update_id id let_go ended (λ x. refl)
      ∙ (ap (changed let_go) (lookup-update_id id (set_result ok) joining (λ x. refl))
          ∙ (ap (λ o. changed let_go (changed (set_result ok) o))
                (lookup-update_id id set_joining reg.records (λ x. refl))
              ∙ ap (λ o. changed let_go (changed (set_result ok) (changed set_joining o))) h))

  -- A handle that is dropped while its record has the join handle leaves the record detached and
  -- without it; dropped again, it changes nothing there.
  pub drop_handle-detached :
      (reg : ThreadRegistry H) (id : ℕ) (r : ThreadRecord H) (h : H)
      → lookup_id id reg.records ≡ some r
      → r.handle ≡ some h
      → let gone = some (record r { status = ThreadStatus.detached; handle = none }) in
        (lookup_id id (drop_handle reg id).records ≡ gone)
        × (lookup_id id (drop_handle (drop_handle reg id) id).records ≡ gone)
  unfolding drop_handle
  drop_handle-detached reg id r h found held =
      let once = lookup-update_id id let_go reg.records (λ x. refl) in
      let twice = lookup-update_id id let_go (update_id id let_go reg.records) (λ x. refl) in
      let first : lookup_id id (update_id id let_go reg.records)
          ≡ some (record r { status = ThreadStatus.detached; handle = none }) =
        once ∙ (ap (changed let_go) found ∙ rw held refl) in
      (first, twice ∙ ap (changed let_go) first)

  -- The record with the id runs, under the name and with the handle.
  pub record Runs (name : String) (h : H) (id : ℕ) (rs : List (ThreadRecord H)) : Type 0 where
    pub found : ThreadRecord H
    pub is_found : lookup_id id rs ≡ some found
    pub running : found.status ≡ ThreadStatus.running
    pub holds : found.handle ≡ some h
    pub same_name : found.name ≡ name

  later_Runs :
      (name : String) (h : H) (id : ℕ) (r : ThreadRecord H) (rs : List (ThreadRecord H))
      → r.id < id
      → Runs name h id rs
      → Runs name h id (r ∷ rs)
  later_Runs name h id r rs less runs =
      let apart : (r.id == id) ≡ false = ground arith in
      record {
        found = runs.found;
        is_found = rw apart runs.is_found;
        running = runs.running;
        holds = runs.holds;
        same_name = runs.same_name;
      }

  abbrev Claims : String → H → ℕ → Option (ℕ × List (ThreadRecord H)) → Type 0
  Claims name h n none = Unit
  Claims name h n (some (id, rs)) = (n ≤ id) × Runs name h id rs

  grown-Claims :
      (name : String) (h : H) (n : ℕ) (r : ThreadRecord H) (o : Option (ℕ × List (ThreadRecord H)))
      → r.id ≡ n
      → Claims name h (n + 1) o
      → Claims name h n (grown r o)
  grown-Claims name h n r none e c = tt
  grown-Claims name h n r (some (id, rs)) e c =
      (omega (arith, c.0), later_Runs name h id r rs (omega (arith, e, c.0)) c.1)

  claim-Claims :
      (name : String) (h : H) (n m : ℕ) (rs : List (ThreadRecord H))
      → Counted n (ids rs) m
      → Claims name h n (claim name h rs)
  unfolding claim
  claim-Claims name h n m [] c = tt
  claim-Claims name h n m (r ∷ rs) c =
      if_elim (Claims name h n) (str_eq r.name name && is_none r.handle)
        (some (r.id, record r { status = ThreadStatus.running; handle = some h } ∷ rs))
        (grown r (claim name h rs))
        (λ free.
          let same : (r.id == r.id) ≡ true = ground arith in
          let eq : str_eq r.name name ≡ true = ground arith in
          (
            omega (arith, c.0),
            record {
              found = record r { status = ThreadStatus.running; handle = some h };
              is_found = rw same refl;
              running = refl;
              holds = refl;
              same_name = (eq_iff r.name name).0 eq;
            },
          ))
        (λ taken. grown-Claims name h n r _ c.0 (claim-Claims name h (n + 1) m rs c.1))

  lookup-snoc :
      (n m : ℕ) (rs : List (ThreadRecord H)) (r : ThreadRecord H)
      → Counted n (ids rs) m
      → r.id ≡ m
      → lookup_id m (rs ++ (r ∷ [])) ≡ some r
  lookup-snoc n m [] r c e = let same : (r.id == m) ≡ true = ground arith in rw same refl
  lookup-snoc n m (x ∷ rs) r c e =
      let le = Counted-le (n + 1) m (ids rs) c.1 in
      let apart : (x.id == m) ≡ false = ground (arith, le, c.0) in
      rw apart (lookup-snoc (n + 1) m rs r c.1 e)

  abbrev Registers : String → H → ThreadRegistry H × ThreadHandle → Type 0
  Registers name h (reg, handle) = Runs name h handle.id reg.records × (handle.name ≡ name)

  registered-Registers :
      (reg : ThreadRegistry H) (name : String) (h : H) (o : Option (ℕ × List (ThreadRecord H)))
      → IsValid reg
      → Claims name h 0 o
      → Registers name h (registered reg name h o)
  registered-Registers reg name h none v c = (
    record {
      found = record {
        id = reg.next_id;
        name = name;
        status = ThreadStatus.running;
        handle = some h;
      };
      is_found = lookup-snoc 0 reg.next_id reg.records _ v refl;
      running = refl;
      holds = refl;
      same_name = refl;
    },
    refl,
  )
  registered-Registers reg name h (some (id, rs)) v c = (c.1, refl)

  abbrev pub Spawned : String → H → ThreadRegistry H × Option ThreadHandle → Type 0
  Spawned name h (reg, none) = ⊥
  Spawned name h (reg, some handle) = Runs name h handle.id reg.records × (handle.name ≡ name)

  -- In a registry whose records are numbered in order, a spawn that the system grants returns a
  -- handle with the name, whose id finds the thread's record: running, under the name, and with
  -- the thread's join handle.
  pub spawn-Spawned :
      (reg : ThreadRegistry H) (name : String) (h : H)
      → IsValid reg
      → Spawned name h (spawn reg name (some h))
  unfolding spawn
  spawn-Spawned reg name h v =
      registered-Registers reg name h _ v (claim-Claims name h 0 reg.next_id reg.records v)

  abbrev pub IsLost : Option (ThreadRecord H) → Type 0
  IsLost none = ⊥
  IsLost (some r) = (r.status ≡ ThreadStatus.detached) × (r.handle ≡ none)

  update_id-IsLost :
      (name : String) (h : H) (id : ℕ) (rs : List (ThreadRecord H))
      → Runs name h id rs
      → IsLost (lookup_id id (update_id id let_go (update_id id (set_result true) rs)))
  update_id-IsLost name h id rs runs =
      rw (lookup-update_id id let_go (update_id id (set_result true) rs) (λ x. refl)) (
        rw (lookup-update_id id (set_result true) rs (λ x. refl))
          (rw runs.is_found (rw runs.holds (refl, refl))))

  abbrev pub Overwritten : ℕ → H → ThreadRegistry H × Option ThreadHandle → Type 0
  Overwritten id h (reg, none) = Unit
  Overwritten id h (reg, some handle) =
      handle.id ≡ id → IsLost (lookup_id id (drop_handle (end_join reg id true) id).records)

  Spawned-Overwritten :
      (name : String) (h : H) (id : ℕ) (out : ThreadRegistry H × Option ThreadHandle)
      → Spawned name h out
      → Overwritten id h out
  unfolding end_join drop_handle
  Spawned-Overwritten name h id (reg, none) s = absurd s
  Spawned-Overwritten name h id (reg, some handle) s = λ same.
      subst (λ i. IsLost (lookup_id i (drop_handle (end_join reg i true) i).records)) same
        (update_id-IsLost name h handle.id reg.records s.0)

  -- In a registry whose records are numbered in order, let a thread be spawned between the two
  -- parts of a join. If it gets the id that is being joined, the end of the join and the drop of
  -- its handle leave the new thread's record detached and without the join handle.
  pub join-overwrites :
      (reg : ThreadRegistry H) (id : ℕ) (name : String) (h : H)
      → IsValid reg
      → Overwritten id h (spawn (begin_join reg id).0 name (some h))
  unfolding begin_join
  join-overwrites reg id name h v =
      let v' : IsValid (begin_join reg id).0 =
        rw (update_id-ids id set_joining reg.records (λ r. refl)) v in
      Spawned-Overwritten name h id _ (spawn-Spawned (begin_join reg id).0 name h v')
