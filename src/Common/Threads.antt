-- ===== src/Common/Threads.antt =====
-- `ThreadRegistry` and `ThreadHandle` (crates/common/src/threading.rs). A `JoinHandle` is a value of
-- a type `H`; what the system answers to a spawn and to a join is an argument. Each definition is
-- one stay under the registry's mutex, so `join` is two, with the wait in between.
pub mod Ids
pub mod Handles
use kronical.Prelude.{
  ℕ, ◌+◌, ◌%◌, String, Bool, true, false, ◌&&◌, ◌||◌, Option, none, some, List, [], ◌∷◌, ◌++◌, map,
  ◌==◌, is_none, length, if◌then◌else◌,
}
use kronical.Prelude.Text.{str_eq}

pub data ThreadStatus : Type 0 where
  reserved running joining joined detached panicked : ThreadStatus

pub record ThreadSnapshot : Type 0 where
  pub id : ℕ
  pub name : String
  pub status : ThreadStatus

pub record ThreadRecord (H : Type 0) : Type 0 where
  pub id : ℕ
  pub name : String
  pub status : ThreadStatus
  pub handle : Option H

pub record ThreadRegistry (H : Type 0) : Type 0 where
  pub next_id : ℕ
  pub records : List (ThreadRecord H)

-- A `ThreadHandle`, beside its reference to the registry.
pub record ThreadHandle : Type 0 where
  pub id : ℕ
  pub name : String

abbrev active_status : ThreadStatus → Bool
active_status ThreadStatus.running = true
active_status ThreadStatus.joining = true
active_status _ = false

-- `fetch_add` wraps around on a `usize` of 64 bits.
abbrev pub next_of : ℕ → ℕ
next_of n = (n + 1) % 0x1_0000_0000_0000_0000

module _ {H : Type 0} where
  abbrev pub is_active : ThreadRecord H → Bool
  is_active r = active_status r.status

  unfoldable pub new : ThreadRegistry H
  new = record { next_id = 0; records = [] }

  abbrev pub named : String → List (ThreadRecord H) → Bool
  named name [] = false
  named name (r ∷ rs) = str_eq r.name name || named name rs

  abbrev pub add : ThreadRegistry H → String → ThreadStatus → Option H → ThreadRegistry H
  add reg name status handle = record {
    next_id = next_of reg.next_id;
    records =
        reg.records
        ++ (record { id = reg.next_id; name = name; status = status; handle = handle } ∷ []);
  }

  unfoldable pub reserve_slots : ThreadRegistry H → List String → ThreadRegistry H
  reserve_slots reg [] = reg
  reserve_slots reg (name ∷ slots) =
      let kept = reserve_slots reg slots in
      let added = reserve_slots (add reg name ThreadStatus.reserved none) slots in
      if named name reg.records then kept else added

  unfoldable pub with_slots : List String → ThreadRegistry H
  unfolding new reserve_slots
  with_slots slots = reserve_slots new slots

  abbrev pub grown :
      ThreadRecord H → Option (ℕ × List (ThreadRecord H)) → Option (ℕ × List (ThreadRecord H))
  grown r none = none
  grown r (some (id, rs)) = some (id, r ∷ rs)

  -- The first record with the name and without a handle takes the handle, and runs.
  unfoldable pub claim : String → H → List (ThreadRecord H) → Option (ℕ × List (ThreadRecord H))
  claim name h [] = none
  claim name h (r ∷ rs) =
      let rest = grown r (claim name h rs) in
      if str_eq r.name name && is_none r.handle
      then some (r.id, record r { status = ThreadStatus.running; handle = some h } ∷ rs)
      else rest

  abbrev registered :
      ThreadRegistry H
      → String
      → H
      → Option (ℕ × List (ThreadRecord H))
      → ThreadRegistry H × ThreadHandle
  registered reg name h none =
      (add reg name ThreadStatus.running (some h), record { id = reg.next_id; name = name })
  registered reg name h (some (id, rs)) =
      (record reg { records = rs }, record { id = id; name = name })

  -- `none`, from the system, is a failed spawn: the error is passed on.
  unfoldable pub spawn :
      ThreadRegistry H → String → Option H → ThreadRegistry H × Option ThreadHandle
  unfolding claim
  spawn reg name none = (reg, none)
  spawn reg name (some h) =
      let (reg', handle) = registered reg name h (claim name h reg.records) in (reg', some handle)

  unfoldable pub active_thread_names : ThreadRegistry H → List String
  active_thread_names reg = names reg.records
    where
      names : List (ThreadRecord H) → List String
      names [] = []
      names (r ∷ rs) = let rest = names rs in if is_active r then r.name ∷ rest else rest

  unfoldable pub active_count : ThreadRegistry H → ℕ
  active_count reg = count reg.records
    where
      count : List (ThreadRecord H) → ℕ
      count [] = 0
      count (r ∷ rs) = let rest = count rs in if is_active r then rest + 1 else rest

  unfoldable pub snapshot : ThreadRegistry H → List ThreadSnapshot
  snapshot reg = map (λ r. record { id = r.id; name = r.name; status = r.status }) reg.records

  abbrev pub lookup_id : ℕ → List (ThreadRecord H) → Option (ThreadRecord H)
  lookup_id id [] = none
  lookup_id id (r ∷ rs) = if r.id == id then some r else lookup_id id rs

  -- `find` by the id, and a change to what it found.
  unfoldable pub update_id :
      ℕ → (ThreadRecord H → ThreadRecord H) → List (ThreadRecord H) → List (ThreadRecord H)
  update_id id f [] = []
  update_id id f (r ∷ rs) =
      let rest = update_id id f rs in if r.id == id then f r ∷ rs else r ∷ rest

  abbrev pub handle_of : Option (ThreadRecord H) → Option H
  handle_of none = none
  handle_of (some r) = r.handle

  abbrev pub set_joining : ThreadRecord H → ThreadRecord H
  set_joining r = record r { status = ThreadStatus.joining; handle = none }

  -- `join`, up to the wait: what to wait for.
  unfoldable pub begin_join : ThreadRegistry H → ℕ → ThreadRegistry H × Option H
  unfolding update_id
  begin_join reg id = (
    record reg { records = update_id id set_joining reg.records },
    handle_of (lookup_id id reg.records),
  )

  abbrev pub set_result : Bool → ThreadRecord H → ThreadRecord H
  set_result ok r = record r { status = if ok then ThreadStatus.joined else ThreadStatus.panicked }

  -- `join`, after the wait, which ended in `ok`; without a handle to wait for it is `true`.
  unfoldable pub end_join : ThreadRegistry H → ℕ → Bool → ThreadRegistry H
  unfolding update_id
  end_join reg id ok = record reg { records = update_id id (set_result ok) reg.records }

  abbrev pub let_go : ThreadRecord H → ThreadRecord H
  let_go r = record r {
    status = if is_none r.handle then r.status else ThreadStatus.detached;
    handle = none;
  }

  -- `Drop`, which runs at the end of `join` too.
  unfoldable pub drop_handle : ThreadRegistry H → ℕ → ThreadRegistry H
  unfolding update_id
  drop_handle reg id = record reg { records = update_id id let_go reg.records }
