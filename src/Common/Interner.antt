-- ===== src/Common/Interner.antt =====
-- `StringInterner` (crates/common/src/interner.rs). A shared text is an allocation, named by a number;
-- the map holds weak references, and `alive` says at the time of a call which allocations others
-- still hold.
use kronical.Prelude.{
  ℕ, ◌+◌, ◌≤◌, ◌<◌, ◌≡◌, refl, String, Bool, false, Option, none, some, List, [], ◌∷◌, length,
  arith, leb, if◌then◌else◌, if_elim,
}
use kronical.Prelude.Classes.{string_eq}
use kronical.Common.Maps.{lookup, insert, length-insert-le}

pub record StringInterner : Type 0 where
  pub map : List (String × ℕ)
  pub max_entries : ℕ
  pub allocations : ℕ

unfoldable new : StringInterner
new = record { map = []; max_entries = 4096; allocations = 0 }

module _ (alive : ℕ → Bool) where
  abbrev retain : List (String × ℕ) → List (String × ℕ)
  retain [] = []
  retain ((s, a) ∷ m) = let rest = retain m in if alive a then (s, a) ∷ rest else rest

  abbrev cleared : StringInterner → StringInterner
  cleared i = if leb i.max_entries (length i.map) then record i { map = [] } else i

  abbrev cleanup_dead_references : StringInterner → StringInterner
  cleanup_dead_references i = cleared (record i { map = retain i.map })

  -- A new allocation, in a map that is cleaned again if it is still full.
  abbrev allocate : StringInterner → String → StringInterner × ℕ
  allocate i s =
      let roomy = if leb i.max_entries (length i.map) then cleanup_dead_references i else i in
      (
        record roomy {
          map = insert s roomy.allocations roomy.map;
          allocations = roomy.allocations + 1;
        },
        roomy.allocations,
      )

  abbrev shared : Option ℕ → StringInterner → String → StringInterner × ℕ
  shared none i s = allocate i s
  shared (some a) i s = if alive a then (i, a) else allocate i s

  unfoldable intern : StringInterner → String → StringInterner × ℕ
  intern i s = let cleaned = cleanup_dead_references i in shared (lookup s cleaned.map) cleaned s

  cleanup-IsRoomy :
      (i : StringInterner)
      → 0 < i.max_entries
      → (length (cleanup_dead_references i).map < i.max_entries)
        × ((cleanup_dead_references i).max_entries ≡ i.max_entries)
  cleanup-IsRoomy i h =
      if_elim
        (λ (j : StringInterner). (length j.map < i.max_entries) × (j.max_entries ≡ i.max_entries))
        (leb i.max_entries (length (retain i.map))) _ _ (λ _. (h, refl))
        λ room. (ground arith, refl)

  allocate-IsBounded :
      (i : StringInterner) (s : String)
      → length i.map < i.max_entries
      → length (allocate i s).0.map ≤ i.max_entries
  allocate-IsBounded i s room =
      let kept : leb i.max_entries (length i.map) ≡ false = ground arith in
      rw kept (omega (arith, length-insert-le s i.allocations i.map))

  shared-IsBounded :
      (o : Option ℕ) (i : StringInterner) (s : String)
      → length i.map < i.max_entries
      → length (shared o i s).0.map ≤ i.max_entries
  shared-IsBounded none i s room = allocate-IsBounded i s room
  shared-IsBounded (some a) i s room =
      if_elim (λ (r : StringInterner × ℕ). length r.0.map ≤ i.max_entries) (alive a) (i, a)
        (allocate i s) (λ _. omega arith) λ _. allocate-IsBounded i s room

  -- After a call the map holds at most `max_entries` texts, where at least one may be held.
  intern-IsBounded :
      (i : StringInterner) (s : String)
      → 0 < i.max_entries
      → length (intern i s).0.map ≤ i.max_entries
  unfolding intern
  intern-IsBounded i s h =
      let (room, same) = cleanup-IsRoomy i h in
      let cleaned = cleanup_dead_references i in
      omega
        (arith, shared-IsBounded (lookup s cleaned.map) cleaned s (omega (arith, room, same)), same)
