-- ===== src/Examples/Registry.antt =====
-- The thread registry at concrete inputs. Join handles are numbers.
use kronical.Prelude.{ℕ, ◌≡◌, refl, some, List, [], ◌∷◌, arith}
use kronical.Common.Threads.{ThreadRecord, ThreadRegistry, ThreadStatus, spawn, begin_join}
use kronical.Common.Threads.Handles.{Overwritten, join-overwrites}
use kronical.Common.Threads.Ids.{Call, IsValid, steps, steps-IsValid}

abbrev worker : ThreadRecord ℕ
worker = record { id = 0; name = "worker"; status = ThreadStatus.running; handle = some 7 }

abbrev registry : ThreadRegistry ℕ
registry = record { next_id = 1; records = worker ∷ [] }

abbrev calls : List (Call ℕ)
calls =
    Call.reserve ("worker" ∷ "timer" ∷ [])
    ∷ Call.spawned "timer" (some 8)
    ∷ Call.begun 0
    ∷ Call.ended_ok 0
    ∷ []

steps-IsValid_example : IsValid (steps registry calls)
steps-IsValid_example = steps-IsValid registry calls (refl, refl) (omega arith)

-- The second worker takes the id of the first, which is being joined.
taken_over :
    (spawn (begin_join registry 0).0 "worker" (some 8)).1
    ≡ some (record { id = 0; name = "worker" })
unfolding spawn begin_join
taken_over = refl

join-overwrites_example : Overwritten 0 8 (spawn (begin_join registry 0).0 "worker" (some 8))
join-overwrites_example = join-overwrites registry 0 "worker" 8 (refl, refl)
