-- ===== src/Compressors/Mouse/Paths.antt =====
-- The trajectories of `MouseTrajectoryCompressor` as chunks of the mouse events, and that it does
-- not panic.
use mathlib.Core.List.{flat_map, map, map-append}
use kronical.Prelude.{
  suc, ◌≤◌, ◌≡◌, refl, sym, ap, ◌∙◌, Bool, true, false, not, ◌||◌, Option, some, List, [], ◌∷◌,
  ◌++◌, length, arith, ltb, leb, leb→le, leb→gt, ◌<◌, Bool-cases, ltb→lt, inl, inr, if◌then◌else◌,
}
use kronical.Prelude.Chunks.{chunk_by, chunk_tail, last_of, last_of_end, emit_each-chunk_by}
use kronical.Prelude.Int.{pos, ltb_ℤ}
use kronical.Prelude.Loops.{emit_each}
use kronical.Compression.{CompactMouseTrajectory, MouseTrajectoryType, ids_of}
use kronical.Compressors.{Floats}
use kronical.Compressors.Mouse.{
  MouseTrajectoryCompressor, PathPoint, extract_mouse_events, all_some, Open, changed,
  calculate_distance, build_trajectory, build_open, breaks, finalize, on_move, all_paths, compress,
}
use kronical.Compressors.Mouse.Simplify.{Keeps, douglas_peucker-Keeps}
use kronical.Events.{MousePosition, RawEvent}
use kronical.Time.{since, num_milliseconds}

abbrev pub Move : Type 0
Move = PathPoint × MouseTrajectoryType

abbrev pub point : Move → PathPoint
point (e, t) = e

abbrev pub kind_of : Move → MouseTrajectoryType
kind_of (e, t) = t

last_of-map {ℓ κ} :
    {A : Type ℓ} {B : Type κ} (g : A → B) (e : A) (es : List A)
    → last_of (g e) (map g es) ≡ g (last_of e es)
last_of-map g e [] = refl
last_of-map g e (x ∷ es) = last_of-map g x es

involution : (b : Bool) → not (not b) ≡ b
involution true = refl
involution false = refl

module _ (f : Floats) (c : MouseTrajectoryCompressor) where
  -- Two movements in a row belong together: within the gap, far enough apart, of the same type.
  abbrev pub joins : Move → Move → Bool
  joins (a, s) (b, t) = not (
      ltb_ℤ c.max_gap_ms (num_milliseconds (since b.timestamp a.timestamp))
      || f.lt (calculate_distance f a.position b.position) c.min_distance
      || changed (some s) t)

  abbrev path_of : Move → List Move → Open
  path_of m ms = (map point (m ∷ ms), some (kind_of (last_of m ms)))

  -- A chunk of more than two movements is a trajectory.
  abbrev pub trajectory : List Move → List (Option CompactMouseTrajectory)
  trajectory [] = []
  trajectory (m ∷ ms) = finalize f c (path_of m ms)

  breaks-joins :
      (m : Move) (ms : List Move) (y : Move) (b : Bool)
      → joins (last_of m ms) y ≡ b
      → breaks f c (path_of m ms) (point y) (kind_of y) ≡ not b
  breaks-joins m ms y b h = rw (last_of-map point m ms) (rw (← h) (sym (involution _)))

  stays :
      (m : Move) (ms : List Move) (y : Move)
      → joins (last_of m ms) y ≡ true
      → on_move f c (path_of m ms) y ≡ (path_of m (ms ++ y ∷ []), [])
  unfolding on_move
  stays m ms y same = rw (breaks-joins m ms y true same) (simp (map-append, last_of_end))

  cuts :
      (m : Move) (ms : List Move) (y : Move)
      → joins (last_of m ms) y ≡ false
      → on_move f c (path_of m ms) y ≡ (path_of y [], trajectory (m ∷ ms))
  unfolding on_move
  cuts m ms y other = rw (breaks-joins m ms y false other) refl

  all_paths-chunks :
      (m : Move) (ms : List Move)
      → all_paths f c (m ∷ ms) ≡ flat_map trajectory (chunk_by joins (m ∷ ms))
  unfolding emit_each on_move
  all_paths-chunks m ms =
      emit_each-chunk_by joins (on_move f c) (finalize f c) trajectory path_of stays cuts
        (λ m ms. refl) m ms

abbrev pub position_of : PathPoint → MousePosition
position_of e = e.position

-- What a trajectory says of the movements that it stands for.
pub record IsTrajectory (m : Move) (ms : List Move) (t : CompactMouseTrajectory) : Type 0 where
  pub start_time : t.start_time ≡ (point m).timestamp
  pub end_time : t.end_time ≡ (point (last_of m ms)).timestamp
  pub start_position : t.start_position ≡ (point m).position
  pub end_position : t.end_position ≡ (point (last_of m ms)).position
  pub same_type : t.event_type ≡ kind_of (last_of m ms)
  pub path : Keeps (point m).position (map position_of (map point ms)) t.simplified_path
  pub ids : ids_of t.raw_event_ids ≡ map (λ (e : PathPoint). e.event_id) (map point (m ∷ ms))

-- Which chunks have a trajectory: those of more than two movements.
pub data Recorded : List (List Move) → List CompactMouseTrajectory → Type 0 where
  done : Recorded [] []
  short :
      {ms : List Move} {chunks : List (List Move)} {ts : List CompactMouseTrajectory}
      → length ms ≤ 2
      → Recorded chunks ts
      → Recorded (ms ∷ chunks) ts
  long :
      {m : Move} {ms : List Move} {chunks : List (List Move)} {t : CompactMouseTrajectory}
      {ts : List CompactMouseTrajectory}
      → 2 ≤ length ms
      → IsTrajectory m ms t
      → Recorded chunks ts
      → Recorded ((m ∷ ms) ∷ chunks) (t ∷ ts)

length-map {ℓ κ} :
    {A : Type ℓ} {B : Type κ} (g : A → B) (xs : List A) → length (map g xs) ≡ length xs
length-map g [] = refl
length-map g (x ∷ xs) = ap suc (length-map g xs)

module _ (f : Floats) (c : MouseTrajectoryCompressor)
    (positive : f.lt c.douglas_peucker_epsilon (f.as_f32 (pos 0)) ≡ false) where
  build-IsTrajectory :
      (m : Move) (ms : List Move)
      → 1 ≤ length ms
      → (t : CompactMouseTrajectory) × (build_open f c (path_of f c m ms) ≡ some t)
        × IsTrajectory m ms t
  unfolding build_trajectory
  build-IsTrajectory m ms more =
      let points = map position_of (map point ms) in
      let size : length points ≡ length ms =
        length-map position_of (map point ms) ∙ length-map point ms in
      let (out, ends, kept) =
        douglas_peucker-Keeps f c.douglas_peucker_epsilon positive (suc (length points))
          (point m).position points (omega (arith, size)) (omega arith) in
      rw ends (
        _,
        refl,
        record {
          start_time = refl;
          end_time = ap (λ (e : PathPoint). e.timestamp) (last_of-map point m ms);
          start_position = refl;
          end_position = ap position_of (last_of-map point m ms);
          same_type = refl;
          path = kept;
          ids = refl;
        },
      )

  finalize-path_of :
      (m : Move) (ms : List Move)
      → finalize f c (path_of f c m ms)
        ≡ (if leb 2 (length ms) then build_open f c (path_of f c m ms) ∷ [] else [])
  unfolding finalize
  finalize-path_of m ms =
      let test : ltb 2 (suc (length (map point ms))) ≡ leb 2 (length ms) =
        rw (length-map point ms) (ground arith) in
      rw test refl

  chunks-Recorded :
      (chunks : List (List Move))
      → (ts : List CompactMouseTrajectory) × (all_some (flat_map (trajectory f c) chunks) ≡ some ts)
        × Recorded chunks ts
  unfolding all_some flat_map
  chunks-Recorded [] = ([], refl, Recorded.done)
  chunks-Recorded ([] ∷ chunks) =
      let (ts, e, r) = chunks-Recorded chunks in (ts, e, Recorded.short (omega arith) r)
  chunks-Recorded ((m ∷ ms) ∷ chunks) =
      let (ts, e, r) = chunks-Recorded chunks in
      elim (Bool-cases (leb 2 (length ms))) [
        | inl many ↦
            let enough : 2 ≤ length ms = leb→le 2 (length ms) many in
            let (t, built, is) = build-IsTrajectory m ms (omega arith) in
            rw (finalize-path_of m ms)
              (rw many (rw built (t ∷ ts, rw e refl, Recorded.long enough is r)))
        | inr few ↦
            rw (finalize-path_of m ms)
              (rw few (ts, e, Recorded.short (omega (arith, leb→gt 2 (length ms) few)) r))
      ]

  -- The guard before the loop changes nothing: fewer than three movements make no long chunk.
  few-Recorded : (moves : List Move) → length moves < 3 → Recorded (chunk_by (joins f c) moves) []
  unfolding chunk_by chunk_tail
  few-Recorded [] h = Recorded.done
  few-Recorded (m ∷ []) h = Recorded.short (omega arith) Recorded.done
  few-Recorded (m ∷ n ∷ []) h = elim (Bool-cases (joins f c m n)) [
    | inl same ↦ rw same (Recorded.short (omega arith) Recorded.done)
    | inr other ↦
        rw other (Recorded.short (omega arith) (Recorded.short (omega arith) Recorded.done))
  ]
  few-Recorded (m ∷ n ∷ o ∷ rest) h = absurd (omega arith)

  guarded-Recorded :
      (moves : List Move)
      → (ts : List CompactMouseTrajectory) × ((if ltb (length moves) 3
            then some []
            else all_some (all_paths f c moves))
          ≡ some ts)
        × Recorded (chunk_by (joins f c) moves) ts
  guarded-Recorded [] = ([], refl, few-Recorded [] (omega arith))
  guarded-Recorded (m ∷ ms) = elim (Bool-cases (ltb (suc (length ms)) 3)) [
    | inl few ↦ rw few ([], refl, few-Recorded (m ∷ ms) (ltb→lt _ 3 few))
    | inr many ↦
        rw many (rw (all_paths-chunks f c m ms) (chunks-Recorded (chunk_by (joins f c) (m ∷ ms))))
  ]

  -- `compress` returns, without a panic, where `epsilon` is not below 0.0; its trajectories are those
  -- of the chunks of more than two movements, in order, and each has its chunk's ends, type and ids,
  -- and a simplified path of some of its points, in order, that keeps the ends.
  pub compress-Recorded :
      (events : List RawEvent)
      → (ts : List CompactMouseTrajectory) × (compress f c events ≡ some ts)
        × Recorded (chunk_by (joins f c) (extract_mouse_events events)) ts
  unfolding compress
  compress-Recorded events = guarded-Recorded (extract_mouse_events events)
