-- ===== src/Compressors/Mouse.antt =====
-- `MouseTrajectoryCompressor` (src/daemon/compressor.rs): paths of the pointer. A `none` of `build_trajectory`
-- or of `compress` stands for a panic of `unwrap`.
pub mod Simplify
pub mod Paths
use mathlib.Core.List.{filter_map, foldl, drop_last}
use mathlib.Core.Option
use kronical.Prelude.{
  ℕ, zero, suc, ◌+◌, ◌-◌, Bool, true, false, ◌||◌, Option, none, some, List, [], ◌∷◌, ◌++◌, map,
  length, take, drop, ltb, leb, if◌then◌else◌,
}
use kronical.Prelude.Chunks.{last_of}
use kronical.Prelude.Int.{ℤ, pos, ltb_ℤ, sub_i32, mul_i32}
use kronical.Prelude.Loops.{emit_each}
use kronical.Compression.{
  F32, CompactMouseTrajectory, MouseTrajectoryType, pointer, default_raw_event_table,
}
use kronical.Compressors.{Floats, max_one}
use kronical.Events.{MousePosition, MouseEventKind, RawEvent}
use kronical.Time.{DateTime, since, num_milliseconds}

pub record MouseTrajectoryCompressor : Type 0 where
  pub max_gap_ms : ℤ
  pub min_distance : F32
  pub douglas_peucker_epsilon : F32

unfoldable pub new : Floats → MouseTrajectoryCompressor
new f = record {
  max_gap_ms = pos 200;
  min_distance = f.as_f32 (pos 5);
  douglas_peucker_epsilon = f.as_f32 (pos 2);
}

-- An event of a path: its id, its time and its position.
pub record PathPoint : Type 0 where
  pub event_id : ℕ
  pub timestamp : DateTime
  pub position : MousePosition

-- Only movement, with a button held or not.
abbrev pub trajectory_type : Option MouseEventKind → Option MouseTrajectoryType
trajectory_type (some MouseEventKind.moved) = some MouseTrajectoryType.movement
trajectory_type (some MouseEventKind.dragged) = some MouseTrajectoryType.drag
trajectory_type _ = none

abbrev pub mouse_event : RawEvent → Option (PathPoint × MouseTrajectoryType)
mouse_event (RawEvent.mouse_input timestamp event_id d) =
    Option.map
      (λ kind. (record { event_id = event_id; timestamp = timestamp; position = d.position }, kind))
      (trajectory_type d.event_type)
mouse_event _ = none

unfoldable pub extract_mouse_events : List RawEvent → List (PathPoint × MouseTrajectoryType)
unfolding filter_map
extract_mouse_events events = filter_map mouse_event events

unfoldable pub can_compress : List RawEvent → Bool
unfolding extract_mouse_events
can_compress events = ltb 2 (length (extract_mouse_events events))

-- All of them, if none panics.
unfoldable pub all_some {ℓ} : {A : Type ℓ} → List (Option A) → Option (List A)
all_some [] = some []
all_some (none ∷ os) = none
all_some (some a ∷ os) = Option.map (λ rest. a ∷ rest) (all_some os)

-- `left.pop(); left.extend(right)`.
abbrev pub joined :
    Option (List MousePosition) → Option (List MousePosition) → Option (List MousePosition)
joined (some left) (some right) = some (drop_last left ++ right)
joined _ _ = none

-- `windows(2)` and a function of each pair.
unfoldable pub each_pair {ℓ} : {A : Type ℓ} → (A → A → F32) → List A → List F32
each_pair g [] = []
each_pair g (a ∷ []) = []
each_pair g (a ∷ b ∷ rest) = g a b ∷ each_pair g (b ∷ rest)

-- The path that is open, and the type of its last event.
abbrev pub Open : Type 0
Open = List PathPoint × Option MouseTrajectoryType

-- `t != trajectory_type`.
abbrev pub changed : Option MouseTrajectoryType → MouseTrajectoryType → Bool
changed (some MouseTrajectoryType.movement) MouseTrajectoryType.drag = true
changed (some MouseTrajectoryType.drag) MouseTrajectoryType.movement = true
changed _ _ = false

module _ (f : Floats) where
  unfoldable pub calculate_distance : MousePosition → MousePosition → F32
  calculate_distance p1 p2 =
      let dx = f.as_f32 (sub_i32 p2.x p1.x) in
      let dy = f.as_f32 (sub_i32 p2.y p1.y) in f.sqrt (f.add (f.mul dx dx) (f.mul dy dy))

  unfoldable pub perpendicular_distance : MousePosition → MousePosition → MousePosition → F32
  perpendicular_distance point line_start line_end =
      let a = f.as_f32 (sub_i32 line_end.y line_start.y) in
      let b = f.as_f32 (sub_i32 line_start.x line_end.x) in
      let c =
        f.as_f32 (sub_i32 (mul_i32 line_end.x line_start.y) (mul_i32 line_start.x line_end.y)) in
      let numerator =
        f.abs (f.add (f.add (f.mul a (f.as_f32 point.x)) (f.mul b (f.as_f32 point.y))) c) in
      let denominator = f.sqrt (f.add (f.mul a a) (f.mul b b)) in
      if f.eq denominator (f.as_f32 (pos 0)) then f.as_f32 (pos 0) else f.div numerator denominator

  -- The loop over the points between the ends: the greatest distance so far and its index.
  unfoldable pub farthest :
      MousePosition → MousePosition → ℕ → List MousePosition → F32 → ℕ → F32 × ℕ
  farthest line_start line_end i [] max_distance max_index = (max_distance, max_index)
  farthest line_start line_end i (point ∷ []) max_distance max_index = (max_distance, max_index)
  farthest line_start line_end i (point ∷ next ∷ rest) max_distance max_index =
      let distance = perpendicular_distance point line_start line_end in
      let nearer = farthest line_start line_end (suc i) (next ∷ rest) max_distance max_index in
      let farther = farthest line_start line_end (suc i) (next ∷ rest) distance i in
      if f.lt max_distance distance then farther else nearer

  -- On fuel: `none` where it runs out.
  unfoldable pub douglas_peucker : ℕ → List MousePosition → F32 → Option (List MousePosition)
  douglas_peucker zero points epsilon = none
  douglas_peucker (suc fuel) [] epsilon = some []
  douglas_peucker (suc fuel) (p ∷ ps) epsilon =
      let (max_distance, max_index) = farthest p (last_of p ps) 1 ps (f.as_f32 (pos 0)) 0 in
      let halves =
        joined (douglas_peucker fuel (take (suc max_index) (p ∷ ps)) epsilon)
          (douglas_peucker fuel (drop max_index (p ∷ ps)) epsilon) in
      if leb (length (p ∷ ps)) 2
      then some (p ∷ ps)
      else if f.lt epsilon max_distance
      then halves
      else some (p ∷ last_of p ps ∷ [])

  unfoldable pub calculate_path_distance : List MousePosition → F32
  calculate_path_distance positions = f.sum (each_pair calculate_distance positions)

  abbrev pub velocity : DateTime × MousePosition → DateTime × MousePosition → F32
  velocity (t, p) (u, q) =
      let time_ms = f.as_f32 (max_one (num_milliseconds (since u t))) in
      f.mul (f.div (calculate_distance p q) time_ms) (f.as_f32 (pos 1000))

  unfoldable pub calculate_max_velocity : List (DateTime × MousePosition) → F32
  calculate_max_velocity path = foldl f.max (f.as_f32 (pos 0)) (each_pair velocity path)

  -- The ends are `unwrap`s of the first and the last point.
  unfoldable pub build_trajectory :
      MouseTrajectoryCompressor
      → List PathPoint
      → MouseTrajectoryType
      → Option CompactMouseTrajectory
  build_trajectory c [] kind = none
  build_trajectory c (p ∷ ps) kind =
      let path = p ∷ ps in
      let positions = map (λ (x : PathPoint). x.position) path in
      Option.map
        (λ simplified_path. record {
          start_time = p.timestamp;
          end_time = (last_of p ps).timestamp;
          event_type = kind;
          start_position = p.position;
          end_position = (last_of p ps).position;
          simplified_path = simplified_path;
          total_distance = calculate_path_distance positions;
          max_velocity =
              calculate_max_velocity (map (λ (x : PathPoint). (x.timestamp, x.position)) path);
          raw_event_ids =
              pointer default_raw_event_table (map (λ (x : PathPoint). x.event_id) path);
        })
        (douglas_peucker (length positions) positions c.douglas_peucker_epsilon)

  -- `build_trajectory(current_path, current_type.unwrap())`.
  abbrev pub build_open : MouseTrajectoryCompressor → Open → Option CompactMouseTrajectory
  build_open c (path, none) = none
  build_open c (path, some kind) = build_trajectory c path kind

  -- A path of more than two events is pushed.
  unfoldable pub finalize : MouseTrajectoryCompressor → Open → List (Option CompactMouseTrajectory)
  finalize c (path, kind) = if ltb 2 (length path) then build_open c (path, kind) ∷ [] else []

  -- Whether the next event closes the path.
  abbrev pub breaks : MouseTrajectoryCompressor → Open → PathPoint → MouseTrajectoryType → Bool
  breaks c ([], kind) e t = false
  breaks c (p ∷ ps, kind) e t =
      let last = last_of p ps in
      ltb_ℤ c.max_gap_ms (num_milliseconds (since e.timestamp last.timestamp))
      || f.lt (calculate_distance last.position e.position) c.min_distance
      || changed kind t

  -- The body of the loop.
  unfoldable pub on_move :
      MouseTrajectoryCompressor
      → Open
      → PathPoint × MouseTrajectoryType
      → Open × List (Option CompactMouseTrajectory)
  on_move c (path, kind) (e, t) =
      if breaks c (path, kind) e t
      then ((e ∷ [], some t), finalize c (path, kind))
      else ((path ++ e ∷ [], some t), [])

  abbrev pub all_paths :
      MouseTrajectoryCompressor
      → List (PathPoint × MouseTrajectoryType)
      → List (Option CompactMouseTrajectory)
  all_paths c mouse_events =
      let (last, out) = emit_each (on_move c) ([], none) mouse_events in out ++ finalize c last

  unfoldable pub compress :
      MouseTrajectoryCompressor → List RawEvent → Option (List CompactMouseTrajectory)
  compress c events =
      let mouse_events = extract_mouse_events events in
      if ltb (length mouse_events) 3 then some [] else all_some (all_paths c mouse_events)
