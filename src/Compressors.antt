-- ===== src/Compressors.antt =====
-- The compressors (src/daemon/compressor.rs): raw events as compact events. The operations of `f32`
-- that they use are a record of functions on bit patterns; a whole literal such as `60.0` is the
-- number as an `f32`.
pub mod Interner
pub mod Scroll
pub mod Keyboard
pub mod Mouse
pub mod Focus
pub mod Engine
use kronical.Prelude.{Bool, List, if◌then◌else◌}
use kronical.Prelude.Int.{ℤ, pos, ltb_ℤ}
use kronical.Compression.{F32}

pub record Floats : Type 0 where
  pub as_f32 : ℤ → F32
  pub add : F32 → F32 → F32
  pub mul : F32 → F32 → F32
  pub div : F32 → F32 → F32
  pub sqrt : F32 → F32
  pub abs : F32 → F32
  pub max : F32 → F32 → F32
  pub sum : List F32 → F32
  pub lt : F32 → F32 → Bool
  pub eq : F32 → F32 → Bool

-- `.max(1)` of an `i64`.
abbrev pub max_one : ℤ → ℤ
max_one n = if ltb_ℤ n (pos 1) then pos 1 else n
