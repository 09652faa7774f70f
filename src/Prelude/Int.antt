-- ===== src/Prelude/Int.antt =====
-- Signed integers over the native numbers (`i64`, `i32`, chrono's durations), under the library's
-- names: its ℤ stands on the unary ℕ.
use Prim.Native.Nat.{ℕ, zero, suc, ◌+◌, ◌-◌, ◌*◌, ◌%◌, ◌<◌, min}
use mathlib.Core.Bool.{Bool}
use mathlib.Core.Path.{◌≡◌}
use native.Mathlib.Omega.{arith}
use kronical.Prelude.Tests.{ltb, leb, ◌==◌, if◌then◌else◌}

-- `negsuc n` is -(n + 1).
pub data ℤ : Type 0 where
  pos : ℕ → ℤ
  negsuc : ℕ → ℤ

abbrev pub pos_part : ℤ → ℕ
pos_part (pos n) = n
pos_part (negsuc n) = 0

abbrev pub neg_part : ℤ → ℕ
neg_part (pos n) = 0
neg_part (negsuc n) = suc n

-- -n
abbrev pub neg : ℕ → ℤ
neg zero = pos 0
neg (suc n) = negsuc n

-- a - b, as an integer.
abbrev pub sub_ℕ : ℕ → ℕ → ℤ
sub_ℕ a b = if leb b a then pos (a - b) else negsuc (b - a - 1)

abbrev pub leb_ℤ : ℤ → ℤ → Bool
leb_ℤ a b = leb (pos_part a + neg_part b) (pos_part b + neg_part a)

abbrev pub ltb_ℤ : ℤ → ℤ → Bool
ltb_ℤ a b = ltb (pos_part a + neg_part b) (pos_part b + neg_part a)

infixl 65 ◌+ℤ◌
abbrev pub ◌+ℤ◌ : ℤ → ℤ → ℤ
a +ℤ b = sub_ℕ (pos_part a + pos_part b) (neg_part a + neg_part b)

abbrev pub neg_ℤ : ℤ → ℤ
neg_ℤ a = sub_ℕ (neg_part a) (pos_part a)

-- Rust's `as i64` of a `u64`, in two's complement.
abbrev pub as_i64 : ℕ → ℤ
as_i64 n = if ltb n 0x8000_0000_0000_0000 then pos n else negsuc (0x1_0000_0000_0000_0000 - n - 1)

pub as_i64-pos : (n : ℕ) → n < 0x8000_0000_0000_0000 → as_i64 n ≡ pos n
as_i64-pos n h = ground arith

-- Rust's `==` on `i32` and `i64`.
abbrev pub same_ℤ : ℤ → ℤ → Bool
same_ℤ a b = pos_part a + neg_part b == pos_part b + neg_part a

-- `u64::saturating_add`.
abbrev pub saturating_add : ℕ → ℕ → ℕ
saturating_add a b = min (a + b) 0xffff_ffff_ffff_ffff

-- `as i32`, and the result of an `i32` operation in a release build: the low 32 bits in two's
-- complement.
abbrev low_i32 : ℕ → ℤ
low_i32 n = if ltb n 0x8000_0000 then pos n else negsuc (0x1_0000_0000 - n - 1)

abbrev pub wrap_i32 : ℤ → ℤ
wrap_i32 (pos n) = low_i32 (n % 0x1_0000_0000)
wrap_i32 (negsuc n) = low_i32 (0xFFFF_FFFF - n % 0x1_0000_0000)

abbrev pub add_i32 : ℤ → ℤ → ℤ
add_i32 a b = wrap_i32 (a +ℤ b)

abbrev pub sub_i32 : ℤ → ℤ → ℤ
sub_i32 a b = wrap_i32 (a +ℤ neg_ℤ b)

abbrev pub neg_i32 : ℤ → ℤ
neg_i32 a = wrap_i32 (neg_ℤ a)

abbrev pub mul_ℤ : ℤ → ℤ → ℤ
mul_ℤ a b =
    sub_ℕ (pos_part a * pos_part b + neg_part a * neg_part b)
      (pos_part a * neg_part b + neg_part a * pos_part b)

abbrev pub mul_i32 : ℤ → ℤ → ℤ
mul_i32 a b = wrap_i32 (mul_ℤ a b)

-- What wraps is added up, and wraps once at the end.
pub wrap_i32-add : (a b : ℤ) → wrap_i32 (wrap_i32 a +ℤ b) ≡ wrap_i32 (a +ℤ b)
wrap_i32-add (pos n) (pos m) = ground arith
wrap_i32-add (pos n) (negsuc m) = ground arith
wrap_i32-add (negsuc n) (pos m) = ground arith
wrap_i32-add (negsuc n) (negsuc m) = ground arith
