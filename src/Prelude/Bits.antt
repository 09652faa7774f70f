-- ===== src/Prelude/Bits.antt =====
-- The bitwise or of a shifted number and what fits below it.
use Prim.Native.Nat.{
  ℕ, zero, suc, ◌+◌, ◌*◌, ◌/◌, ◌%◌, ◌^◌, ◌≤◌, ◌<◌, max, bit_or, digits, bit_or-bitwise,
}
use mathlib.Core.Path.{◌≡◌, refl, ap, ◌∙◌}
use native.Mathlib.Numerals.{unary_clauses}
use native.Mathlib.Omega.{arith}

abbrev or_digits : ℕ → ℕ → ℕ → ℕ
or_digits n a b = digits (λ c. c) max n a b

-- Any count of digits that covers the first number gives the same.
or_digits_count : (n m a b : ℕ) → a ≤ n → a ≤ m → or_digits n a b ≡ or_digits m a b
or_digits_count zero zero a b p q = refl
or_digits_count zero (suc m) zero b p q = refl
or_digits_count zero (suc m) (suc a) b p q = absurd (omega arith)
or_digits_count (suc n) zero zero b p q = refl
or_digits_count (suc n) zero (suc a) b p q = absurd (omega arith)
or_digits_count (suc n) (suc m) zero b p q = refl
or_digits_count (suc n) (suc m) (suc a) b p q =
    omega (arith, or_digits_count n m (suc a / 2) (b / 2) (omega arith) (omega arith))

zero-bit_or : (b : ℕ) → bit_or 0 b ≡ b
zero-bit_or b = bit_or-bitwise 0 b

bit_or-halves :
    (a b : ℕ) → bit_or (suc a) b ≡ bit_or (suc a / 2) (b / 2) * 2 + max (suc a % 2) (b % 2)
bit_or-halves a b = omega (
  arith,
  bit_or-bitwise (suc a) b,
  bit_or-bitwise (suc a / 2) (b / 2),
  or_digits_count a (suc a / 2) (suc a / 2) (b / 2) (omega arith) (omega arith),
)

bit_or_zero_upto : (n a : ℕ) → a ≤ n → bit_or a 0 ≡ a
bit_or_zero_upto n zero h = zero-bit_or 0
bit_or_zero_upto zero (suc a) h = absurd (omega arith)
bit_or_zero_upto (suc n) (suc a) h =
    omega (arith, bit_or-halves a 0, bit_or_zero_upto n (suc a / 2) (omega arith))

-- Where the low bits of one number are free, `|` is addition.
pub or_shifted : (k a m s : ℕ) → a ≡ m * 2 ^ k → s < 2 ^ k → bit_or a s ≡ a + s
or_shifted k zero m s e h = omega (arith, zero-bit_or s)
or_shifted zero (suc a) m s e h =
    let z : s ≡ 0 = omega arith in
    rw z (omega (arith, bit_or_zero_upto (suc a) (suc a) (omega arith)))
or_shifted (suc k) (suc a) m s e h =
    let twice : 2 ^ suc k ≡ 2 ^ k * 2 = simp unary_clauses in
    let even : suc a ≡ m * 2 ^ k * 2 = e ∙ (ap (λ n. m * n) twice ∙ omega arith) in
    omega (
      arith,
      bit_or-halves a s,
      or_shifted k (suc a / 2) m (s / 2) (omega (arith, even)) (omega (arith, twice)),
      even,
    )
