-- ===== src/Pipeline/Publish/Durations.antt =====
-- `pretty_format_duration` (src/daemon/pipeline/snapshot_stage.rs), and decimal numbers as text.
use Prim.Native.Char.{code}
use Prim.Native.String as Native
use Prim.Native.String.{char_at}
use native.Mathlib.Numerals.{unary_clauses}
use kronical.Prelude.{
  ℕ, zero, suc, ◌+◌, ◌-◌, ◌*◌, ◌/◌, ◌%◌, ◌^◌, ◌<◌, ◌≡◌, refl, ap, ◌∙◌, String, false, List, [], ◌∷◌,
  ◌++◌, ltb, ◌==◌, is_empty, if◌then◌else◌, if_elim, All, arith, ltb→lt,
}

-- The digits of a number in front of a text, the least first; `fuel` bounds their count.
digits : ℕ → ℕ → String → String
digits zero n rest = rest
digits (suc fuel) n rest =
    let s = String.◌∷◌ (char_at "0123456789" (n % 10)) rest in
    let more = digits fuel (n / 10) s in if ltb n 10 then s else more

-- A `u64` has at most 20 digits.
unfoldable pub decimal : ℕ → String
unfolding digits
decimal n = digits 20 n ""

-- The number that a text's digits stand for, after those before it.
abbrev pub read : ℕ → String → ℕ
read acc String.[] = acc
read acc (String.◌∷◌ c s) = read (acc * 10 + (code c - b'0')) s

digit_code : (d : ℕ) → d < 10 → code (char_at "0123456789" d) - b'0' ≡ d
digit_code zero h = refl
digit_code (suc zero) h = refl
digit_code (suc (suc zero)) h = refl
digit_code (suc (suc (suc zero))) h = refl
digit_code (suc (suc (suc (suc zero)))) h = refl
digit_code (suc (suc (suc (suc (suc zero))))) h = refl
digit_code (suc (suc (suc (suc (suc (suc zero)))))) h = refl
digit_code (suc (suc (suc (suc (suc (suc (suc zero))))))) h = refl
digit_code (suc (suc (suc (suc (suc (suc (suc (suc zero)))))))) h = refl
digit_code (suc (suc (suc (suc (suc (suc (suc (suc (suc zero))))))))) h = refl
digit_code (suc (suc (suc (suc (suc (suc (suc (suc (suc (suc n)))))))))) h = absurd (omega arith)

read-digits :
    (fuel n : ℕ) (rest : String) → n < 10 ^ fuel → read 0 (digits fuel n rest) ≡ read n rest
unfolding digits
read-digits zero n rest h = ap (λ k. read k rest) (omega arith)
read-digits (suc fuel) n rest h =
    let step : 10 ^ suc fuel ≡ 10 ^ fuel * 10 = simp unary_clauses in
    let last = digit_code (n % 10) (omega arith) in
    let s = String.◌∷◌ (char_at "0123456789" (n % 10)) rest in
    if_elim (λ t. read 0 t ≡ read n rest) (ltb n 10) s (digits fuel (n / 10) s)
      (λ small. ap (λ k. read k rest) (omega (arith, last, ltb→lt n 10 small)))
      λ _.
        read-digits fuel (n / 10) s (omega (arith, step))
        ∙ ap (λ k. read k rest) (omega (arith, last))

-- The digits of a `u64` read back as the number.
pub read-decimal : (n : ℕ) → n < 2 ^ 64 → read 0 (decimal n) ≡ n
unfolding decimal
read-decimal n h = read-digits 20 n "" (omega arith)

pub data TimeUnit : Type 0 where
  day hour minute sec : TimeUnit

abbrev pub seconds_in : TimeUnit → ℕ
seconds_in TimeUnit.day = 24 * 3600
seconds_in TimeUnit.hour = 3600
seconds_in TimeUnit.minute = 60
seconds_in TimeUnit.sec = 1

abbrev letter : TimeUnit → String
letter TimeUnit.day = "d"
letter TimeUnit.hour = "h"
letter TimeUnit.minute = "m"
letter TimeUnit.sec = "s"

-- `if count > 0 { result.push_str(...) }`.
abbrev pub push_unit : ℕ → TimeUnit → List (ℕ × TimeUnit) → List (ℕ × TimeUnit)
push_unit count unit result = if ltb 0 count then result ++ (count, unit) ∷ [] else result

abbrev pub larger_units : ℕ → ℕ → ℕ → List (ℕ × TimeUnit)
larger_units days hours minutes =
    push_unit minutes TimeUnit.minute
      (push_unit hours TimeUnit.hour (push_unit days TimeUnit.day []))

-- The seconds come also where nothing else has.
abbrev pub with_seconds : ℕ → List (ℕ × TimeUnit) → List (ℕ × TimeUnit)
with_seconds secs result =
    if is_empty result
    then result ++ (secs, TimeUnit.sec) ∷ []
    else push_unit secs TimeUnit.sec result

-- The pieces of the result in turn.
unfoldable pub pieces : ℕ → List (ℕ × TimeUnit)
pieces seconds =
    with_seconds (seconds % 60) (
      larger_units (seconds / (24 * 3600)) ((seconds % (24 * 3600)) / 3600) ((seconds % 3600) / 60))

abbrev pub format_pieces : List (ℕ × TimeUnit) → String
format_pieces [] = ""
format_pieces ((count, unit) ∷ rest) =
    Native.◌++◌ (Native.◌++◌ (decimal count) (letter unit)) (format_pieces rest)

unfoldable pub pretty_format_duration : ℕ → String
unfolding decimal pieces
pretty_format_duration seconds = if seconds == 0 then "0s" else format_pieces (pieces seconds)

-- The seconds that the pieces stand for.
abbrev pub seconds_of : List (ℕ × TimeUnit) → ℕ
seconds_of [] = 0
seconds_of ((count, unit) ∷ rest) = count * seconds_in unit + seconds_of rest

abbrev pub Below : TimeUnit → ℕ → Type 0
Below TimeUnit.day count = 0 < count
Below TimeUnit.hour count = (0 < count) × (count < 24)
Below TimeUnit.minute count = (0 < count) × (count < 60)
Below TimeUnit.sec count = count < 60

abbrev Exact : ℕ → List (ℕ × TimeUnit) → Type 0
Exact n l = (seconds_of l ≡ n) × (is_empty l ≡ false) × All (λ (count, unit). Below unit count) l

units-Exact :
    (d h m s n : ℕ)
    → h < 24
    → m < 60
    → s < 60
    → n ≡ d * 86400 + h * 3600 + m * 60 + s
    → Exact n (with_seconds s (larger_units d h m))
units-Exact d h m s n hb mb sb e = ground arith

-- The pieces of a duration add up to it, to the second; there is at least one; each unit but the
-- greatest stays below the next, and no unit but the seconds is shown with a count of 0.
pub pieces-Exact :
    (seconds : ℕ)
    → (seconds_of (pieces seconds) ≡ seconds)
      × (is_empty (pieces seconds) ≡ false)
      × All (λ (count, unit). Below unit count) (pieces seconds)
unfolding pieces
pieces-Exact seconds =
    units-Exact (seconds / 86400) (seconds % 86400 / 3600) (seconds % 3600 / 60) (seconds % 60)
      seconds (omega arith) (omega arith) (omega arith) (omega arith)
