-- ===== src/Logs/Parens.antt =====
-- The loop of `trim_wrapping_parens` (src/bin/kronictl/log_cli.rs) ends by itself within the rounds it is given.
use kronical.Prelude.{
  ℕ, zero, suc, ◌≤◌, ◌≡◌, refl, false, [], ◌∷◌, length, length-append, if_elim, arith,
}
use mathlib.Core.List.{reverse, reverse-cons}
use kronical.Logs.Chars.{Text, is_whitespace, trim_start, trim}
use kronical.Logs.Selection.{is_wrapped, drop_last, unwrapped, trim_parens, trim_wrapping_parens}

length-reverse : (s : Text) → length (reverse s) ≡ length s
length-reverse [] = refl
length-reverse (c ∷ s) =
    rw (reverse-cons c s) (omega (arith, length-append (reverse s) (c ∷ []), length-reverse s))

length-trim_start : (s : Text) → length (trim_start s) ≤ length s
unfolding trim_start
length-trim_start [] = omega arith
length-trim_start (c ∷ s) =
    if_elim (λ t. length t ≤ suc (length s)) (is_whitespace c) (trim_start s) (c ∷ s)
      (λ _. omega (arith, length-trim_start s)) λ _. omega arith

length-trim : (s : Text) → length (trim s) ≤ length s
length-trim s = omega (
  arith,
  length-reverse (trim_start (reverse (trim_start s))),
  length-trim_start (reverse (trim_start s)),
  length-reverse (trim_start s),
  length-trim_start s,
)

length-drop_last : (s : Text) → length (drop_last s) ≤ length s
length-drop_last [] = omega arith
length-drop_last (c ∷ []) = omega arith
length-drop_last (c ∷ d ∷ s) = omega (arith, length-drop_last (d ∷ s))

length-unwrapped : (s : Text) (n : ℕ) → length s ≤ suc n → length (unwrapped s) ≤ n
length-unwrapped [] n h = omega arith
length-unwrapped (c ∷ s) n h = omega (arith, length-drop_last s, h)

rounds :
    (fuel : ℕ) (value : Text) → length value ≤ fuel → is_wrapped (trim_parens fuel value) ≡ false
unfolding trim_parens trim_start
rounds zero [] h = refl
rounds zero (c ∷ s) h = absurd (omega (arith, h))
rounds (suc fuel) value h =
    if_elim (λ t. is_wrapped t ≡ false) (is_wrapped (trim value))
      (trim_parens fuel (unwrapped (trim value))) (trim value)
      (λ _.
        rounds fuel (unwrapped (trim value))
          (length-unwrapped (trim value) fuel (omega (arith, length-trim value, h))))
      λ h. h

-- What is returned has no parentheses around it that could come off: the rounds were enough.
pub trim_wrapping_parens-ends : (value : Text) → is_wrapped (trim_wrapping_parens value) ≡ false
unfolding trim_wrapping_parens
trim_wrapping_parens-ends value = rounds (length value) value (omega arith)
