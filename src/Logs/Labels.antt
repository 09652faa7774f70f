-- ===== src/Logs/Labels.antt =====
-- The numbers that the log commands print (src/bin/kronictl/log_cli.rs) as those that `resolve_index` reads.
use native.Mathlib.Numerals.{unary_clauses}
use kronical.Prelude.{
  ℕ, zero, suc, ◌+◌, ◌-◌, ◌*◌, ◌/◌, ◌%◌, ◌^◌, ◌<◌, ◌≤◌, ◌≡◌, ◌≢◌, refl, ap, ◌∙◌, true, false, some,
  List, [], ◌∷◌, ◌++◌, All, All-append, reverse-All, All-imp, length, length-append, arith, ltb,
  ltb→lt, leb, ◌==◌, if_elim,
}
use mathlib.Core.List.{reverse, reverse-reverse}
use kronical.Prelude.Int.{ℤ, pos, negsuc}
use kronical.Logs.{LogEntry, Result}
use kronical.Logs.Chars.{
  Text, is_whitespace, trim_start, trim, is_digit, read_digits, read_number, parse_isize, positive,
  negative, digits, display_usize,
}
use kronical.Logs.Selection.{
  normalize_index, ends_in, is_wrapped, drop_last, trim_parens, trim_wrapping_parens, resolve_index,
}
use kronical.Logs.Entries.{heading}
use kronical.Logs.Listing.{normalize_forwards, normalize_backwards}

-- The characters that numbers and parentheses have: from `(` to `9`.
abbrev pub IsPlain : ℕ → Type 0
IsPlain c = (b'(' ≤ c) × (c ≤ b'9')

abbrev pub IsDigit : ℕ → Type 0
IsDigit c = (b'0' ≤ c) × (c ≤ b'9')

plain : (c : ℕ) → IsPlain c → is_whitespace c ≡ false
unfolding is_whitespace
plain c h = ground arith

trim_start-plain : (s : Text) → All IsPlain s → trim_start s ≡ s
unfolding trim_start
trim_start-plain [] h = refl
trim_start-plain (c ∷ s) h = rw (plain c h.0) refl

trim-plain : (s : Text) → All IsPlain s → trim s ≡ s
trim-plain s h =
    ap (λ t. reverse (trim_start (reverse t))) (trim_start-plain s h)
    ∙ ap reverse (trim_start-plain (reverse s) (reverse-All IsPlain s h))
    ∙ reverse-reverse s

-- A number has no parentheses to take off.
abbrev pub IsBare : Text → Type 0
IsBare s = All IsPlain s × (is_wrapped s ≡ false)

trim_parens-bare : (fuel : ℕ) (s : Text) → IsBare s → trim_parens fuel s ≡ s
unfolding trim_parens
trim_parens-bare zero s h = trim-plain s h.0
trim_parens-bare (suc fuel) s h = rw (trim-plain s h.0) (rw h.1 refl)

ends_in-append : (s : Text) (c : ℕ) → ends_in (s ++ c ∷ []) c ≡ true
ends_in-append [] c = ground arith
ends_in-append (x ∷ []) c = ground arith
ends_in-append (x ∷ y ∷ s) c = ends_in-append (y ∷ s) c

drop_last-append : (s : Text) (c : ℕ) → drop_last (s ++ c ∷ []) ≡ s
drop_last-append [] c = refl
drop_last-append (x ∷ []) c = refl
drop_last-append (x ∷ y ∷ s) c = ap (λ t. x ∷ t) (drop_last-append (y ∷ s) c)

abbrev pub wrapped : Text → Text
wrapped s = b'(' ∷ s ++ b')' ∷ []

-- Parentheses around a number come off.
trim_wrapping_parens-wrapped :
    (c : ℕ) (s : Text) → IsBare (c ∷ s) → trim_wrapping_parens (wrapped (c ∷ s)) ≡ c ∷ s
unfolding trim_wrapping_parens trim_parens
trim_wrapping_parens-wrapped c s h =
    let all : All IsPlain (wrapped (c ∷ s)) =
      (omega arith, All-append IsPlain (c ∷ s) _ h.0 (omega arith, tt)) in
    let long : ltb 2 (suc (suc (length (s ++ b')' ∷ [])))) ≡ true =
      ground (arith, length-append s (b')' ∷ [])) in
    rw (trim-plain (wrapped (c ∷ s)) all) (
      rw (ends_in-append (c ∷ s) b')') (
        rw (drop_last-append (c ∷ s) b')')
          (rw long (trim_parens-bare (suc (length (s ++ b')' ∷ []))) (c ∷ s) h))))

digits-All : (fuel n : ℕ) (rest : Text) → All IsDigit rest → All IsDigit (digits fuel n rest)
unfolding digits
digits-All zero n rest h = h
digits-All (suc fuel) n rest h =
    let s = (b'0' + n % 10) ∷ rest in
    let all : All IsDigit s = (omega arith, h) in
    if_elim (All IsDigit) (ltb n 10) s (digits fuel (n / 10) s) (λ _. all)
      λ _. digits-All fuel (n / 10) s all

digits-ne : (fuel n c : ℕ) (rest : Text) → digits fuel n (c ∷ rest) ≢ []
unfolding digits
digits-ne zero n c rest = λ e. cc
digits-ne (suc fuel) n c rest =
    let s = (b'0' + n % 10) ∷ c ∷ rest in
    if_elim (λ t. t ≢ []) (ltb n 10) s (digits fuel (n / 10) s) (λ _. λ e. cc)
      λ _. digits-ne fuel (n / 10) (b'0' + n % 10) (c ∷ rest)

read_digits-digit :
    (n : ℕ) (rest : Text) → read_digits (n / 10) ((b'0' + n % 10) ∷ rest) ≡ read_digits n rest
unfolding read_digits
read_digits-digit n rest =
    let digit : is_digit (b'0' + n % 10) ≡ true = ground arith in
    rw digit (ap (λ k. read_digits k rest) (omega arith))

read_digits-digits :
    (fuel n : ℕ) (rest : Text)
    → n < 10 ^ fuel
    → read_digits 0 (digits fuel n rest) ≡ read_digits n rest
unfolding digits
read_digits-digits zero n rest h = ap (λ k. read_digits k rest) (omega arith)
read_digits-digits (suc fuel) n rest h =
    let step : 10 ^ suc fuel ≡ 10 ^ fuel * 10 = simp unary_clauses in
    let s = (b'0' + n % 10) ∷ rest in
    if_elim (λ t. read_digits 0 t ≡ read_digits n rest) (ltb n 10) s (digits fuel (n / 10) s)
      (λ small.
        ap (λ k. read_digits k s) (omega (arith, ltb→lt n 10 small)) ∙ read_digits-digit n rest)
      λ _. read_digits-digits fuel (n / 10) s (omega (arith, step)) ∙ read_digits-digit n rest

-- What is read of digits that are a number.
digits-number :
    (s : Text)
    → All IsDigit s
    → s ≢ []
    → (n : ℕ) → read_digits 0 s ≡ some n
    → IsBare s × (parse_isize s ≡ positive (some n)) × (parse_isize (b'-' ∷ s) ≡ negative (some n))
unfolding parse_isize read_number
digits-number [] all ne n h = absurd (ne refl)
digits-number (c ∷ s) all ne n h = (
  (All-imp IsDigit IsPlain (λ x d. (omega (arith, d), d.1)) (c ∷ s) all, ground arith),
  rw h (ground arith),
  ap negative h,
)

digits-some : (fuel n : ℕ) (rest : Text) → digits (suc fuel) n rest ≢ []
unfolding digits
digits-some fuel n rest =
    let s = (b'0' + n % 10) ∷ rest in
    if_elim (λ t. t ≢ []) (ltb n 10) s (digits fuel (n / 10) s) (λ _. λ e. cc)
      λ _. digits-ne fuel (n / 10) (b'0' + n % 10) rest

usize-number :
    (n : ℕ)
    → n < 2 ^ 64
    → IsBare (display_usize n)
      × (parse_isize (display_usize n) ≡ positive (some n))
      × (parse_isize (b'-' ∷ display_usize n) ≡ negative (some n))
unfolding read_digits
usize-number n h =
    digits-number (display_usize n) (digits-All 20 n [] tt) (digits-some 19 n []) n
      (read_digits-digits 20 n [] (omega arith))

-- The text is read as the value, also in parentheses.
abbrev pub ReadsAs : ℕ → Text → Result ℕ → Type 0
ReadsAs len t value = (resolve_index t len ≡ value) × (resolve_index (wrapped t) len ≡ value)

resolve_bare :
    (t trimmed : Text) (value : ℤ) (len : ℕ)
    → trim_wrapping_parens (trim t) ≡ trimmed
    → parse_isize trimmed ≡ some value
    → 0 < len
    → resolve_index t len ≡ normalize_index value len
unfolding resolve_index
resolve_bare t trimmed value len e h some_file =
    let files : (len == 0) ≡ false = ground arith in rw files (rw e (rw h refl))

number-ReadsAs :
    (t : Text) (value : ℤ) (len : ℕ)
    → IsBare t
    → parse_isize t ≡ some value
    → 0 < len
    → ReadsAs len t (normalize_index value len)
unfolding parse_isize trim_wrapping_parens
number-ReadsAs [] value len bare h some_file = cc
number-ReadsAs (c ∷ s) value len bare h some_file =
    let all : All IsPlain (wrapped (c ∷ s)) =
      (omega arith, All-append IsPlain (c ∷ s) _ bare.0 (omega arith, tt)) in
    (
      resolve_bare (c ∷ s) (c ∷ s) value len
          (ap trim_wrapping_parens (trim-plain (c ∷ s) bare.0)
            ∙ trim_parens-bare (length (c ∷ s)) (c ∷ s) bare)
          h some_file,
      resolve_bare (wrapped (c ∷ s)) (c ∷ s) value len
          (ap trim_wrapping_parens (trim-plain (wrapped (c ∷ s)) all)
            ∙ trim_wrapping_parens-wrapped c s bare)
          h some_file,
    )

reads :
    (len : ℕ) (t : Text) {value result : Result ℕ}
    → value ≡ result
    → ReadsAs len t value
    → ReadsAs len t result
reads len t e h = (h.0 ∙ e, h.1 ∙ e)

negative_number : (n k : ℕ) → n ≡ suc k → n < 2 ^ 63 → negative (some n) ≡ some (negsuc k)
negative_number zero k e h = absurd (omega arith)
negative_number (suc n) k e h = ground arith

negated : (s : Text) → IsBare s → IsBare (b'-' ∷ s)
negated s h = ((omega arith, h.0), refl)

-- Of fewer than 2 ^ 63 log files, the two numbers above a file that is shown, its index and its index
-- from the end, are both read as its index, with or without parentheses.
pub heading-ReadsAs :
    (e : LogEntry) (entries : List LogEntry)
    → e.index < length entries
    → length entries < 2 ^ 63
    → let len = length entries in
      let (index, from_end) = heading e entries in
      ReadsAs len index (Result.ok e.index) × ReadsAs len from_end (Result.ok e.index)
heading-ReadsAs e entries inside small =
    let len = length entries in
    let k = len - e.index - 1 in
    let (bare, forwards, _) = usize-number e.index (omega arith) in
    let (bare', _, backwards) = usize-number (k + 1) (omega arith) in
    let before : leb len e.index ≡ false = ground arith in
    (
      reads len _ (normalize_forwards e.index len inside) (
          number-ReadsAs (display_usize e.index) (pos e.index) len bare (forwards ∙ ground arith)
            (omega arith)),
      rw before (
          reads len _ (normalize_backwards e.index k len (omega arith) small) (
            number-ReadsAs (b'-' ∷ display_usize (k + 1)) (negsuc k) len (negated _ bare')
              (backwards ∙ negative_number (k + 1) k (omega arith) (omega arith)) (omega arith))),
    )
