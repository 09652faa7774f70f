-- ===== src/Logs/Listing.antt =====
-- The indices that `list` shows (src/bin/kronictl/log_cli.rs, `list_logs`) as those that `show` reads.
use kronical.Prelude.{
  ℕ, suc, ◌+◌, ◌^◌, ◌<◌, ◌≡◌, refl, sym, ap, ◌∙◌, Bool, true, false, Option, none, some, List, [],
  ◌∷◌, ◌++◌, All, All-append, length, length-append, arith, if◌then◌else◌,
}
use mathlib.Core.List.{reverse, reverse-cons, append_assoc}
use mathlib.Core.Option.{some-injective}
use mathlib.Core.Path.{subst}
use kronical.Prelude.Int.{ℤ, pos, negsuc, as_i64-pos}
use kronical.Prelude.Sort.{sort_by}
use kronical.Logs.{LogEntry, Result}
use kronical.Logs.Selection.{normalize_index}
use kronical.Logs.Entries.{
  DirEntry, older, number_from, files_of, collect_log_entries, rows_from, list_logs, entry_at,
  numbered,
}

-- The index is that of the entry, and the entry stands there.
abbrev pub Resolves : List LogEntry → ℤ × LogEntry → Type 0
Resolves entries (label, e) =
    (normalize_index label (length entries) ≡ Result.ok e.index)
    × (entry_at entries e.index ≡ some e)

pub normalize_forwards : (n len : ℕ) → n < len → normalize_index (pos n) len ≡ Result.ok n
unfolding normalize_index
normalize_forwards n len h = ground arith

-- Counted from the end, the entry with m after it is at n.
pub normalize_backwards :
    (n m len : ℕ) → len ≡ n + suc m → len < 2 ^ 63 → normalize_index (negsuc m) len ≡ Result.ok n
unfolding normalize_index
normalize_backwards n m len e h = rw (as_i64-pos len h) (ground arith)

entry_at-append :
    (before after : List LogEntry) (e : LogEntry)
    → entry_at (before ++ e ∷ after) (length before) ≡ some e
unfolding entry_at
entry_at-append [] after e = refl
entry_at-append (x ∷ before) after e = entry_at-append before after e

length-number_from : (n : ℕ) (s : List LogEntry) → length (number_from n s) ≡ length s
unfolding number_from
length-number_from n [] = refl
length-number_from n (e ∷ s) = ap suc (length-number_from (n + 1) s)

length-reverse : (s : List LogEntry) → length (reverse s) ≡ length s
length-reverse [] = refl
length-reverse (e ∷ s) =
    rw (reverse-cons e s) (omega (arith, length-append (reverse s) (e ∷ []), length-reverse s))

rows_from-append :
    (reversed : Bool) (p : ℕ) (xs ys : List LogEntry)
    → rows_from reversed p (xs ++ ys)
      ≡ rows_from reversed p xs ++ rows_from reversed (p + length xs) ys
unfolding rows_from
rows_from-append reversed p [] ys = ap (λ n. rows_from reversed n ys) (omega arith)
rows_from-append reversed p (x ∷ xs) ys =
    ap (λ r. (if reversed then negsuc p else pos x.index, x) ∷ r)
      (rows_from-append reversed (p + 1) xs ys
        ∙ ap (λ n. rows_from reversed (p + 1) xs ++ rows_from reversed n ys) (omega arith))

-- The entry in front of those that follow, as the last of those before.
shifted :
    (before : List LogEntry) (e : LogEntry) (rest : List LogEntry)
    → (before ++ e ∷ []) ++ rest ≡ before ++ e ∷ rest
shifted before e rest = append_assoc before (e ∷ []) rest

at_front :
    (before : List LogEntry) (e : LogEntry) (rest : List LogEntry) (label : ℤ)
    → e.index ≡ length before
    → normalize_index label (length (before ++ e ∷ rest)) ≡ Result.ok (length before)
    → Resolves (before ++ e ∷ rest) (label, e)
at_front before e rest label i h =
    (h ∙ ap Result.ok (sym i), ap (entry_at (before ++ e ∷ rest)) i ∙ entry_at-append before rest e)

moved :
    (before : List LogEntry) (e : LogEntry) (rest : List LogEntry) (rows : List (ℤ × LogEntry))
    → All (Resolves ((before ++ e ∷ []) ++ rest)) rows
    → All (Resolves (before ++ e ∷ rest)) rows
moved before e rest rows h =
    subst (λ entries. All (Resolves entries) rows) (shifted before e rest) h

forwards :
    (before : List LogEntry) (n p : ℕ) (s : List LogEntry)
    → n ≡ length before
    → All (Resolves (before ++ number_from n s)) (rows_from false p (number_from n s))
unfolding number_from rows_from
forwards before n p [] h = tt
forwards before n p (x ∷ s) h =
    let e = record x { index = n } in
    let rest = number_from (n + 1) s in
    (
      at_front before e rest (pos n) h (
          ap (λ k. normalize_index (pos k) (length (before ++ e ∷ rest))) h
          ∙ normalize_forwards (length before) (length (before ++ e ∷ rest))
              (omega (arith, length-append before (e ∷ rest)))),
      moved before e rest (rows_from false (p + 1) rest) (
          forwards (before ++ e ∷ []) (n + 1) (p + 1) s
            (omega (arith, length-append before (e ∷ []), h))),
    )

backwards :
    (before : List LogEntry) (n : ℕ) (s : List LogEntry)
    → n ≡ length before
    → length before + length s < 2 ^ 63
    → All (Resolves (before ++ number_from n s)) (rows_from true 0 (reverse (number_from n s)))
unfolding number_from rows_from
backwards before n [] h small = tt
backwards before n (x ∷ s) h small =
    let e = record x { index = n } in
    let rest = number_from (n + 1) s in
    let P = Resolves (before ++ e ∷ rest) in
    let later : All P (rows_from true 0 (reverse rest)) = moved before e rest _ (
      backwards (before ++ e ∷ []) (n + 1) s (omega (arith, length-append before (e ∷ []), h))
        (omega (arith, length-append before (e ∷ []), small))) in
    let size = length-append before (e ∷ rest) in
    let here : P (negsuc (0 + length (reverse rest)), e) = at_front before e rest _ h (
      normalize_backwards (length before) (0 + length (reverse rest)) _
        (omega (arith, size, length-reverse rest))
        (omega (arith, size, small, length-number_from (n + 1) s))) in
    rw (reverse-cons e rest) (
      rw (rows_from-append true 0 (reverse rest) (e ∷ []))
        (All-append P (rows_from true 0 (reverse rest)) _ later (here, tt)))

numbered_rows :
    (s : List LogEntry) (reversed : Bool)
    → length s < 2 ^ 63
    → All (Resolves (number_from 0 s)) (list_logs reversed (number_from 0 s))
unfolding list_logs
numbered_rows s false small = forwards [] 0 0 s refl
numbered_rows s true small = backwards [] 0 s refl (omega (arith, small))

rows_of :
    (s entries : List LogEntry) (reversed : Bool)
    → number_from 0 s ≡ entries
    → length entries < 2 ^ 63
    → All (Resolves entries) (list_logs reversed entries)
rows_of s entries reversed e small =
    subst (λ es. All (Resolves es) (list_logs reversed es)) e
      (numbered_rows s reversed (omega (arith, small, ap length e, length-number_from 0 s)))

pub numbered-some :
    (o : Option (List LogEntry)) (entries : List LogEntry)
    → numbered o ≡ some entries
    → (s : List LogEntry) × (o ≡ some s) × (number_from 0 (sort_by older s) ≡ entries)
numbered-some none entries h = cc
numbered-some (some s) entries h = (s, refl, some-injective _ _ h)

-- Of the files that are collected, fewer than 2 ^ 63, each line of the list has an index, from the front
-- or with `--reverse` from the end, which `show` reads as the index of that entry, and at which the
-- entry stands.
pub list_logs-Resolves :
    (exists reversed : Bool) (dir : Option (List (Option DirEntry))) (entries : List LogEntry)
    → collect_log_entries exists dir ≡ some entries
    → length entries < 2 ^ 63
    → All (Resolves entries) (list_logs reversed entries)
unfolding collect_log_entries number_from
list_logs-Resolves false reversed dir entries h small =
    rows_of [] entries reversed (some-injective _ _ h) small
list_logs-Resolves true reversed none entries h small = cc
list_logs-Resolves true reversed (some dir) entries h small =
    let (s, files, e) = numbered-some (files_of dir) entries h in
    rows_of (sort_by older s) entries reversed e small
