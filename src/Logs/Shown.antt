-- ===== src/Logs/Shown.antt =====
-- `show` (src/bin/kronictl/log_cli.rs, `show_logs`): the indices of a selection are in range, and no file is
-- shown twice.
use kronical.Prelude.{
  ℕ, zero, suc, ◌+◌, ◌<◌, ◌≤◌, ◌≡◌, refl, ap, false, Option, none, some, List, [], ◌∷◌, map, All,
  All-append, reverse-All, length, arith, leb, leb→le, leb→gt, ◌==◌, if_elim,
}
use mathlib.Core.List.{reverse}
use kronical.Prelude.Int.{ℤ, pos, negsuc}
use kronical.Logs.{LogEntry, ◌>>=◌, Returns, bind-Returns}
use kronical.Logs.Chars.{Text, trim, split, parse_isize}
use kronical.Logs.Selection.{
  contains, normalize_index, resolve_index, parsed, trim_wrapping_parens, split_range, counting,
  interval, range, non_empty, parse_selection,
}
use kronical.Logs.Entries.{entry_at, entries_at, show_logs}
use kronical.Logs.Selected.{beyond, once, token_indices, all_indices, parse_selection-once}

abbrev pub IsDistinct : List ℕ → Type 0
IsDistinct [] = Unit
IsDistinct (x ∷ xs) = (contains x xs ≡ false) × IsDistinct xs

abbrev pub IsSelection : ℕ → List ℕ → Type 0
IsSelection len selected = All (λ i. i < len) selected × IsDistinct selected

abbrev Below : ℕ → ℕ → Type 0
Below len i = i < len

normalize_index-Below : (value : ℤ) (len : ℕ) → Returns (Below len) (normalize_index value len)
unfolding normalize_index
normalize_index-Below (pos n) len = ground arith
normalize_index-Below (negsuc n) len = ground arith

resolve_index-Below : (token : Text) (len : ℕ) → Returns (Below len) (resolve_index token len)
unfolding resolve_index
resolve_index-Below token len =
    let trimmed = trim_wrapping_parens (trim token) in
    if_elim (Returns (Below len)) (len == 0) _ _ (λ _. tt) λ _. read (parse_isize trimmed)
  where
    read :
        (o : Option ℤ)
        → Returns
            (Below len)
            (parsed (trim_wrapping_parens (trim token)) o >>= λ value. normalize_index value len)
    read none = tt
    read (some value) = normalize_index-Below value len

counting-Below : (len first n : ℕ) → first + n ≤ len → All (Below len) (counting first n)
unfolding counting
counting-Below len first zero h = tt
counting-Below len first (suc n) h =
    (omega (arith, h), counting-Below len (first + 1) n (omega (arith, h)))

range-Below : (len start last : ℕ) → start < len → last < len → All (Below len) (range start last)
unfolding range
range-Below len start last a b =
    if_elim (All (Below len)) (leb start last) (interval start last) (reverse (interval last start))
      (λ e. counting-Below len start _ (omega (arith, leb→le start last e)))
      λ e.
        reverse-All (Below len) (interval last start)
          (counting-Below len last _ (omega (arith, leb→gt start last e)))

token_indices-Below :
    (len : ℕ) (token : Text) (pair : Option (Text × Text))
    → Returns (All (Below len)) (token_indices len token pair)
token_indices-Below len token none =
    bind-Returns (Below len) (All (Below len)) (resolve_index token len) _
      (resolve_index-Below token len) λ i h. (h, tt)
token_indices-Below len token (some (left, right)) =
    bind-Returns (Below len) (All (Below len)) (resolve_index left len) _
      (resolve_index-Below left len)
      λ start a.
        bind-Returns (Below len) (All (Below len)) (resolve_index right len) _
          (resolve_index-Below right len) λ last b. range-Below len start last a b

all_indices-Below :
    (len : ℕ) (tokens : List Text) → Returns (All (Below len)) (all_indices len tokens)
all_indices-Below len [] = tt
all_indices-Below len (t ∷ ts) =
    let P = All (Below len) in
    bind-Returns P P (token_indices len t (split_range t)) _
      (token_indices-Below len t (split_range t))
      λ first a.
        bind-Returns P P (all_indices len ts) _ (all_indices-Below len ts)
          λ rest b. All-append (Below len) first rest a b

beyond-All {κ} : (P : ℕ → Type κ) (seen ys : List ℕ) → All P ys → All P (beyond seen ys)
beyond-All P seen [] h = tt
beyond-All P seen (y ∷ ys) h =
    if_elim (All P) (contains y seen) (beyond seen ys) (y ∷ beyond seen ys)
      (λ _. beyond-All P seen ys h.1) λ _. (h.0, beyond-All P seen ys h.1)

once-All {κ} : (P : ℕ → Type κ) (xs : List ℕ) → All P xs → All P (once xs)
once-All P [] h = tt
once-All P (x ∷ xs) h = (h.0, beyond-All P (x ∷ []) (once xs) (once-All P xs h.1))

beyond-absent :
    (y : ℕ) (seen ys : List ℕ) → contains y ys ≡ false → contains y (beyond seen ys) ≡ false
unfolding contains
beyond-absent y seen [] h = refl
beyond-absent y seen (z ∷ ys) h = ground (arith, beyond-absent y seen ys)

beyond-removed : (x : ℕ) (ys : List ℕ) → contains x (beyond (x ∷ []) ys) ≡ false
unfolding contains
beyond-removed x [] = refl
beyond-removed x (y ∷ ys) = ground (arith, beyond-removed x ys)

beyond-IsDistinct : (seen ys : List ℕ) → IsDistinct ys → IsDistinct (beyond seen ys)
beyond-IsDistinct seen [] h = tt
beyond-IsDistinct seen (y ∷ ys) h =
    if_elim IsDistinct (contains y seen) (beyond seen ys) (y ∷ beyond seen ys)
      (λ _. beyond-IsDistinct seen ys h.1)
      λ _. (beyond-absent y seen ys h.0, beyond-IsDistinct seen ys h.1)

once-IsDistinct : (xs : List ℕ) → IsDistinct (once xs)
once-IsDistinct [] = tt
once-IsDistinct (x ∷ xs) =
    (beyond-removed x (once xs), beyond-IsDistinct (x ∷ []) (once xs) (once-IsDistinct xs))

-- What a selection returns are indices of log files, each once.
parse_selection-IsSelection :
    (selection : Text) (len : ℕ) → Returns (IsSelection len) (parse_selection selection len)
parse_selection-IsSelection selection len =
    let tokens = non_empty (map trim (split b',' selection)) in
    rw (parse_selection-once selection len) (
      if_elim (Returns (IsSelection len)) (len == 0) _ _ (λ _. (tt, tt))
        λ _.
          bind-Returns (All (Below len)) (IsSelection len) (all_indices len tokens) _
            (all_indices-Below len tokens) λ l h. (once-All (Below len) l h, once-IsDistinct l))

entry_at-some :
    (entries : List LogEntry) (i : ℕ)
    → i < length entries
    → (e : LogEntry) × (entry_at entries i ≡ some e)
unfolding entry_at
entry_at-some [] i h = absurd (omega (arith, h))
entry_at-some (e ∷ entries) zero h = (e, refl)
entry_at-some (e ∷ entries) (suc i) h = entry_at-some entries i (omega (arith, h))

abbrev pub StandsAt : List LogEntry → List ℕ → List LogEntry → Type 0
StandsAt entries selected shown = map some shown ≡ map (entry_at entries) selected

entries_at-StandsAt :
    (entries : List LogEntry) (selected : List ℕ)
    → All (Below (length entries)) selected
    → (shown : List LogEntry) × (entries_at entries selected ≡ some shown)
      × StandsAt entries selected shown
unfolding entries_at
entries_at-StandsAt entries [] h = ([], refl, refl)
entries_at-StandsAt entries (i ∷ selected) h =
    let (e, at) = entry_at-some entries i h.0 in
    let (shown, rest, stand) = entries_at-StandsAt entries selected h.1 in
    (e ∷ shown, rw at (rw rest refl), rw at (ap (λ l. some e ∷ l) stand))

-- What `show` prints, for a selection of indices: the files that stand there, without a panic.
abbrev pub IsShow : List LogEntry → Option (List LogEntry) → Type 0
IsShow entries out =
    (selected : List ℕ) × (shown : List LogEntry) × (out ≡ some shown)
    × IsSelection (length entries) selected
    × StandsAt entries selected shown

-- Unless a token of the selection is an error, `show` does not panic, and prints the log files at
-- indices that are in range, each of them once.
pub show_logs-IsShow :
    (entries : List LogEntry) (selection : Text)
    → Returns (IsShow entries) (show_logs entries selection)
unfolding show_logs
show_logs-IsShow [] selection = ([], [], refl, (tt, tt), refl)
show_logs-IsShow (e ∷ es) selection =
    bind-Returns (IsSelection (length (e ∷ es))) (IsShow (e ∷ es))
      (parse_selection selection (length (e ∷ es))) _
      (parse_selection-IsSelection selection (length (e ∷ es)))
      λ selected h.
        let (shown, out, stand) = entries_at-StandsAt (e ∷ es) selected h.0 in
        (selected, shown, out, h, stand)
