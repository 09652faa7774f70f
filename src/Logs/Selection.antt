-- ===== src/Logs/Selection.antt =====
-- Which log files a selection names (src/bin/kronictl/log_cli.rs, `parse_selection`).
use kronical.Prelude.{
  ℕ, zero, suc, ◌+◌, ◌-◌, Bool, false, not, ◌&&◌, ◌||◌, Option, none, some, List, [], ◌∷◌, ◌++◌,
  map, ltb, leb, ◌==◌, is_empty, length, if◌then◌else◌,
}
use mathlib.Core.List.{reverse, foldl}
use kronical.Prelude.Int.{
  ℤ, pos, negsuc, pos_part, sub_ℕ, ltb_ℤ, same_ℤ, as_i64, ◌+ℤ◌, add_i32, sub_i32,
}
use kronical.Logs.{SelectError, Result, ◌>>=◌}
use kronical.Logs.Chars.{Text, trim, split, parse_isize}

unfoldable pub contains : ℕ → List ℕ → Bool
contains value [] = false
contains value (x ∷ vec) = x == value || contains value vec

unfoldable pub push_unique : List ℕ → ℕ → List ℕ
push_unique vec value = if contains value vec then vec else vec ++ value ∷ []

unfoldable pub normalize_index : ℤ → ℕ → Result ℕ
normalize_index (pos idx) len =
    if leb len idx then Result.err (SelectError.past_last idx (len - 1)) else Result.ok idx
normalize_index (negsuc n) len =
    let idx = as_i64 len +ℤ negsuc n in
    if ltb_ℤ idx (pos 0)
    then Result.err (SelectError.before_first (negsuc n) len)
    else Result.ok (pos_part idx)

abbrev pub neg_index : ℕ → ℕ → ℤ
neg_index index len = sub_ℕ index len

-- A text of two or more characters ends in its last one, and starts and ends with one byte each where
-- these are parentheses: its bytes are more than two just if its characters are.
abbrev pub ends_in : Text → ℕ → Bool
ends_in [] c = false
ends_in (x ∷ []) c = x == c
ends_in (x ∷ y ∷ s) c = ends_in (y ∷ s) c

abbrev pub is_wrapped : Text → Bool
is_wrapped [] = false
is_wrapped (c ∷ s) = c == b'(' && (ends_in (c ∷ s) b')' && ltb 2 (length (c ∷ s)))

abbrev pub drop_last : Text → Text
drop_last [] = []
drop_last (x ∷ []) = []
drop_last (x ∷ y ∷ s) = x ∷ drop_last (y ∷ s)

-- `&trimmed[1..trimmed.len() - 1]`.
abbrev pub unwrapped : Text → Text
unwrapped [] = []
unwrapped (c ∷ s) = drop_last s

-- The loop, with as many rounds as the text has characters.
unfoldable pub trim_parens : ℕ → Text → Text
trim_parens zero value = trim value
trim_parens (suc fuel) value =
    let rest = trim_parens fuel (unwrapped (trim value)) in
    if is_wrapped (trim value) then rest else trim value

unfoldable pub trim_wrapping_parens : Text → Text
trim_wrapping_parens value = trim_parens (length value) value

abbrev pub parsed : Text → Option ℤ → Result ℤ
parsed trimmed none = Result.err (SelectError.invalid_index trimmed)
parsed trimmed (some value) = Result.ok value

unfoldable pub resolve_index : Text → ℕ → Result ℕ
resolve_index token len =
    if len == 0
    then Result.err SelectError.no_log_files
    else (let trimmed = trim_wrapping_parens (trim token) in
        parsed trimmed (parse_isize trimmed) >>= λ value. normalize_index value len)

-- `depth.saturating_sub(1)` on an `i32`: the depth goes below 0.
abbrev pub shallower : ℤ → ℤ
shallower depth = if same_ℤ depth (negsuc 0x7FFF_FFFF) then depth else sub_i32 depth (pos 1)

abbrev pub depth_after : ℤ → ℕ → ℤ
depth_after depth ch =
    if ch == b'(' then add_i32 depth (pos 1) else if ch == b')' then shallower depth else depth

-- The loop over the characters; `left` are those before.
unfoldable pub find_dash : ℤ → Text → Text → Option (Text × Text)
find_dash depth left [] = none
find_dash depth left (ch ∷ rest) =
    let later = find_dash (depth_after depth ch) (left ++ ch ∷ []) rest in
    if ch == b'-' && (same_ℤ depth (pos 0) && not (is_empty left))
    then some (trim left, trim rest)
    else later

abbrev pub split_range : Text → Option (Text × Text)
split_range token = find_dash (pos 0) [] (trim token)

-- `first..=last`.
unfoldable pub counting : ℕ → ℕ → List ℕ
counting first zero = []
counting first (suc n) = first ∷ counting (first + 1) n

abbrev pub interval : ℕ → ℕ → List ℕ
interval first last = counting first (last + 1 - first)

unfoldable pub range : ℕ → ℕ → List ℕ
range start last = if leb start last then interval start last else reverse (interval last start)

unfoldable pub push_all : List ℕ → List ℕ → List ℕ
push_all = foldl push_unique

abbrev pub select_token : List ℕ → ℕ → Text → Option (Text × Text) → Result (List ℕ)
select_token result len token none =
    resolve_index token len >>= λ idx. Result.ok (push_unique result idx)
select_token result len token (some (left, right)) = resolve_index left len >>= λ start.
    resolve_index right len >>= λ last. Result.ok (push_all result (range start last))

unfoldable pub select_tokens : List ℕ → ℕ → List Text → Result (List ℕ)
select_tokens result len [] = Result.ok result
select_tokens result len (token ∷ tokens) =
    select_token result len token (split_range token) >>= λ selected.
    select_tokens selected len tokens

unfoldable pub non_empty : List Text → List Text
non_empty [] = []
non_empty (t ∷ ts) = let rest = non_empty ts in if is_empty t then rest else t ∷ rest

unfoldable pub parse_selection : Text → ℕ → Result (List ℕ)
parse_selection selection len =
    if len == 0
    then Result.ok []
    else select_tokens [] len (non_empty (map trim (split b',' selection)))
