-- ===== src/Logs/Selected.antt =====
-- What a selection selects (src/bin/kronictl/log_cli.rs, `parse_selection`).
use kronical.Prelude.{
  ℕ, ◌≡◌, refl, sym, ap, ◌∙◌, true, ◌||◌, Option, none, some, List, [], ◌∷◌, ◌++◌, map, Bool-cases,
  inl, inr, arith, ◌==◌, if◌then◌else◌,
}
use mathlib.Core.List.{append_assoc, append-nil, foldl-append}
use kronical.Logs.{Result, ◌>>=◌, bind_assoc, bind-cong}
use kronical.Logs.Chars.{Text, trim, split}
use kronical.Logs.Selection.{
  contains, push_unique, push_all, resolve_index, split_range, range, select_token, select_tokens,
  non_empty, parse_selection,
}

-- What is not in `seen`.
abbrev pub beyond : List ℕ → List ℕ → List ℕ
beyond seen [] = []
beyond seen (y ∷ ys) = let rest = beyond seen ys in if contains y seen then rest else y ∷ rest

-- Each number where it stands first.
abbrev pub once : List ℕ → List ℕ
once [] = []
once (x ∷ xs) = x ∷ beyond (x ∷ []) (once xs)

-- The indices of a token, and of all of them in their order, or the first error.
abbrev pub token_indices : ℕ → Text → Option (Text × Text) → Result (List ℕ)
token_indices len token none = resolve_index token len >>= λ idx. Result.ok (idx ∷ [])
token_indices len token (some (left, right)) = resolve_index left len >>= λ start.
    resolve_index right len >>= λ last. Result.ok (range start last)

abbrev pub all_indices : ℕ → List Text → Result (List ℕ)
all_indices len [] = Result.ok []
all_indices len (t ∷ ts) = token_indices len t (split_range t) >>= λ first.
    all_indices len ts >>= λ rest. Result.ok (first ++ rest)

contains-append : (y : ℕ) (a b : List ℕ) → contains y (a ++ b) ≡ (contains y a || contains y b)
unfolding contains
contains-append y [] b = refl
contains-append y (x ∷ a) b = ground (arith, contains-append y a b)

beyond-append : (a b ys : List ℕ) → beyond a (beyond b ys) ≡ beyond (a ++ b) ys
beyond-append a b [] = refl
beyond-append a b (y ∷ ys) = rw (contains-append y a b) (ground (arith, beyond-append a b ys))

beyond-none : (ys : List ℕ) → beyond [] ys ≡ ys
unfolding contains
beyond-none [] = refl
beyond-none (y ∷ ys) = ap (λ l. y ∷ l) (beyond-none ys)

contains-same :
    (x y : ℕ) (seen : List ℕ) → contains x seen ≡ true → (y == x) ≡ true → contains y seen ≡ true
unfolding contains
contains-same x y [] h e = cc
contains-same x y (z ∷ seen) h e = ground (arith, contains-same x y seen)

-- A number that is there already hides nothing more.
beyond-seen :
    (x : ℕ) (seen ys : List ℕ)
    → contains x seen ≡ true
    → beyond (seen ++ x ∷ []) ys ≡ beyond seen ys
unfolding contains
beyond-seen x seen [] h = refl
beyond-seen x seen (y ∷ ys) h =
    ground
      (arith, contains-append y seen (x ∷ []), contains-same x y seen h, beyond-seen x seen ys h)

push_all-once : (seen xs : List ℕ) → push_all seen xs ≡ seen ++ beyond seen (once xs)
unfolding push_all push_unique
push_all-once seen [] = sym (append-nil seen)
push_all-once seen (x ∷ xs) = elim (Bool-cases (contains x seen)) [
  | inl h ↦
      let later = beyond-append seen (x ∷ []) (once xs) ∙ beyond-seen x seen (once xs) h in
      rw h (push_all-once seen xs ∙ ap (λ l. seen ++ l) (sym later))
  | inr h ↦ rw h (
      push_all-once (seen ++ x ∷ []) xs
      ∙ append_assoc seen (x ∷ []) (beyond (seen ++ x ∷ []) (once xs))
      ∙ ap (λ l. seen ++ x ∷ l) (sym (beyond-append seen (x ∷ []) (once xs))))
]

select_token_indices :
    (seen : List ℕ) (len : ℕ) (token : Text) (split : Option (Text × Text))
    → select_token seen len token split
      ≡ (token_indices len token split >>= λ l. Result.ok (push_all seen l))
unfolding push_all
select_token_indices seen len token none = sym (bind_assoc (resolve_index token len) _ _)
select_token_indices seen len token (some (left, right)) = sym (
    bind_assoc (resolve_index left len) _ _
    ∙ bind-cong (resolve_index left len) _ _ (λ start. bind_assoc (resolve_index right len) _ _))

select_all_indices :
    (seen : List ℕ) (len : ℕ) (tokens : List Text)
    → select_tokens seen len tokens ≡ (all_indices len tokens >>= λ l. Result.ok (push_all seen l))
unfolding select_tokens push_all
select_all_indices seen len [] = refl
select_all_indices seen len (t ∷ ts) =
    let first = token_indices len t (split_range t) in
    ap (λ m. m >>= λ selected. select_tokens selected len ts)
      (select_token_indices seen len t (split_range t))
    ∙ bind_assoc first _ _
    ∙ bind-cong first _ _ (λ l.
      select_all_indices (push_all seen l) len ts
      ∙ bind-cong (all_indices len ts) _ _
          (λ r. ap Result.ok (sym (foldl-append push_unique seen l r)))
      ∙ sym (bind_assoc (all_indices len ts) _ _))
    ∙ sym (bind_assoc first _ _)

-- A selection is the indices of its tokens, the text between commas that is not blank, in their order and
-- each where it stands first; or the first error of a token. A token is an index, or a range that
-- runs up or down. Without log files nothing is selected and nothing is an error.
pub parse_selection-once :
    (selection : Text) (len : ℕ)
    → parse_selection selection len ≡ (
        if len == 0
        then Result.ok []
        else all_indices len (non_empty (map trim (split b',' selection))) >>= λ l.
            Result.ok (once l))
unfolding parse_selection
parse_selection-once selection len =
    let tokens = non_empty (map trim (split b',' selection)) in
    ap (λ m. if len == 0 then Result.ok [] else m)
      (select_all_indices [] len tokens
        ∙ bind-cong (all_indices len tokens) _ _
            (λ l. ap Result.ok (push_all-once [] l ∙ beyond-none (once l))))
