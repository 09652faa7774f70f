-- ===== src/Prelude/Chunks.antt =====
-- `chunk_by`: a list cut wherever two neighbours do not join; and a rule for loops that build such
-- chunks one item at a time.
use mathlib.Core.Bool.{Bool, true, false}
use mathlib.Core.List.{List, [], ◌∷◌, ◌++◌, append_assoc, append-nil, map, map-append, flat_map}
use mathlib.Core.Path.{◌≡◌, refl, ap, ◌∙◌}
use mathlib.Core.Logic.{inl, inr}
use kronical.Prelude.Lists.{All, flat_map-append}
use kronical.Prelude.Loops.{emit_each}
use kronical.Prelude.Tests.{if◌then◌else◌, Bool-cases}

module _ {ℓ} {A : Type ℓ} (joins : A → A → Bool) where
  -- An item put before the first chunk, or in a chunk of its own.
  abbrev push_front : A → Bool → List A × List (List A) → List A × List (List A)
  push_front y joined (c, rest) = if joined then (y ∷ c, rest) else ([], (y ∷ c) ∷ rest)

  -- The rest of the chunk that `x` opens, and the chunks after it.
  unfoldable pub chunk_tail : A → List A → List A × List (List A)
  chunk_tail x [] = ([], [])
  chunk_tail x (y ∷ ys) = push_front y (joins x y) (chunk_tail y ys)

  unfoldable pub chunk_by : List A → List (List A)
  unfolding chunk_tail
  chunk_by [] = []
  chunk_by (x ∷ xs) = let (c, rest) = chunk_tail x xs in (x ∷ c) ∷ rest

  -- A chunk has an item, and each two neighbours of it join.
  abbrev pub Joined : A → List A → Type 0
  Joined x [] = Unit
  Joined x (y ∷ ys) = (joins x y ≡ true) × Joined y ys

  abbrev pub IsChunk : List A → Type 0
  IsChunk [] = ⊥
  IsChunk (x ∷ xs) = Joined x xs

  -- Cutting loses and reorders nothing.
  tail_parts :
      (x : A) (xs : List A) → (chunk_tail x xs).0 ++ flat_map (λ c. c) (chunk_tail x xs).1 ≡ xs
  unfolding chunk_tail flat_map
  tail_parts x [] = refl
  tail_parts x (y ∷ ys) = elim (Bool-cases (joins x y)) [
    | inl same ↦ rw same (ap (◌∷◌ y) (tail_parts y ys))
    | inr cut ↦ rw cut (ap (◌∷◌ y) (tail_parts y ys))
  ]

  pub chunk_by-parts : (xs : List A) → flat_map (λ c. c) (chunk_by xs) ≡ xs
  unfolding chunk_by flat_map
  chunk_by-parts [] = refl
  chunk_by-parts (x ∷ xs) = ap (◌∷◌ x) (tail_parts x xs)

  tail-IsChunk :
      (x : A) (xs : List A) → Joined x (chunk_tail x xs).0 × All IsChunk (chunk_tail x xs).1
  unfolding chunk_tail
  tail-IsChunk x [] = (tt, tt)
  tail-IsChunk x (y ∷ ys) = elim (Bool-cases (joins x y)) [
    | inl same ↦ rw same ((same, (tail-IsChunk y ys).0), (tail-IsChunk y ys).1)
    | inr cut ↦ rw cut (tt, tail-IsChunk y ys)
  ]

  pub chunk_by-IsChunk : (xs : List A) → All IsChunk (chunk_by xs)
  unfolding chunk_by
  chunk_by-IsChunk [] = tt
  chunk_by-IsChunk (x ∷ xs) = tail-IsChunk x xs

-- What is read of the chunks' results, where each gives what `f` makes of its items.
module _ {ℓ} {A B C : Type ℓ} (joins : A → A → Bool) (emit : List A → List B) (read : B → List C)
    (f : A → C) where
  flat_map-chunks :
      (cs : List (List A))
      → All (IsChunk joins) cs
      → ((c : List A) → IsChunk joins c → flat_map read (emit c) ≡ map f c)
      → flat_map read (flat_map emit cs) ≡ map f (flat_map (λ c. c) cs)
  unfolding flat_map
  flat_map-chunks [] h each = refl
  flat_map-chunks (c ∷ cs) h each =
      rw flat_map-append
        (rw map-append (rw (each c h.0) (ap (λ zs. map f c ++ zs) (flat_map-chunks cs h.1 each))))

  pub flat_map-chunk_by :
      ((c : List A) → IsChunk joins c → flat_map read (emit c) ≡ map f c)
      → (xs : List A) → flat_map read (flat_map emit (chunk_by joins xs)) ≡ map f xs
  flat_map-chunk_by each xs =
      flat_map-chunks (chunk_by joins xs) (chunk_by-IsChunk joins xs) each
      ∙ ap (map f) (chunk_by-parts joins xs)

-- The last of a list that starts with `e`.
abbrev pub last_of {ℓ} : {A : Type ℓ} → A → List A → A
last_of e [] = e
last_of e (x ∷ xs) = last_of x xs

pub last_of_end {ℓ} : {A : Type ℓ} (e : A) (es : List A) (x : A) → last_of e (es ++ x ∷ []) ≡ x
last_of_end e [] x = refl
last_of_end e (b ∷ es) x = last_of_end b es x

-- A loop whose state is `opened e es` while the chunk `e ∷ es` is open, and which pushes `emit` of
-- every chunk that it ends, pushes what `emit` makes of the chunks.
module _ {ℓ} {A S B : Type ℓ} (joins : A → A → Bool) (body : S → A → S × List B)
    (finish : S → List B) (emit : List A → List B) (opened : A → List A → S) where
  abbrev Stays : Type ℓ
  Stays =
      (e : A) (es : List A) (y : A)
      → joins (last_of e es) y ≡ true
      → body (opened e es) y ≡ (opened e (es ++ y ∷ []), [])

  abbrev Cuts : Type ℓ
  Cuts =
      (e : A) (es : List A) (y : A)
      → joins (last_of e es) y ≡ false
      → body (opened e es) y ≡ (opened y [], emit (e ∷ es))

  abbrev Ends : Type ℓ
  Ends = (e : A) (es : List A) → finish (opened e es) ≡ emit (e ∷ es)

  emit_each-chunk_tail :
      Stays
      → Cuts
      → Ends
      → (e : A) (es xs : List A)
      → (emit_each body (opened e es) xs).1 ++ finish (emit_each body (opened e es) xs).0
        ≡ emit (e ∷ (es ++ (chunk_tail joins (last_of e es) xs).0))
          ++ flat_map emit (chunk_tail joins (last_of e es) xs).1
  unfolding emit_each chunk_tail flat_map
  emit_each-chunk_tail stays cuts ends e es [] = rw append-nil (rw append-nil (ends e es))
  emit_each-chunk_tail stays cuts ends e es (y ∷ ys) = elim (Bool-cases (joins (last_of e es) y)) [
    | inl same ↦ rw same (
        rw (stays e es y same) (
          emit_each-chunk_tail stays cuts ends e (es ++ y ∷ []) ys
          ∙ rw (last_of_end e es y) (simp append_assoc)))
    | inr other ↦ rw other (
        rw (cuts e es y other) (
          rw append_assoc (
            rw append-nil
              (ap (λ zs. emit (e ∷ es) ++ zs) (emit_each-chunk_tail stays cuts ends y [] ys)))))
  ]

  pub emit_each-chunk_by :
      Stays
      → Cuts
      → Ends
      → (e : A) (xs : List A)
      → (emit_each body (opened e []) xs).1 ++ finish (emit_each body (opened e []) xs).0
        ≡ flat_map emit (chunk_by joins (e ∷ xs))
  unfolding chunk_by flat_map
  emit_each-chunk_by stays cuts ends e xs = emit_each-chunk_tail stays cuts ends e [] xs
