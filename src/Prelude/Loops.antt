-- ===== src/Prelude/Loops.antt =====
-- The loop `for a in items { state = ...; out.push(...) }`, with its rules.
use mathlib.Core.Path.{◌≡◌, refl}
use mathlib.Core.List.{List, [], ◌∷◌, ◌++◌, append_assoc}
use kronical.Prelude.Lists.{All}

module _ {ℓ} {S A B : Type ℓ} where
  -- Runs the body over the items in turn: the last state, and all that was pushed.
  unfoldable pub emit_each : (S → A → S × List B) → S → List A → S × List B
  emit_each body s [] = (s, [])
  emit_each body s (a ∷ items) =
      let (s', out) = body s a in let (last, rest) = emit_each body s' items in (last, out ++ rest)

  pub emit_each-append :
      (body : S → A → S × List B) (s : S) (xs ys : List A)
      → emit_each body s (xs ++ ys) ≡ (
        (emit_each body (emit_each body s xs).0 ys).0,
        (emit_each body s xs).1 ++ (emit_each body (emit_each body s xs).0 ys).1,
      )
  unfolding emit_each
  emit_each-append body s [] ys = refl
  emit_each-append body s (a ∷ xs) ys =
      rw (emit_each-append body (body s a).0 xs ys) (simp append_assoc)

  -- A relation between the states and what is pushed holds of the loop if it holds of its body,
  -- and of two runs in a row.
  pub emit_each_rule {κ} :
      (body : S → A → S × List B) (R : S → List B → S → Type κ)
      → ((s : S) → R s [] s)
      → ((s t u : S) (xs ys : List B) → R s xs t → R t ys u → R s (xs ++ ys) u)
      → ((s : S) (a : A) → R s (body s a).1 (body s a).0)
      → (s : S) (items : List A) → R s (emit_each body s items).1 (emit_each body s items).0
  unfolding emit_each
  emit_each_rule body R none_yet then each s [] = none_yet s
  emit_each_rule body R none_yet then each s (a ∷ items) =
      then s (body s a).0 _ (body s a).1 _ (each s a)
        (emit_each_rule body R none_yet then each (body s a).0 items)

  -- The same, where the body keeps the relation only on items that meet a condition.
  pub emit_each_rule_on {κ ν} :
      (P : A → Type ν) (body : S → A → S × List B) (R : S → List B → S → Type κ)
      → ((s : S) → R s [] s)
      → ((s t u : S) (xs ys : List B) → R s xs t → R t ys u → R s (xs ++ ys) u)
      → ((s : S) (a : A) → P a → R s (body s a).1 (body s a).0)
      → (s : S) (items : List A) → All P items
      → R s (emit_each body s items).1 (emit_each body s items).0
  unfolding emit_each
  emit_each_rule_on P body R none_yet then each s [] h = none_yet s
  emit_each_rule_on P body R none_yet then each s (a ∷ items) h =
      then s (body s a).0 _ (body s a).1 _ (each s a h.0)
        (emit_each_rule_on P body R none_yet then each (body s a).0 items h.1)
