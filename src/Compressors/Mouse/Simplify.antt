-- ===== src/Compressors/Mouse/Simplify.antt =====
-- `douglas_peucker` and `farthest`: what the simplified path keeps, and that the recursion ends.
use mathlib.Core.List.{drop_last, Sublist}
use mathlib.Core.List.Sublist
use kronical.Prelude.{
  ℕ, zero, suc, ◌+◌, ◌≤◌, ◌<◌, ◌≡◌, refl, sym, ap, ◌∙◌, true, false, Option, some, List, [], ◌∷◌,
  ◌++◌, length, take, drop, length-drop, length-append, arith, leb, if_elim, ◌⊎◌, inl, inr,
}
use kronical.Prelude.Chunks.{last_of}
use kronical.Prelude.Int.{pos}
use kronical.Compression.{F32}
use kronical.Compressors.{Floats}
use kronical.Compressors.Mouse.{perpendicular_distance, farthest, douglas_peucker, joined}
use kronical.Events.{MousePosition}

-- Either no distance is above the initial one, or the index of the greatest is between the ends.
abbrev Found : F32 → ℕ → ℕ → ℕ → F32 × ℕ → Type 0
Found d m i n r = (r ≡ (d, m)) ⊎ ((i ≤ r.1) × (r.1 + 1 < i + n))

keep_here :
    (d : F32) (i n : ℕ) (e : F32) (m : ℕ) (r : F32 × ℕ)
    → Found d i (suc i) (suc n) r
    → Found e m i (suc (suc n)) r
keep_here d i n e m r (inl same) = inr (rw same (omega arith, omega arith))
keep_here d i n e m r (inr (lo, hi)) = inr (omega arith, omega arith)

keep_later :
    (d : F32) (m i n : ℕ) (r : F32 × ℕ) → Found d m (suc i) (suc n) r → Found d m i (suc (suc n)) r
keep_later d m i n r (inl same) = inl same
keep_later d m i n r (inr (lo, hi)) = inr (omega arith, omega arith)

farthest-Found :
    (f : Floats) (a b : MousePosition) (i : ℕ) (ps : List MousePosition) (d : F32) (m : ℕ)
    → Found d m i (length ps) (farthest f a b i ps d m)
unfolding farthest
farthest-Found f a b i [] d m = inl refl
farthest-Found f a b i (p ∷ []) d m = inl refl
farthest-Found f a b i (p ∷ q ∷ ps) d m =
    let distance = perpendicular_distance f p a b in
    if_elim (Found d m i (suc (suc (length ps)))) (f.lt d distance)
      (farthest f a b (suc i) (q ∷ ps) distance i) (farthest f a b (suc i) (q ∷ ps) d m)
      (λ _.
        keep_here distance i (length ps) d m _ (farthest-Found f a b (suc i) (q ∷ ps) distance i))
      λ _. keep_later d m i (length ps) _ (farthest-Found f a b (suc i) (q ∷ ps) d m)

module _ {ℓ} {A : Type ℓ} where
  -- What a simplified path keeps of a path `p ∷ ps`: the first and the last point, and of the rest
  -- some, in order.
  pub record Keeps (p : A) (ps : List A) (out : List A) : Type ℓ where
    pub rest : List A
    pub starts : out ≡ p ∷ rest
    pub ends : last_of p rest ≡ last_of p ps
    pub some_of : Sublist rest ps
    pub more : 1 ≤ length rest

  last_of-append : (p : A) (xs ys : List A) → last_of p (xs ++ ys) ≡ last_of (last_of p xs) ys
  last_of-append p [] ys = refl
  last_of-append p (x ∷ xs) ys = last_of-append x xs ys

  take-append-drop : (n : ℕ) (l : List A) → take n l ++ drop n l ≡ l
  take-append-drop zero l = refl
  take-append-drop (suc n) [] = refl
  take-append-drop (suc n) (x ∷ l) = ap (◌∷◌ x) (take-append-drop n l)

  drop_last-last_of :
      (p : A) (ls zs : List A) → drop_last (p ∷ ls) ++ last_of p ls ∷ zs ≡ p ∷ (ls ++ zs)
  drop_last-last_of p [] zs = refl
  drop_last-last_of p (x ∷ ls) zs = ap (◌∷◌ p) (drop_last-last_of x ls zs)

  -- A path from its `i`-th point on.
  drop-last_of :
      (i : ℕ) (p : A) (ps : List A)
      → i ≤ length ps
      → drop i (p ∷ ps) ≡ last_of p (take i ps) ∷ drop i ps
  drop-last_of zero p ps h = refl
  drop-last_of (suc i) p [] h = absurd (omega arith)
  drop-last_of (suc i) p (x ∷ ps) h = drop-last_of i x ps (omega arith)

  length-take-min : (i : ℕ) (l : List A) → i ≤ length l → length (take i l) ≡ i
  length-take-min zero l h = refl
  length-take-min (suc i) [] h = absurd (omega arith)
  length-take-min (suc i) (x ∷ l) h = omega (arith, length-take-min i l (omega arith))

  -- Two halves that meet in a point, joined there.
  halves-Keep :
      (i : ℕ) (p : A) (ps left right : List A)
      → i ≤ length ps
      → Keeps p (take i ps) left
      → Keeps (last_of p (take i ps)) (drop i ps) right
      → Keeps p ps (drop_last left ++ right)
  halves-Keep i p ps left right h l r = record {
    rest = l.rest ++ r.rest;
    starts = rw l.starts (rw r.starts (rw (← l.ends) (drop_last-last_of p l.rest r.rest)));
    ends =
        last_of-append p l.rest r.rest
        ∙ (rw l.ends r.ends
            ∙ (sym (last_of-append p (take i ps) (drop i ps))
                ∙ ap (last_of p) (take-append-drop i ps)));
    some_of = rw (← take-append-drop i ps) (Sublist.append l.some_of r.some_of);
    more = omega (arith, l.more, length-append l.rest r.rest);
  }

-- The recursion ended, with a path that keeps what it should.
abbrev pub Done : MousePosition → List MousePosition → Option (List MousePosition) → Type 0
Done p ps o = (out : List MousePosition) × (o ≡ some out) × Keeps p ps out

joined-Done :
    (i : ℕ) (p : MousePosition) (ps : List MousePosition) (left right : Option (List MousePosition))
    → i ≤ length ps
    → Done p (take i ps) left
    → Done (last_of p (take i ps)) (drop i ps) right
    → Done p ps (joined left right)
joined-Done i p ps left right h (l, el, kl) (r, er, kr) =
    (drop_last l ++ r, rw el (rw er refl), halves-Keep i p ps l r h kl kr)

last_of-sublist :
    (p x : MousePosition) (xs : List MousePosition) → Sublist (last_of p (x ∷ xs) ∷ []) (x ∷ xs)
last_of-sublist p x [] = Sublist.refl _
last_of-sublist p x (y ∷ ys) = Sublist.cons _ (last_of-sublist x y ys)

module _ (f : Floats) (epsilon : F32) (positive : f.lt epsilon (f.as_f32 (pos 0)) ≡ false) where
  split-Done :
      (fuel : ℕ) (p : MousePosition) (ps : List MousePosition) (r : F32 × ℕ)
      → Found (f.as_f32 (pos 0)) 0 1 (length ps) r
      → f.lt epsilon r.0 ≡ true
      → length ps ≤ fuel
      → ((p : MousePosition) (ps : List MousePosition)
          → 1 ≤ length ps
          → suc (length ps) ≤ fuel
          → Done p ps (douglas_peucker f fuel (p ∷ ps) epsilon))
      → Done p ps (
          joined
            (douglas_peucker f fuel (take (suc r.1) (p ∷ ps)) epsilon)
            (douglas_peucker f fuel (drop r.1 (p ∷ ps)) epsilon))
  split-Done fuel p ps r (inl same) far h ih =
      absurd (ground (arith, ap (λ (s : F32 × ℕ). f.lt epsilon s.0) same))
  split-Done fuel p ps r (inr (lo, hi)) far h ih =
      let inside : r.1 ≤ length ps = omega arith in
      rw (drop-last_of r.1 p ps inside) (
        joined-Done r.1 p ps _ _ inside
          (ih p (take r.1 ps) (omega (arith, length-take-min r.1 ps inside))
            (omega (arith, length-take-min r.1 ps inside)))
          (ih (last_of p (take r.1 ps)) (drop r.1 ps) (omega (arith, length-drop r.1 ps))
            (omega (arith, length-drop r.1 ps))))

  -- On a path of two points at least, with as much fuel as there are points and an `epsilon` that is
  -- not below 0.0, `douglas_peucker` returns: two points at least, the first and the last those of
  -- the path, and between them some of the path's points, in order.
  pub douglas_peucker-Keeps :
      (fuel : ℕ) (p : MousePosition) (ps : List MousePosition)
      → 1 ≤ length ps
      → suc (length ps) ≤ fuel
      → Done p ps (douglas_peucker f fuel (p ∷ ps) epsilon)
  unfolding douglas_peucker
  douglas_peucker-Keeps fuel p [] one h = absurd (omega arith)
  douglas_peucker-Keeps zero p (q ∷ ps) one h = absurd (omega arith)
  douglas_peucker-Keeps (suc fuel) p (q ∷ []) one h = (
    p ∷ q ∷ [],
    refl,
    record {
      rest = q ∷ [];
      starts = refl;
      ends = refl;
      some_of = Sublist.refl _;
      more = omega arith;
    },
  )
  douglas_peucker-Keeps (suc fuel) p (q ∷ s ∷ ps) one h =
      let ends = p ∷ last_of p (q ∷ s ∷ ps) ∷ [] in
      let r = farthest f p (last_of p (q ∷ s ∷ ps)) 1 (q ∷ s ∷ ps) (f.as_f32 (pos 0)) 0 in
      let long : leb (suc (suc (suc (length ps)))) 2 ≡ false = ground arith in
      rw long (
        if_elim (Done p (q ∷ s ∷ ps)) (f.lt epsilon r.0) _ (some ends)
          (λ far.
            split-Done fuel p (q ∷ s ∷ ps) r
              (farthest-Found f p _ 1 (q ∷ s ∷ ps) (f.as_f32 (pos 0)) 0) far (omega arith)
              (douglas_peucker-Keeps fuel))
          λ _. (
            ends,
            refl,
            record {
              rest = last_of p (q ∷ s ∷ ps) ∷ [];
              starts = refl;
              ends = refl;
              some_of = last_of-sublist p q (s ∷ ps);
              more = omega arith;
            },
          ))
