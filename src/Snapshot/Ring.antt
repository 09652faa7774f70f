-- ===== src/Snapshot/Ring.antt =====
-- A queue that keeps the newest entries: what is pushed against what is kept.
use kronical.Prelude.{
  ℕ, zero, suc, ◌+◌, ◌-◌, ◌≤◌, min, ◌≡◌, refl, ap, sym, ◌∙◌, true, false, List, [], ◌∷◌, ◌++◌, leb,
  length, take, drop, last_n, length-append, length-drop, drop-append, drop_one-drop, arith, inl,
  inr, Bool-cases, le→leb, leb→le, ◌<◌,
}
use kronical.Snapshot.{push_bounded}
use mathlib.Core.List.{reverse, reverse-append, reverse-cons}

module _ {ℓ} {A : Type ℓ} where
  pub take_all : (n : ℕ) (xs : List A) → take (min n (length xs)) xs ≡ take n xs
  take_all zero xs = ap (λ k. take k xs) {x = min 0 (length xs)} {y = 0} (omega arith)
  take_all (suc n) [] = ap (λ k. take k []) {x = min (suc n) 0} {y = 0} (omega arith)
  take_all (suc n) (x ∷ xs) =
      let e : min (suc n) (suc (length xs)) ≡ suc (min n (length xs)) = omega arith in
      rw e (ap (◌∷◌ x) (take_all n xs))

  take-append : (n : ℕ) (xs ys : List A) → n ≤ length xs → take n (xs ++ ys) ≡ take n xs
  take-append zero xs ys h = refl
  take-append (suc n) [] ys h = absurd (omega arith)
  take-append (suc n) (x ∷ xs) ys h = ap (◌∷◌ x) (take-append n xs ys (omega arith))

  pub length-reverse : (xs : List A) → length (reverse xs) ≡ length xs
  length-reverse [] = refl
  length-reverse (x ∷ xs) =
      omega (
        arith,
        ap length (reverse-cons x xs),
        length-append (reverse xs) (x ∷ []),
        length-reverse xs,
      )

  take-append-drop : (n : ℕ) (xs : List A) → take n xs ++ drop n xs ≡ xs
  take-append-drop zero xs = refl
  take-append-drop (suc n) [] = refl
  take-append-drop (suc n) (x ∷ xs) = ap (◌∷◌ x) (take-append-drop n xs)

  -- The newest entries, from the newest back, do not depend on how much of the past was dropped.
  pub take-reverse-drop :
      (n k : ℕ) (xs : List A)
      → n + k ≤ length xs
      → take n (reverse (drop k xs)) ≡ take n (reverse xs)
  take-reverse-drop n k xs h =
      let split = take-append-drop k xs in
      let long : n ≤ length (reverse (drop k xs)) =
        omega (arith, length-reverse (drop k xs), length-drop k xs) in
      sym (
        ap (λ l. take n (reverse l)) (sym split)
        ∙ (ap (take n) (reverse-append (take k xs) (drop k xs))
            ∙ take-append n (reverse (drop k xs)) (reverse (take k xs)) long))

  push_full :
      (h : List A) (a : A)
      → 64 ≤ length h
      → push_bounded (last_n 64 h) a ≡ last_n 64 (h ++ (a ∷ []))
  unfolding push_bounded
  push_full h a full =
      let k = length h - 64 in
      let c : leb 64 (length (drop k h)) ≡ true =
        le→leb 64 (length (drop k h)) (omega (arith, length-drop k h)) in
      let e : length (h ++ (a ∷ [])) - 64 ≡ suc k = omega (arith, length-append h (a ∷ [])) in
      rw c (
        rw e (
          ap (λ l. l ++ (a ∷ [])) (drop_one-drop k h)
          ∙ sym (drop-append (suc k) h (a ∷ []) (omega arith))))

  push_room :
      (h : List A) (a : A)
      → length h < 64
      → push_bounded (last_n 64 h) a ≡ last_n 64 (h ++ (a ∷ []))
  unfolding push_bounded
  push_room h a room =
      let k : length h - 64 ≡ 0 = omega arith in
      let e : length (h ++ (a ∷ [])) - 64 ≡ 0 = omega (arith, length-append h (a ∷ [])) in
      let c : leb 64 (length h) ≡ false = ground arith in rw k (rw e (rw c))

  -- One push onto the newest 64 of a history keeps the newest 64 of the longer history.
  pub push_bounded-last_n :
      (h : List A) (a : A) → push_bounded (last_n 64 h) a ≡ last_n 64 (h ++ (a ∷ []))
  push_bounded-last_n h a = elim (Bool-cases (leb 64 (length h))) [
    | inl full ↦ push_full h a (leb→le 64 (length h) full)
    | inr room ↦ push_room h a (ground arith)
  ]
