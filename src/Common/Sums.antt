-- ===== src/Common/Sums.antt =====
-- Sums over lists and over the values of maps.
use mathlib.Core.List.{map}
use kronical.Prelude.{ℕ, ◌+◌, ◌≡◌, refl, ap, Bool, Option, none, some, List, [], ◌∷◌, ◌++◌, arith}
use kronical.Prelude.Classes.{Eq}
use kronical.Prelude.Sort.{insert_sorted, sort_by}
use kronical.Common.Maps.{lookup, insert}

-- The sum over a list.
abbrev pub sum_by {ℓ} : {A : Type ℓ} → (A → ℕ) → List A → ℕ
sum_by g [] = 0
sum_by g (a ∷ l) = g a + sum_by g l

-- What an entry had before.
abbrev pub was {ℓ} : {V : Type ℓ} → (V → ℕ) → Option V → ℕ
was g none = 0
was g (some v) = g v

module _ {ℓ} {K V : Type ℓ} ⦃e : Eq K⦄ (g : V → ℕ) where
  abbrev pub value_of : K × V → ℕ
  value_of (k, v) = g v

  pub sum_by-insert :
      (k : K) (v : V) (m : List (K × V))
      → sum_by value_of (insert k v m) + was g (lookup k m) ≡ sum_by value_of m + g v
  unfolding insert lookup
  sum_by-insert k v [] = omega arith
  sum_by-insert k v ((j, w) ∷ m) = ground (arith, sum_by-insert k v m)

sum_by-insert_sorted {ℓ} :
    {A : Type ℓ} (g : A → ℕ) (le : A → A → Bool) (x : A) (l : List A)
    → sum_by g (insert_sorted le x l) ≡ g x + sum_by g l
unfolding insert_sorted
sum_by-insert_sorted g le x [] = refl
sum_by-insert_sorted g le x (y ∷ l) = ground (arith, sum_by-insert_sorted g le x l)

pub sum_by-sort_by {ℓ} :
    {A : Type ℓ} (g : A → ℕ) (le : A → A → Bool) (l : List A) → sum_by g (sort_by le l) ≡ sum_by g l
unfolding sort_by
sum_by-sort_by g le [] = refl
sum_by-sort_by g le (x ∷ l) =
    omega (arith, sum_by-insert_sorted g le x (sort_by le l), sum_by-sort_by g le l)

pub sum_by-map {ℓ κ} :
    {A : Type ℓ} {B : Type κ} (g : B → ℕ) (h : A → B) (l : List A)
    → sum_by g (map h l) ≡ sum_by (λ a. g (h a)) l
sum_by-map g h [] = refl
sum_by-map g h (x ∷ l) = ap (λ n. g (h x) + n) (sum_by-map g h l)

pub sum_by-append {ℓ} :
    {A : Type ℓ} (g : A → ℕ) (xs ys : List A) → sum_by g (xs ++ ys) ≡ sum_by g xs + sum_by g ys
sum_by-append g [] ys = omega arith
sum_by-append g (x ∷ xs) ys = omega (arith, sum_by-append g xs ys)
