-- ===== src/Prelude/Sort.antt =====
-- `sort_by` and `sort_by_key`: the standard library's stable sort, as an insertion sort.
use Prim.Native.Nat.{ℕ}
use mathlib.Core.Bool.{Bool, true, false}
use mathlib.Core.List.{List, [], ◌∷◌, Perm}
use mathlib.Core.List.Perm
use mathlib.Core.Path.{◌≡◌}
use native.Mathlib.Omega.{arith}
use kronical.Prelude.Lists.{All, All-imp}
use kronical.Prelude.Tests.{leb, if◌then◌else◌, if_elim, tests}

module _ {ℓ} {A : Type ℓ} (le : A → A → Bool) where
  -- Before the first entry that it does not come after.
  unfoldable pub insert_sorted : A → List A → List A
  insert_sorted x [] = x ∷ []
  insert_sorted x (y ∷ ys) =
      let later = insert_sorted x ys in if le x y then x ∷ y ∷ ys else y ∷ later

  unfoldable pub sort_by : List A → List A
  unfolding insert_sorted
  sort_by [] = []
  sort_by (x ∷ xs) = insert_sorted x (sort_by xs)

  -- Each entry stands before those that it does not come after.
  abbrev pub IsSorted : List A → Type ℓ
  IsSorted [] = Unit
  IsSorted (x ∷ xs) = All (λ y. le x y ≡ true) xs × IsSorted xs

  insert_sorted-perm : (x : A) (xs : List A) → Perm (insert_sorted x xs) (x ∷ xs)
  unfolding insert_sorted
  insert_sorted-perm x [] = Perm.rfl
  insert_sorted-perm x (y ∷ ys) =
      if_elim (λ l. Perm l (x ∷ y ∷ ys)) (le x y) _ _ (λ _. Perm.rfl)
        λ _. Perm.trans (Perm.cons y (insert_sorted-perm x ys)) (Perm.swap x y ys)

  pub sort_by-perm : (xs : List A) → Perm (sort_by xs) xs
  unfolding sort_by
  sort_by-perm [] = Perm.rfl
  sort_by-perm (x ∷ xs) =
      Perm.trans (insert_sorted-perm x (sort_by xs)) (Perm.cons x (sort_by-perm xs))

  insert_sorted-All {κ} :
      (P : A → Type κ) (x : A) (xs : List A) → P x → All P xs → All P (insert_sorted x xs)
  unfolding insert_sorted
  insert_sorted-All P x [] p h = (p, tt)
  insert_sorted-All P x (y ∷ ys) p h =
      if_elim (All P) (le x y) _ _ (λ _. (p, h)) λ _. (h.0, insert_sorted-All P x ys p h.1)

  pub sort_by-All {κ} : (P : A → Type κ) (xs : List A) → All P xs → All P (sort_by xs)
  unfolding sort_by
  sort_by-All P [] h = tt
  sort_by-All P (x ∷ xs) h = insert_sorted-All P x (sort_by xs) h.0 (sort_by-All P xs h.1)

  -- The comparison is transitive and total.
  pub record IsOrder : Type ℓ where
    pub trans : (x y z : A) → le x y ≡ true → le y z ≡ true → le x z ≡ true
    pub total : (x y : A) → le x y ≡ false → le y x ≡ true

  module _ (o : IsOrder) where
    insert_sorted-IsSorted : (x : A) (xs : List A) → IsSorted xs → IsSorted (insert_sorted x xs)
    unfolding insert_sorted
    insert_sorted-IsSorted x [] h = (tt, tt)
    insert_sorted-IsSorted x (y ∷ ys) h =
        if_elim IsSorted (le x y) _ _
          (λ e. (
            (
              e,
              All-imp (λ z. le y z ≡ true) (λ z. le x z ≡ true) (λ z p. o.trans x y z e p) ys h.0,
            ),
            h,
          ))
          λ e. (
            insert_sorted-All (λ z. le y z ≡ true) x ys (o.total x y e) h.0,
            insert_sorted-IsSorted x ys h.1,
          )

    pub sort_by-IsSorted : (xs : List A) → IsSorted (sort_by xs)
    unfolding sort_by
    sort_by-IsSorted [] = tt
    sort_by-IsSorted (x ∷ xs) = insert_sorted-IsSorted x (sort_by xs) (sort_by-IsSorted xs)

module _ {ℓ} {A : Type ℓ} (key : A → ℕ) where
  abbrev pub ascending : A → A → Bool
  ascending x y = leb (key x) (key y)

  -- `b.key.cmp(&a.key)`.
  abbrev pub descending : A → A → Bool
  descending x y = leb (key y) (key x)

  abbrev pub sort_by_key : List A → List A
  sort_by_key xs = sort_by ascending xs

  pub ascending-IsOrder : IsOrder ascending
  ascending-IsOrder = record { trans = λ x y z p q. omega tests; total = λ x y e. ground arith }

  pub descending-IsOrder : IsOrder descending
  descending-IsOrder = record { trans = λ x y z p q. omega tests; total = λ x y e. ground arith }
