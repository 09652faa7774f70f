-- ===== src/Examples/Caches.antt =====
-- The cache at concrete inputs: room for two entries, which live for 100.
use kronical.Prelude.{ℕ, ◌≡◌, refl, some, [], ◌∷◌, arith}
use kronical.Prelude.Classes.{nat_eq}
use kronical.Common.Lru.{LruCache, put}
use kronical.Common.Lru.Bounds.{IsValid, put-IsValid}
use kronical.Common.Maps.{lookup}

abbrev full : LruCache ℕ ℕ
full = record { map = (1, (10, 5)) ∷ (2, (20, 3)) ∷ []; capacity = 2; ttl = some 100 }

abbrev over : LruCache ℕ ℕ
over = record full { map = (1, (10, 5)) ∷ (2, (20, 3)) ∷ (3, (30, 8)) ∷ [] }

full-IsValid : IsValid full
unfolding lookup
full-IsValid = record {
  distinct = (refl, (refl, tt));
  bounded = omega arith;
  positive = omega arith;
}

-- The third key pushes out the second, used at 3.
put_third : put full 3 30 8 ≡ record full { map = (1, (10, 5)) ∷ (3, (30, 8)) ∷ [] }
unfolding put
put_third = refl

put-IsValid_example : IsValid (put full 3 30 8)
put-IsValid_example = put-IsValid full 3 30 8 full-IsValid
