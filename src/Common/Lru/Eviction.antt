-- ===== src/Common/Lru/Eviction.antt =====
-- Which entry the cache gives up: the one that was used least recently.
use kronical.Prelude.{
  ℕ, ◌≤◌, ◌<◌, ◌≡◌, refl, false, Option, none, some, List, [], ◌∷◌, length, leb, ltb, arith, ltb→lt,
  leb→le, leb→gt, ◌⊎◌, if◌then◌else◌, Bool-cases, if_elim, Option-cases, inl, inr, All,
}
use mathlib.Core.Path.{subst}
use kronical.Prelude.Classes.{Eq}
use kronical.Common.Maps.{lookup, remove, Distinct}
use kronical.Common.Lru.{LruCache, oldest_from, oldest, evict_if_needed}

module _ {ℓ} {K V : Type ℓ} where
  -- The least timestamp is at most every other.
  oldest_from-le :
      (k : K) (ts : ℕ) (m : List (K × (V × ℕ)))
      → ((oldest_from k ts m).1 ≤ ts) × All (λ x. (oldest_from k ts m).1 ≤ x.1.1) m
  unfolding oldest_from
  oldest_from-le k ts [] = (omega arith, tt)
  oldest_from-le k ts ((j, (v, u)) ∷ m) =
      if_elim (λ r. (r.1 ≤ ts) × ((r.1 ≤ u) × All (λ x. r.1 ≤ x.1.1) m)) (ltb u ts)
        (oldest_from j u m) (oldest_from k ts m)
        (λ later.
          let (a, b) = oldest_from-le j u m in (omega (arith, a, ltb→lt u ts later), (a, b)))
        (λ earlier.
          let (a, b) = oldest_from-le k ts m in
          let le : ts ≤ u = ground arith in (a, (omega (arith, a, le), b)))

module _ {ℓ} {K V : Type ℓ} ⦃e : Eq K⦄ where
  -- An entry with the key, at the timestamp.
  abbrev pub Holds : List (K × (V × ℕ)) → K × ℕ → Type ℓ
  Holds m (k, ts) = (v : V) × (lookup k m ≡ some (v, ts))

  other_key :
      (a b : K) (m : List (K × (V × ℕ))) (w : V × ℕ)
      → lookup a m ≡ none
      → lookup b m ≡ some w
      → e.beq a b ≡ false
  other_key a b m w h k = ground (arith, e.beq_iff a b)

  absent_tail :
      (k j : K) (w : V × ℕ) (m : List (K × (V × ℕ)))
      → lookup k ((j, w) ∷ m) ≡ none
      → lookup k m ≡ none
  unfolding lookup
  absent_tail k j w m h = ground arith

  oldest_from-Holds :
      (k : K) (v : V) (ts : ℕ) (m : List (K × (V × ℕ)))
      → Distinct ((k, (v, ts)) ∷ m)
      → Holds ((k, (v, ts)) ∷ m) (oldest_from k ts m)
  unfolding oldest_from lookup
  oldest_from-Holds k v ts [] d = (v, ground (arith, e.beq_iff k k))
  oldest_from-Holds k v ts ((j, (x, u)) ∷ m) d =
      if_elim (Holds ((k, (v, ts)) ∷ (j, (x, u)) ∷ m)) (ltb u ts) (oldest_from j u m)
        (oldest_from k ts m)
        (λ later.
          let r = oldest_from j u m in
          let (w, h) = oldest_from-Holds j x u m d.1 in
          let apart = other_key k r.0 ((j, (x, u)) ∷ m) (w, r.1) d.0 h in (w, rw apart h))
        (λ earlier.
          let r = oldest_from k ts m in
          let (w, h) = oldest_from-Holds k v ts m (absent_tail k j (x, u) m d.0, d.1.1) in
          (w, skip r.0 (w, r.1) (some (v, ts)) h))
    where
      skip :
          (a : K) (w : V × ℕ) (o : Option (V × ℕ))
          → (if e.beq k a then o else lookup a m) ≡ some w
          → (if e.beq k a then o else (if e.beq j a then some (x, u) else lookup a m)) ≡ some w
      skip a w o h = elim (Bool-cases (e.beq k a)) [
        | inl same ↦ rw same (rw same at h)
        | inr apart ↦
            let found : lookup a m ≡ some w = rw apart at h in
            rw apart (rw (other_key j a m w d.1.0 found) found)
      ]

  -- The key that `oldest` names: it is in the map, and no entry is older.
  pub record IsOldest (m : List (K × (V × ℕ))) (k : K) (ts : ℕ) : Type ℓ where
    pub holds : Holds m (k, ts)
    pub least : All (λ x. ts ≤ x.1.1) m

  oldest-IsOldest :
      (m : List (K × (V × ℕ))) (k : K) (ts : ℕ)
      → Distinct m
      → oldest m ≡ some (k, ts)
      → IsOldest m k ts
  unfolding oldest
  oldest-IsOldest [] k ts d h = absurd (cc)
  oldest-IsOldest ((j, (v, u)) ∷ m) k ts d h =
      let e : oldest_from j u m ≡ (k, ts) = cc in
      record {
        holds = subst (Holds ((j, (v, u)) ∷ m)) e (oldest_from-Holds j v u m d);
        least = subst (λ r. All (λ x. r.1 ≤ x.1.1) ((j, (v, u)) ∷ m)) e (oldest_from-le j u m);
      }

  oldest-none : (m : List (K × (V × ℕ))) → oldest m ≡ none → length m ≡ 0
  unfolding oldest
  oldest-none [] h = refl
  oldest-none (x ∷ m) h = cc

  -- What `evict_if_needed` does: nothing while the map fits; otherwise it removes one key, at the
  -- least timestamp of all.
  abbrev pub Evicts : LruCache K V → LruCache K V → Type ℓ
  Evicts c c' =
      ((length c.map ≤ c.capacity) × (c' ≡ c))
      ⊎ ((c.capacity < length c.map)
          × ((k : K) × (ts : ℕ) × IsOldest c.map k ts × (c' ≡ record c { map = remove k c.map })))

  -- With no key twice, an eviction leaves a map that fits alone, and takes from any other exactly one
  -- key, one that was used no later than all the others.
  pub evict-Evicts : (c : LruCache K V) → Distinct c.map → Evicts c (evict_if_needed c)
  unfolding evict_if_needed
  evict-Evicts c d =
      if_elim (Evicts c) (leb (length c.map) c.capacity) c _ (λ fits. inl (leb→le _ _ fits, refl))
        (λ over. elim (Option-cases (oldest c.map)) [
          | inl e ↦
              absurd (omega (arith, oldest-none c.map e, leb→gt (length c.map) c.capacity over))
          | inr ((k, ts), found) ↦ rw found (
              inr (
                leb→gt (length c.map) c.capacity over,
                (k, ts, oldest-IsOldest c.map k ts d found, refl),
              ))
        ])
