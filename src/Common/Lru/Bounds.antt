-- ===== src/Common/Lru/Bounds.antt =====
-- The size of the cache, and what a read finds after a write.
use kronical.Prelude.{
  ℕ, ◌≤◌, ◌<◌, ◌≡◌, refl, false, Option, none, some, List, [], ◌∷◌, length, arith, if◌then◌else◌,
  Bool-cases, Option-cases, inl, inr, All,
}
use mathlib.Core.Path.{subst}
use kronical.Prelude.Classes.{Eq}
use kronical.Common.Maps.{
  lookup, insert, lookup-insert, lookup-remove, length-insert-le, length-remove-lt, Distinct,
  insert-Distinct, remove-Distinct,
}
use kronical.Common.Lru.{LruCache, expired, get_cloned, put}
use kronical.Common.Lru.Eviction.{IsOldest, Evicts, evict-Evicts}

module _ {ℓ} {V : Type ℓ} where
  -- What a read leaves of the entry: nothing once it expired, else the value, used now.
  abbrev pub after_read : Option ℕ → ℕ → Option (V × ℕ) → Option (V × ℕ)
  after_read ttl now none = none
  after_read ttl now (some (v, ts)) = if expired ttl now ts then none else some (v, now)

  abbrev pub value_of : Option (V × ℕ) → Option V
  value_of none = none
  value_of (some (v, ts)) = some v

module _ {ℓ} {K V : Type ℓ} ⦃e : Eq K⦄ where
  -- No key twice, and no more entries than the capacity, which is at least 1.
  pub record IsValid (c : LruCache K V) : Type ℓ where
    pub distinct : Distinct c.map
    pub bounded : length c.map ≤ c.capacity
    pub positive : 1 ≤ c.capacity

  put_cases :
      (c : LruCache K V) (key : K) (value : V) (now : ℕ)
      → IsValid c
      → Evicts (record c { map = insert key (value, now) c.map }) (put c key value now)
  unfolding put
  put_cases c key value now v =
      evict-Evicts (record c { map = insert key (value, now) c.map })
        (insert-Distinct key (value, now) c.map v.distinct)

  -- A write to a valid cache leaves it valid: never a key twice, never more entries than the
  -- capacity.
  pub put-IsValid :
      (c : LruCache K V) (key : K) (value : V) (now : ℕ) → IsValid c → IsValid (put c key value now)
  put-IsValid c key value now v = elim (put_cases c key value now v) [
    | inl (fits, same) ↦ rw same (record {
      distinct = insert-Distinct key (value, now) c.map v.distinct;
      bounded = fits;
      positive = v.positive;
    })
    | inr (over, (k, ts, old, same)) ↦
        let m = insert key (value, now) c.map in
        let less = length-remove-lt k m (old.holds.0, ts) old.holds.1 in
        rw same (record {
          distinct = remove-Distinct k m (insert-Distinct key (value, now) c.map v.distinct);
          bounded = omega (arith, less, length-insert-le key (value, now) c.map, v.bounded);
          positive = v.positive;
        })
  ]

  no_older :
      (m : List (K × (V × ℕ))) (now : ℕ)
      → All (λ x. x.1.1 < now) m
      → All (λ x. now ≤ x.1.1) m
      → length m ≡ 0
  no_older [] now a b = refl
  no_older (x ∷ m) now a b = absurd (omega (arith, a.0, b.0))

  -- Where all else is older, the entry just written is the oldest only if it is alone.
  newest_alone :
      (key : K) (value : V) (now : ℕ) (m : List (K × (V × ℕ)))
      → All (λ x. x.1.1 < now) m
      → All (λ x. now ≤ x.1.1) (insert key (value, now) m)
      → length (insert key (value, now) m) ≤ 1
  unfolding insert
  newest_alone key value now [] a b = omega arith
  newest_alone key value now ((j, w) ∷ m) a b = elim (Bool-cases (e.beq j key)) [
    | inl same ↦
        let b' : All (λ x. now ≤ x.1.1) ((j, (value, now)) ∷ m) = rw same at b in
        rw same (omega (arith, no_older m now a.1 b'.1))
    | inr apart ↦
        let b' : All (λ x. now ≤ x.1.1) ((j, w) ∷ insert key (value, now) m) = rw apart at b in
        absurd (omega (arith, a.0, b'.0))
  ]

  written :
      (key : K) (value : V) (now : ℕ) (m : List (K × (V × ℕ)))
      → lookup key (insert key (value, now) m) ≡ some (value, now)
  written key value now m =
      rw (lookup-insert key key (value, now) m) (rw ((e.beq_iff key key).1 refl))

  victim_apart :
      (key : K) (value : V) (now : ℕ) (c : LruCache K V) (k : K) (ts : ℕ)
      → IsValid c
      → All (λ x. x.1.1 < now) c.map
      → c.capacity < length (insert key (value, now) c.map)
      → IsOldest (insert key (value, now) c.map) k ts
      → e.beq k key ≡ false
  victim_apart key value now c k ts v older over old = elim (Bool-cases (e.beq k key)) [
    | inl same ↦
        let m = insert key (value, now) c.map in
        let k≡key = (e.beq_iff k key).0 same in
        let found : lookup key m ≡ some (old.holds.0, ts) =
          subst (λ q. lookup q m ≡ some (old.holds.0, ts)) k≡key old.holds.1 in
        let ts≡now : ts ≡ now = cc (written key value now c.map) in
        let alone =
          newest_alone key value now c.map older
            (subst (λ t. All (λ x. t ≤ x.1.1) m) ts≡now old.least) in
        absurd (omega (arith, alone, over, v.positive))
    | inr apart ↦ apart
  ]

  put-ttl :
      (c : LruCache K V) (key : K) (value : V) (now : ℕ)
      → IsValid c
      → (put c key value now).ttl ≡ c.ttl
  put-ttl c key value now v = elim (put_cases c key value now v) [
    | inl (fits, same) ↦ rw same
    | inr (over, (k, ts, old, same)) ↦ rw same
  ]

  -- What is written to a valid cache whose entries were all used earlier is there afterwards, used
  -- at that time: what the write may push out is another key.
  pub lookup-put_self :
      (c : LruCache K V) (key : K) (value : V) (now : ℕ)
      → IsValid c
      → All (λ x. x.1.1 < now) c.map
      → lookup key (put c key value now).map ≡ some (value, now)
  lookup-put_self c key value now v older = elim (put_cases c key value now v) [
    | inl (fits, same) ↦ rw same (written key value now c.map)
    | inr (over, (k, ts, old, same)) ↦
        let m = insert key (value, now) c.map in
        rw same (
          rw (lookup-remove k key m)
            (rw (victim_apart key value now c k ts v older over old) (written key value now c.map)))
  ]

  -- After a write to a valid cache whose entries were all used earlier, a read of the key at a
  -- time when the entry has not expired returns the value.
  pub get_cloned-put_self :
      (c : LruCache K V) (key : K) (value : V) (now later : ℕ)
      → IsValid c
      → All (λ x. x.1.1 < now) c.map
      → expired c.ttl later now ≡ false
      → (get_cloned (put c key value now) key later).1 ≡ some value
  unfolding get_cloned
  get_cloned-put_self c key value now later v older fresh =
      ground (arith, lookup-put_self c key value now v older, put-ttl c key value now v)

  -- A read returns the value that it leaves in the cache, if any: an expired entry is removed and
  -- not returned, a live one is refreshed, and no other key is touched.
  pub get_cloned-after_read :
      (c : LruCache K V) (key q : K) (now : ℕ)
      → let (c', found) = get_cloned c key now in
        let left = after_read c.ttl now (lookup key c.map) in
        (found ≡ value_of left) × (lookup q c'.map ≡ (if e.beq key q then left else lookup q c.map))
  unfolding get_cloned
  get_cloned-after_read c key q now = elim (Option-cases (lookup key c.map)) [
    | inl miss ↦ ground (arith, e.beq_iff key q)
    | inr ((v, ts), hit) ↦
        ground
          (arith, e.beq_iff key q, lookup-insert key q (v, now) c.map, lookup-remove key q c.map)
  ]
