-- ===== src/Common/Lru.antt =====
-- `LruCache` (crates/common/src/lru.rs). Each call takes its reading of `Instant::now()`; instants
-- and the ttl are nanoseconds, and `duration_since` is 0 for a later instant, as `-` is.
pub mod Bounds
pub mod Eviction
use kronical.Prelude.{
  ℕ, ◌-◌, max, Bool, true, false, Option, none, some, List, [], ◌∷◌, length, leb, ltb,
  if◌then◌else◌,
}
use kronical.Prelude.Classes.{Eq}
use kronical.Common.Maps.{lookup, insert, remove}

pub record LruCache {ℓ} (K V : Type ℓ) : Type ℓ where
  pub map : List (K × (V × ℕ))
  pub capacity : ℕ
  pub ttl : Option ℕ

abbrev pub expired : Option ℕ → ℕ → ℕ → Bool
expired none now ts = false
expired (some ttl) now ts = ltb ttl (now - ts)

module _ {ℓ} {K V : Type ℓ} where
  unfoldable pub with_capacity : ℕ → LruCache K V
  with_capacity capacity = record { map = []; capacity = max capacity 1; ttl = none }

  unfoldable pub with_capacity_and_ttl : ℕ → ℕ → LruCache K V
  with_capacity_and_ttl capacity ttl = record {
    map = [];
    capacity = max capacity 1;
    ttl = some ttl;
  }

  abbrev pub len : LruCache K V → ℕ
  len c = length c.map

  -- `min_by_key` on the timestamps: the first of the least, starting from a candidate.
  unfoldable pub oldest_from : K → ℕ → List (K × (V × ℕ)) → K × ℕ
  oldest_from k ts [] = (k, ts)
  oldest_from k ts ((j, (v, u)) ∷ m) =
      let later = oldest_from j u m in
      let earlier = oldest_from k ts m in if ltb u ts then later else earlier

  unfoldable pub oldest : List (K × (V × ℕ)) → Option (K × ℕ)
  unfolding oldest_from
  oldest [] = none
  oldest ((k, (v, ts)) ∷ m) = some (oldest_from k ts m)

module _ {ℓ} {K V : Type ℓ} ⦃e : Eq K⦄ where
  unfoldable pub evict_if_needed : LruCache K V → LruCache K V
  unfolding oldest remove
  evict_if_needed c = if leb (length c.map) c.capacity then c else elim (oldest c.map) [
    | none ↦ c
    | some (oldest_key, _) ↦ record c { map = remove oldest_key c.map }
  ]

  unfoldable pub get_cloned : LruCache K V → K → ℕ → LruCache K V × Option V
  unfolding lookup insert remove
  get_cloned c key now = elim (lookup key c.map) [
    | none ↦ (c, none)
    | some (v, ts) ↦
        if expired c.ttl now ts
        then (record c { map = remove key c.map }, none)
        else (record c { map = insert key (v, now) c.map }, some v)
  ]

  unfoldable pub put : LruCache K V → K → V → ℕ → LruCache K V
  unfolding insert evict_if_needed
  put c key value now = evict_if_needed (record c { map = insert key (value, now) c.map })

  -- The first loop: the keys found expired, or `none` once an entry matches.
  unfoldable pub scan : Option ℕ → ℕ → (K → V → Bool) → List (K × (V × ℕ)) → Option (List K)
  scan ttl now predicate [] = some []
  scan ttl now predicate ((key, (value, ts)) ∷ m) =
      let rest = scan ttl now predicate m in
      if expired ttl now ts
      then elim rest [ none ↦ none | some keys ↦ some (key ∷ keys) ]
      else if predicate key value
      then none
      else rest

  unfoldable pub remove_all : List K → List (K × (V × ℕ)) → List (K × (V × ℕ))
  unfolding remove
  remove_all [] m = m
  remove_all (key ∷ keys) m = remove_all keys (remove key m)

  unfoldable pub any_entry_matches : LruCache K V → (K → V → Bool) → ℕ → LruCache K V × Bool
  unfolding scan remove_all
  any_entry_matches c predicate now = elim (scan c.ttl now predicate c.map) [
    | none ↦ (c, true)
    | some expired_keys ↦ (record c { map = remove_all expired_keys c.map }, false)
  ]
