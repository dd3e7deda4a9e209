-- ===== src/Util/LruCache/Recency.antt =====
-- What a cache of src/util/caching.ts keeps.
use hyperhyperspace_core.Prelude.{
  ◌+◌, ◌≤◌, ◌<◌, ◌≡◌, refl, [], ◌∷◌, Option, none, some, Key, same, ite, arith, length,
  Option-cases, inl, inr, if◌then◌else◌, ltb,
}
use hyperhyperspace_core.Js.Map
use hyperhyperspace_core.Js.Map.{JsMap}
use hyperhyperspace_core.Util.LruCache.{LruCache, get, evict, evict_first, set}

module _ {K V : Type 0} ⦃key : Key K⦄ where
  pub record IsBounded (c : LruCache K V) : Type 0 where
    pub positive : 0 < c.capacity
    pub bounded : length c.contents ≤ c.capacity
    pub distinct : Map.IsDistinct c.contents

  -- The key used longest ago.
  pub oldest : JsMap K V → Option K
  oldest [] = none
  oldest ((k, v) ∷ m) = some k

  -- What `set` drops besides the key itself: the oldest of the others, if they fill the cache.
  pub victim : K → LruCache K V → Option K
  unfolding oldest
  victim k c =
      let left = Map.delete k c.contents in
      if ltb c.capacity (length left + 1) then oldest left else none

  get-evict_first :
      (j : K) (m : JsMap K V)
      → Map.get j (evict_first m)
        ≡ (elim (oldest m) [ none ↦ Map.get j m | some k ↦ ite (same k j) none (Map.get j m) ])
  unfolding evict_first oldest
  get-evict_first j [] = refl
  get-evict_first j ((k, v) ∷ m) = Map.get-delete j k ((k, v) ∷ m)

  length-evict_first :
      (m : JsMap K V) → Map.IsDistinct m → 0 < length m → length (evict_first m) + 1 ≡ length m
  unfolding evict_first Map.get
  length-evict_first [] d h = absurd (omega arith)
  length-evict_first ((k, v) ∷ m) d h = ground (arith, Map.length-delete k ((k, v) ∷ m) d)

  evict_first-IsDistinct : (m : JsMap K V) → Map.IsDistinct m → Map.IsDistinct (evict_first m)
  unfolding evict_first
  evict_first-IsDistinct [] d = tt
  evict_first-IsDistinct ((k, v) ∷ m) d = Map.delete-IsDistinct k ((k, v) ∷ m) d

  length-delete-le : (k : K) (m : JsMap K V) → Map.IsDistinct m → length (Map.delete k m) ≤ length m
  length-delete-le k m d = ground (arith, Map.length-delete k m d)

  -- If a cache of positive capacity is within its capacity and has no key twice, the same holds
  -- after set.
  pub set-IsBounded : (k : K) (v : V) (c : LruCache K V) → IsBounded c → IsBounded (set k v c).0
  unfolding set evict
  set-IsBounded k v c b =
      let left = Map.delete k c.contents in
      let d = Map.delete-IsDistinct k c.contents b.distinct in
      record {
        positive = b.positive;
        bounded = ground (
          arith,
          length-delete-le k c.contents b.distinct,
          length-evict_first left d,
          Map.length-set k v left,
          Map.length-set k v (evict_first left),
        );
        distinct = ground (
          arith,
          Map.set-IsDistinct k v left d,
          Map.set-IsDistinct k v (evict_first left) (evict_first-IsDistinct left d),
        );
      }

  -- `get` keeps the cache within its capacity, returns the stored value, and changes what no key
  -- has.
  pub get_lem :
      (k : K) (c : LruCache K V)
      → IsBounded c
      → IsBounded (get k c).0
        × ((get k c).1 ≡ Map.get k c.contents)
        × ((j : K) → Map.get j (get k c).0.contents ≡ Map.get j c.contents)
  unfolding get
  get_lem k c b = elim (Option-cases (Map.get k c.contents)) [
    | inl e ↦ rw (e, get) (b, refl, λ j. refl)
    | inr (v, e) ↦
        let left = Map.delete k c.contents in
        let d = Map.delete-IsDistinct k c.contents b.distinct in
        rw (e, get)
          (
            record {
              positive = b.positive;
              bounded = ground (
                arith,
                e,
                b.bounded,
                Map.length-delete k c.contents b.distinct,
                Map.length-set k v left,
                Map.get-delete k k c.contents,
              );
              distinct = Map.set-IsDistinct k v left d;
            },
            refl,
            λ j. ground (arith, e, Map.get-set j k v left, Map.get-delete j k c.contents),
          )
  ]

  -- After set the key has the value, the entry it drops is the one used longest ago among the
  -- others if they fill the cache, and every other key is as it was.
  pub get-set :
      (k : K) (v : V) (c : LruCache K V) (j : K)
      → Map.get j (set k v c).0.contents
        ≡ ite (same k j) (some v) (elim (victim k c) [
          | none ↦ Map.get j c.contents
          | some i ↦ ite (same i j) none (Map.get j c.contents)
        ])
  unfolding set evict victim
  get-set k v c j = ground (
    arith,
    Map.get-delete j k c.contents,
    get-evict_first j (Map.delete k c.contents),
    Map.get-set j k v (Map.delete k c.contents),
    Map.get-set j k v (evict_first (Map.delete k c.contents)),
  )
