-- ===== src/Util/LruCache.antt =====
-- src/util/caching.ts: a cache that keeps the entries used last. The runtime's map holds them from
-- the one used longest ago.
pub mod Recency
use hyperhyperspace_core.Prelude.{
  ℕ, ◌+◌, Bool, List, [], ◌∷◌, Option, none, some, Key, if◌then◌else◌, ltb, length,
}
use hyperhyperspace_core.Js.Map
use hyperhyperspace_core.Js.Map.{JsMap}

pub record LruCache (K V : Type 0) : Type 0 where
  pub capacity : ℕ
  pub contents : JsMap K V

unfoldable pub new : {K V : Type 0} → ℕ → LruCache K V
new capacity = record { capacity = capacity; contents = [] }

module _ {K V : Type 0} ⦃key : Key K⦄ where
  unfoldable pub has : K → LruCache K V → Bool
  has k c = Map.has k c.contents

  -- A value that is found moves to the end.
  unfoldable pub get : K → LruCache K V → LruCache K V × Option V
  get k c = elim (Map.get k c.contents) [
    | none ↦ (c, none)
    | some v ↦ (record c { contents = Map.set k v (Map.delete k c.contents) }, some v)
  ]

  unfoldable pub evict : K → LruCache K V → LruCache K V × Bool
  evict k c = (record c { contents = Map.delete k c.contents }, Map.has k c.contents)

  -- `this.evict(this.contents.keys().next().value)`.
  unfoldable pub evict_first : JsMap K V → JsMap K V
  evict_first [] = []
  evict_first ((k, v) ∷ m) = Map.delete k ((k, v) ∷ m)

  -- The test `size > capacity - 1`, where the difference may be -1.
  unfoldable pub set : K → V → LruCache K V → LruCache K V × Bool
  unfolding evict evict_first
  set k v c =
      let (left, was_cached) = evict k c in
      let kept =
        if ltb c.capacity (length left.contents + 1)
        then evict_first left.contents
        else left.contents in
      (record c { contents = Map.set k v kept }, was_cached)

  unfoldable pub flush : LruCache K V → LruCache K V
  flush c = record c { contents = [] }
