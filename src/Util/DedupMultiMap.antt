-- ===== src/Util/DedupMultiMap.antt =====
-- src/util/dedupmultimap.ts: a map from keys to sets of values, which are told apart by their hashes.
-- The hash of a value is a parameter.
use hyperhyperspace_core.Prelude.{
  Hash, Bool, false, List, [], ◌∷◌, none, some, Key, if◌then◌else◌, ◌==◌,
}
use hyperhyperspace_core.Js.Map
use hyperhyperspace_core.Js.Map.{JsMap}
use hyperhyperspace_core.Model.HashedSet
use hyperhyperspace_core.Model.HashedSet.{HashedSet}

abbrev pub DedupMultiMap : Type 0 → Type 0 → Type 0
DedupMultiMap K V = JsMap K (HashedSet V)

module _ {K V : Type 0} ⦃key : Key K⦄ where
  -- The set under the key; a new one where there is none.
  abbrev pub set_of : K → DedupMultiMap K V → HashedSet V
  set_of k m = elim (Map.get k m) [ none ↦ [] | some s ↦ s ]

  -- `get`: the values as the members of a new set.
  unfoldable pub get : K → DedupMultiMap K V → List V
  get k m = HashedSet.values (set_of k m)

  unfoldable pub delete_key : K → DedupMultiMap K V → DedupMultiMap K V × Bool
  delete_key k m = (Map.delete k m, Map.has k m)

  unfoldable pub has_key : K → DedupMultiMap K V → Bool
  has_key k m = Map.has k m

  -- `fromEntries`: `new Map(entries)`.
  unfoldable pub from_entries : List (K × HashedSet V) → DedupMultiMap K V → DedupMultiMap K V
  from_entries [] m = m
  from_entries ((k, s) ∷ es) m = from_entries es (Map.set k s m)

module _ {K V : Type 0} ⦃key : Key K⦄ (hash : V → Hash) where
  unfoldable pub add : K → V → DedupMultiMap K V → DedupMultiMap K V
  add k v m = Map.set k (HashedSet.add hash v (set_of k m)) m

  -- The map after the call, and whether the value was there.
  unfoldable pub delete : K → V → DedupMultiMap K V → DedupMultiMap K V × Bool
  delete k v m = elim (Map.get k m) [
    | none ↦ (m, false)
    | some s ↦
        let rest = HashedSet.remove hash v s in
        (
          if HashedSet.size rest == 0 then Map.delete k m else Map.set k rest m,
          HashedSet.has hash v s,
        )
  ]

  unfoldable pub has : K → V → DedupMultiMap K V → Bool
  has k v m = HashedSet.has hash v (set_of k m)

  -- `fromIterableEntries`.
  unfoldable pub from_iterable_entries : List (K × List V) → DedupMultiMap K V → DedupMultiMap K V
  unfolding HashedSet.add_all
  from_iterable_entries [] m = m
  from_iterable_entries ((k, vs) ∷ es) m =
      from_iterable_entries es (Map.set k (HashedSet.add_all hash vs []) m)
