-- ===== src/Util/MultiMap.antt =====
-- src/util/multimap.ts: a map from keys to sets of values, with a count of its pairs. A JavaScript
-- number that counts down is an integer here, as a cloned map counts below zero.
pub mod Laws
pub mod Size
pub mod Clone
use hyperhyperspace_core.Prelude.{
  ℕ, Bool, true, false, List, [], ◌∷◌, Option, none, some, map, Key, if◌then◌else◌, ◌==◌, ℤ, pos,
  ◌+ℤ◌, ◌-ℤ◌,
}
use hyperhyperspace_core.Js.Map
use hyperhyperspace_core.Js.Map.{JsMap}
use hyperhyperspace_core.Js.Set
use hyperhyperspace_core.Js.Set.{JsSet}

pub record MultiMap (K V : Type 0) : Type 0 where
  pub inner : JsMap K (JsSet V)
  pub size : ℤ

unfoldable pub empty : {K V : Type 0} → MultiMap K V
empty = record { inner = []; size = pos 0 }

module _ {V : Type 0} ⦃val : Key V⦄ where
  -- `new Set(s)`: the members, one by one.
  unfoldable pub copy_set : List V → JsSet V → JsSet V
  copy_set [] s = s
  copy_set (v ∷ vs) s = copy_set vs (Set.add v s)

module _ {K V : Type 0} ⦃key : Key K⦄ ⦃val : Key V⦄ where
  unfoldable pub add : K → V → MultiMap K V → MultiMap K V
  add k v m = elim (Map.get k m.inner) [
    | none ↦ record m { inner = Map.set k (Set.add v []) m.inner; size = m.size +ℤ pos 1 }
    | some s ↦
        if Set.has v s
        then m
        else record m { inner = Map.set k (Set.add v s) m.inner; size = m.size +ℤ pos 1 }
  ]

  unfoldable pub add_many : K → List V → MultiMap K V → MultiMap K V
  unfolding add
  add_many k [] m = m
  add_many k (v ∷ vs) m = add_many k vs (add k v m)

  -- The map after the call, and what it returns.
  unfoldable pub delete : K → V → MultiMap K V → MultiMap K V × Bool
  delete k v m = elim (Map.get k m.inner) [
    | none ↦ (m, false)
    | some s ↦
        let rest = Set.delete v s in
        let inner = if Set.size rest == 0 then Map.delete k m.inner else Map.set k rest m.inner in
        if Set.has v s
        then (record m { inner = inner; size = m.size -ℤ pos 1 }, true)
        else (record m { inner = inner }, false)
  ]

  unfoldable pub delete_key : K → MultiMap K V → MultiMap K V × Bool
  delete_key k m = elim (Map.get k m.inner) [
    | none ↦ (m, false)
    | some s ↦ (record { inner = Map.delete k m.inner; size = m.size -ℤ pos (Set.size s) }, true)
  ]

  unfoldable pub get : K → MultiMap K V → JsSet V
  get k m = elim (Map.get k m.inner) [ none ↦ [] | some s ↦ s ]

  unfoldable pub has_key : K → MultiMap K V → Bool
  has_key k m = Map.has k m.inner

  unfoldable pub has : K → V → MultiMap K V → Bool
  has k v m = elim (Map.get k m.inner) [ none ↦ false | some s ↦ Set.has v s ]

  -- `new Map(entries)`: the entries, one by one.
  unfoldable pub copy_entries : List (K × JsSet V) → JsMap K (JsSet V) → JsMap K (JsSet V)
  copy_entries [] m = m
  copy_entries ((k, s) ∷ es) m = copy_entries es (Map.set k (copy_set s []) m)

  unfoldable pub from_entries : List (K × JsSet V) → MultiMap K V
  unfolding copy_set copy_entries
  from_entries es = record { inner = copy_entries es []; size = pos 0 }

  unfoldable pub clone : MultiMap K V → MultiMap K V
  unfolding copy_set copy_entries
  clone m = record { inner = copy_entries m.inner []; size = pos 0 }
