-- ===== src/Util/ArrayMap.antt =====
-- src/util/arraymap.ts: a map from keys to arrays of values, with a count of the values. The runtime's
-- `sort` is a parameter.
pub mod Count
use hyperhyperspace_core.Prelude.{
  ℕ, ◌+◌, ◌-◌, Bool, true, false, List, [], ◌∷◌, ◌++◌, Option, none, some, Key, if◌then◌else◌, ◌==◌,
  length, ite, same,
}
use hyperhyperspace_core.Js.Map
use hyperhyperspace_core.Js.Map.{JsMap}

pub record ArrayMap (K V : Type 0) : Type 0 where
  pub sorted : Bool
  pub inner : JsMap K (List V)
  pub size : ℕ

unfoldable pub new : {K V : Type 0} → Bool → ArrayMap K V
new sorted = record { sorted = sorted; inner = []; size = 0 }

abbrev pub values_or_empty : {V : Type 0} → Option (List V) → List V
values_or_empty none = []
values_or_empty (some a) = a

module _ {V : Type 0} ⦃val : Key V⦄ where
  -- The array without the first place of the value, which `indexOf` and `splice` take out; none if it
  -- is not there.
  unfoldable pub splice : V → List V → Option (List V)
  splice v [] = none
  splice v (w ∷ a) = elim (splice v a) [
    | none ↦ ite (same w v) (some a) none
    | some b ↦ ite (same w v) (some a) (some (w ∷ b))
  ]

module _ {K V : Type 0} ⦃key : Key K⦄ ⦃val : Key V⦄ where
  unfoldable pub add : (List V → List V) → K → V → ArrayMap K V → ArrayMap K V
  add sort k v m =
      let pushed = values_or_empty (Map.get k m.inner) ++ (v ∷ []) in
      record m {
        inner = Map.set k (if m.sorted then sort pushed else pushed) m.inner;
        size = m.size + 1;
      }

  unfoldable pub delete : K → V → ArrayMap K V → ArrayMap K V × Bool
  unfolding splice
  delete k v m = elim (Map.get k m.inner) [
    | none ↦ (m, false)
    | some a ↦ elim (splice v a) [
      | none ↦ (m, false)
      | some b ↦ (
        record m {
          inner = if length b == 0 then Map.delete k m.inner else Map.set k b m.inner;
          size = m.size - 1;
        },
        true,
      )
    ]
  ]

  unfoldable pub delete_key : K → ArrayMap K V → ArrayMap K V × Bool
  delete_key k m = elim (Map.get k m.inner) [
    | none ↦ (m, false)
    | some a ↦ (record m { inner = Map.delete k m.inner; size = m.size - length a }, true)
  ]

  unfoldable pub get : K → ArrayMap K V → List V
  get k m = values_or_empty (Map.get k m.inner)

  unfoldable pub from_entries : List (K × List V) → JsMap K (List V) → JsMap K (List V)
  from_entries [] inner = inner
  from_entries ((k, a) ∷ es) inner = from_entries es (Map.set k a inner)
