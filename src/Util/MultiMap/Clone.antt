-- ===== src/Util/MultiMap/Clone.antt =====
-- The copies that `clone` of src/util/multimap.ts makes.
use hyperhyperspace_core.Prelude.{
  ℕ, ◌≤◌, ◌≡◌, refl, ◌∙◌, true, List, [], ◌∷◌, Option, none, some, Key, arith, ◌||◌, Option-cases,
  inl, inr, pos, if◌then◌else◌,
}
use hyperhyperspace_core.Js.Map
use hyperhyperspace_core.Js.Map.{JsMap}
use hyperhyperspace_core.Js.Set
use hyperhyperspace_core.Js.Set.{JsSet}
use hyperhyperspace_core.Util.MultiMap.{MultiMap, has, clone, copy_set, copy_entries}
use hyperhyperspace_core.Util.MultiMap.Size.{IsCounted, total, size_of}

zero_miscounts : (n : ℕ) → 1 ≤ n → pos 0 ≡ pos n → ⊥
zero_miscounts n h e = ground arith

module _ {V : Type 0} ⦃val : Key V⦄ where
  pub has-copy_set :
      (w : V) (vs s : List V) → Set.has w (copy_set vs s) ≡ (Set.has w vs || Set.has w s)
  unfolding copy_set Set.has
  has-copy_set w [] s = refl
  has-copy_set w (v ∷ vs) s = ground (arith, has-copy_set w vs (Set.add v s), Set.has-add w v s)

  copy_of : Option (JsSet V) → Option (JsSet V)
  copy_of none = none
  copy_of (some s) = some (copy_set s [])

module _ {K V : Type 0} ⦃key : Key K⦄ ⦃val : Key V⦄ where
  get-copy_entries :
      (j : K) (es m : JsMap K (JsSet V))
      → Map.IsDistinct es
      → Map.get j (copy_entries es m)
        ≡ (if Map.has j es then copy_of (Map.get j es) else Map.get j m)
  unfolding copy_entries copy_of Map.get
  get-copy_entries j [] m d = refl
  get-copy_entries j ((k, s) ∷ es) m d = ground (
    arith,
    get-copy_entries j es (Map.set k (copy_set s []) m) d.1,
    Map.get-set j k (copy_set s []) m,
  )

  -- A clone has the same pairs.
  pub has-clone : (k : K) (v : V) (m : MultiMap K V) → IsCounted m → has k v (clone m) ≡ has k v m
  unfolding has clone copy_of
  has-clone k v m c = elim (Option-cases (Map.get k m.inner)) [
    | inl e ↦
        ground (arith, e, get-copy_entries k m.inner [] c.distinct, Map.get-nil {V = JsSet V} k)
    | inr (s, e) ↦ ground (
      arith,
      e,
      get-copy_entries k m.inner [] c.distinct,
      Map.get-nil {V = JsSet V} k,
      has-copy_set v s [],
      Set.has-nil v,
    )
  ]

  size_of-le-total : (k : K) (m : JsMap K (JsSet V)) → size_of (Map.get k m) ≤ total m
  unfolding Map.get
  size_of-le-total k [] = omega arith
  size_of-le-total k ((j, s) ∷ m) = ground (arith, size_of-le-total k m)

  has-total : (k : K) (v : V) (m : MultiMap K V) → has k v m ≡ true → 1 ≤ total m.inner
  unfolding has Set.has
  has-total k v m h = elim (Option-cases (Map.get k m.inner)) [
    | inl e ↦ ground (arith, e)
    | inr ([], e) ↦ ground (arith, e, Set.has-nil v)
    | inr (x ∷ s, e) ↦ ground (arith, e, size_of-le-total k m.inner)
  ]

  counted-clone : (m : MultiMap K V) → IsCounted (clone m) → pos 0 ≡ pos (total (clone m).inner)
  unfolding clone
  counted-clone m d = d.counted

  -- If the count of a map is right, that of its clone is wrong as soon as the map has a pair.
  pub clone_miscounts :
      (k : K) (v : V) (m : MultiMap K V) → IsCounted m → has k v m ≡ true → ¬ IsCounted (clone m)
  clone_miscounts k v m c h d =
      let some_pair = has-total k v (clone m) (has-clone k v m c ∙ h) in
      zero_miscounts (total (clone m).inner) some_pair (counted-clone m d)
