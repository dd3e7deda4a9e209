-- ===== src/Util/ArrayMap/Count.antt =====
-- The count of the values of a map of src/util/arraymap.ts.
use hyperhyperspace_core.Prelude.{
  ℕ, suc, ◌+◌, ◌≡◌, List, [], ◌∷◌, ◌++◌, some, Key, arith, ◌==◌, Option-cases, inl, inr, Bool-cases,
  if◌then◌else◌, length, length-append,
}
use hyperhyperspace_core.Js.Map
use hyperhyperspace_core.Js.Map.{JsMap}
use hyperhyperspace_core.Util.ArrayMap.{ArrayMap, add, delete, delete_key, splice, values_or_empty}

abbrev pub total : {K V : Type 0} → JsMap K (List V) → ℕ
total [] = 0
total ((k, a) ∷ m) = length a + total m

module _ {K V : Type 0} ⦃key : Key K⦄ where
  total-set :
      (k : K) (a : List V) (m : JsMap K (List V))
      → total (Map.set k a m) + length (values_or_empty (Map.get k m)) ≡ total m + length a
  unfolding Map.set Map.get
  total-set k a [] = omega arith
  total-set k a ((j, b) ∷ m) = ground (arith, total-set k a m)

  total-delete :
      (k : K) (m : JsMap K (List V))
      → Map.IsDistinct m
      → total (Map.delete k m) + length (values_or_empty (Map.get k m)) ≡ total m
  unfolding Map.delete Map.get
  total-delete k [] d = omega arith
  total-delete k ((j, b) ∷ m) d = ground (arith, total-delete k m d.1, Map.delete_absent k m)

length-splice :
    {V : Type 0} ⦃val : Key V⦄ (v : V) (a b : List V)
    → splice v a ≡ some b
    → length a ≡ suc (length b)
unfolding splice
length-splice v [] b e = cc
length-splice v (w ∷ a) b e = elim (Option-cases (splice v a)) [
  | inl k ↦ ground (arith, k)
  | inr (c, k) ↦ ground (arith, k, length-splice v a c k)
]

module _ {K V : Type 0} ⦃key : Key K⦄ ⦃val : Key V⦄ where
  -- The count is the number of the values, and no key stands twice.
  pub record IsTotal (m : ArrayMap K V) : Type 0 where
    pub distinct : Map.IsDistinct m.inner
    pub counted : m.size ≡ total m.inner

  -- Adding a value keeps the count right, if sorting keeps the length of an array.
  pub add-IsTotal :
      (sort : List V → List V) (k : K) (v : V) (m : ArrayMap K V)
      → ((a : List V) → length (sort a) ≡ length a)
      → IsTotal m
      → IsTotal (add sort k v m)
  unfolding add
  add-IsTotal sort k v m l c =
      let pushed = values_or_empty (Map.get k m.inner) ++ (v ∷ []) in
      record {
        distinct =
            Map.set-IsDistinct k (if m.sorted then sort pushed else pushed) m.inner c.distinct;
        counted = ground (
          arith,
          c.counted,
          l pushed,
          total-set k (if m.sorted then sort pushed else pushed) m.inner,
          length-append (values_or_empty (Map.get k m.inner)) (v ∷ []),
        );
      }

  -- If the size of an array map is the number of its values and no key stands twice, the same
  -- holds after a value is deleted, whether it was there or not.
  pub delete-IsTotal : (k : K) (v : V) (m : ArrayMap K V) → IsTotal m → IsTotal (delete k v m).0
  unfolding delete
  delete-IsTotal k v m c = elim (Option-cases (Map.get k m.inner)) [
    | inl e ↦ rw (e, delete) c
    | inr (a, e) ↦ elim (Option-cases (splice v a)) [
      | inl n ↦ rw (e, n, delete) c
      | inr (b, n) ↦
          rw (e, n, delete)
            (elim (Bool-cases (length b == 0)) [
              | inl z ↦ rw z (record {
                distinct = Map.delete-IsDistinct k m.inner c.distinct;
                counted =
                    ground (
                      arith,
                      c.counted,
                      e,
                      length-splice v a b n,
                      total-delete k m.inner c.distinct,
                    );
              })
              | inr z ↦ rw z (record {
                distinct = Map.set-IsDistinct k b m.inner c.distinct;
                counted =
                    ground (arith, c.counted, e, length-splice v a b n, total-set k b m.inner);
              })
            ])
    ]
  ]

  -- Deleting a key keeps the count right.
  pub delete_key-IsTotal : (k : K) (m : ArrayMap K V) → IsTotal m → IsTotal (delete_key k m).0
  unfolding delete_key
  delete_key-IsTotal k m c = elim (Option-cases (Map.get k m.inner)) [
    | inl e ↦ rw (e, delete_key) c
    | inr (a, e) ↦
        rw (e, delete_key)
          (record {
            distinct = Map.delete-IsDistinct k m.inner c.distinct;
            counted = ground (arith, c.counted, e, total-delete k m.inner c.distinct);
          })
  ]
