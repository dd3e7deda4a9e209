-- ===== src/Collections/MutableArray/Counts.antt =====
-- How often a value stands in the arrays of src/util/arraymap.ts, and how many insertions of
-- src/data/collections/mutable/MutableArray.ts stand at an ordinal.
use hyperhyperspace_core.Prelude.{
  ℕ, ◌+◌, ◌≡◌, ◌≢◌, refl, ap, ◌∙◌, List, [], ◌∷◌, ◌++◌, Option, none, some, Key, ite, same, arith,
  string_key, if◌then◌else◌, length, Option-cases, inl, inr,
}
use hyperhyperspace_core.Js.Map
use hyperhyperspace_core.Js.Map.{JsMap}
use hyperhyperspace_core.Util.ArrayMap
use hyperhyperspace_core.Util.ArrayMap.{ArrayMap, splice, values_or_empty}
use hyperhyperspace_core.Collections.MutableArray.{ordinal_key}

module _ {V : Type 0} ⦃val : Key V⦄ where
  abbrev pub one_if : V → V → ℕ
  one_if w v = ite (same w v) 1 0

  unfoldable pub occurrences : V → List V → ℕ
  occurrences v [] = 0
  occurrences v (w ∷ a) = one_if w v + occurrences v a

  pub occurrences-nil : (v : V) → occurrences v [] ≡ 0
  unfolding occurrences
  occurrences-nil v = refl

  pub occurrences-snoc :
      (v w : V) (a : List V) → occurrences v (a ++ (w ∷ [])) ≡ occurrences v a + one_if w v
  unfolding occurrences
  occurrences-snoc v w [] = omega arith
  occurrences-snoc v w (x ∷ a) = omega (arith, occurrences-snoc v w a)

  occurrences-empty : (v : V) (a : List V) → length a ≡ 0 → occurrences v a ≡ 0
  unfolding occurrences
  occurrences-empty v [] e = refl
  occurrences-empty v (w ∷ a) e = absurd (omega (arith, e))

  splice-none : (v : V) (a : List V) → splice v a ≡ none → occurrences v a ≡ 0
  unfolding splice occurrences
  splice-none v [] e = refl
  splice-none v (w ∷ a) e = elim (Option-cases (splice v a)) [
    | inl k ↦ ground (arith, k, splice-none v a)
    | inr (b, k) ↦ ground (arith, k)
  ]

  abbrev occurrences_in : V → Option (List V) → ℕ
  occurrences_in u none = 0
  occurrences_in u (some a) = occurrences u a

  splice-some :
      (u v : V) (a b : List V)
      → splice v a ≡ some b
      → occurrences u a ≡ occurrences u b + one_if v u
  unfolding splice occurrences
  splice-some u v [] b e = cc
  splice-some u v (w ∷ a) b e = elim (Option-cases (splice v a)) [
    | inl k ↦ ground (arith, k, ap (occurrences_in u) e, ap (λ z. one_if z u) {x = w} {y = v})
    | inr (c, k) ↦ ground (
      arith,
      k,
      splice-some u v a c k,
      ap (occurrences_in u) e,
      ap (λ z. one_if z u) {x = w} {y = v},
    )
  ]

module _ {K V : Type 0} ⦃key : Key K⦄ ⦃val : Key V⦄ where
  -- The pair of the key and the value is this one.
  abbrev pub one_at : K → V → K → V → ℕ
  one_at j w k v = ite (same j k) (one_if w v) 0

  pub occurrences-add :
      (sort : List V → List V)
      → ((w : V) (a : List V) → occurrences w (sort a) ≡ occurrences w a)
      → (k j : K) (v w : V) (m : ArrayMap K V)
      → occurrences v (ArrayMap.get k (ArrayMap.add sort j w m))
        ≡ occurrences v (ArrayMap.get k m) + one_at j w k v
  unfolding ArrayMap.add ArrayMap.get
  occurrences-add sort keeps k j v w m =
      let pushed = values_or_empty (Map.get j m.inner) ++ (w ∷ []) in
      ground (
        arith,
        Map.get-set k j (if m.sorted then sort pushed else pushed) m.inner,
        keeps v pushed,
        occurrences-snoc v w (values_or_empty (Map.get j m.inner)),
        ap (λ z. occurrences v (values_or_empty (Map.get z m.inner))) {x = j} {y = k},
      )

  occurrences-delete-some :
      (k j : K) (v w : V) (m : ArrayMap K V) (a b : List V)
      → Map.get j m.inner ≡ some a
      → splice w a ≡ some b
      → occurrences v (ArrayMap.get k m)
        ≡ occurrences v (ArrayMap.get k (ArrayMap.delete j w m).0) + one_at j w k v
  unfolding ArrayMap.delete ArrayMap.get
  occurrences-delete-some k j v w m a b e f =
      rw (e, f, ArrayMap.delete)
        (ground (
          arith,
          e,
          Map.get-set k j b m.inner,
          Map.get-delete k j m.inner,
          splice-some v w a b f,
          occurrences-empty v b,
          occurrences-nil v,
          ap (λ z. occurrences v (values_or_empty (Map.get z m.inner))) {x = j} {y = k},
        ))

  -- Deleting a value that is there takes one of it away.
  pub occurrences-delete :
      (k j : K) (v w : V) (m : ArrayMap K V)
      → occurrences w (ArrayMap.get j m) ≢ 0
      → occurrences v (ArrayMap.get k m)
        ≡ occurrences v (ArrayMap.get k (ArrayMap.delete j w m).0) + one_at j w k v
  unfolding ArrayMap.get
  occurrences-delete k j v w m n = elim (Option-cases (Map.get j m.inner)) [
    | inl e ↦ absurd (n (ap (λ o. occurrences w (values_or_empty o)) e ∙ occurrences-nil w))
    | inr (a, e) ↦ elim (Option-cases (splice w a)) [
      | inl f ↦ absurd (n (ap (λ o. occurrences w (values_or_empty o)) e ∙ splice-none w a f))
      | inr (b, f) ↦ occurrences-delete-some k j v w m a b e f
    ]
  ]
