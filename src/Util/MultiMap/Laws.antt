-- ===== src/Util/MultiMap/Laws.antt =====
-- What can be read of a map of src/util/multimap.ts after a change.
use hyperhyperspace_core.Prelude.{
  true, false, [], Key, same, ite, ◌≡◌, refl, arith, Option-cases, inl, inr,
}
use hyperhyperspace_core.Js.Map
use hyperhyperspace_core.Js.Map.{JsMap}
use hyperhyperspace_core.Js.Set
use hyperhyperspace_core.Js.Set.{JsSet}
use hyperhyperspace_core.Util.MultiMap.{MultiMap, empty, add, delete, get, has, delete_key}

module _ {K V : Type 0} ⦃key : Key K⦄ ⦃val : Key V⦄ where
  pub has-empty : (k : K) (v : V) → has k v (empty {K = K} {V = V}) ≡ false
  unfolding has empty Map.get
  has-empty k v = refl

  pub has-get : (k : K) (v : V) (m : MultiMap K V) → has k v m ≡ Set.has v (get k m)
  unfolding has get Set.has
  has-get k v m = ground arith

  pub get-add :
      (j k : K) (v : V) (m : MultiMap K V)
      → get j (add k v m) ≡ ite (same k j) (Set.add v (get k m)) (get j m)
  unfolding get add
  get-add j k v m = elim (Option-cases (Map.get k m.inner)) [
    | inl e ↦ rw (e, add) (ground (arith, e, Map.get-set j k (Set.add v []) m.inner))
    | inr (s, e) ↦
        rw (e, add) (ground (arith, e, Map.get-set j k (Set.add v s) m.inner, Set.add_present v s))
  ]

  pub get-delete :
      (j k : K) (v : V) (m : MultiMap K V)
      → get j (delete k v m).0 ≡ ite (same k j) (Set.delete v (get k m)) (get j m)
  unfolding get delete
  get-delete j k v m = elim (Option-cases (Map.get k m.inner)) [
    | inl e ↦ rw (e, delete) (ground (arith, e, Set.delete-nil v))
    | inr (s, e) ↦
        rw (e, delete)
          (ground (
            arith,
            e,
            Map.get-set j k (Set.delete v s) m.inner,
            Map.get-delete j k m.inner,
            Set.eq-nil_of_size (Set.delete v s),
          ))
  ]

  pub get-delete_key :
      (j k : K) (m : MultiMap K V) → get j (delete_key k m).0 ≡ ite (same k j) [] (get j m)
  unfolding get delete_key
  get-delete_key j k m = ground (arith, Map.get-delete j k m.inner)

  -- Exactly the pair that is added becomes a member, and every other pair stays as it was.
  pub has-add :
      (j k : K) (w v : V) (m : MultiMap K V)
      → has j w (add k v m) ≡ ite (same k j) (ite (same v w) true (has j w m)) (has j w m)
  has-add j k w v m =
      rw (has-get j w (add k v m), has-get j w m, get-add j k v m)
        (ground (arith, Set.has-add w v (get k m)))

  -- Exactly the pair that is deleted stops being a member, and every other pair stays as it was.
  pub has-delete :
      (j k : K) (w v : V) (m : MultiMap K V)
      → has j w (delete k v m).0 ≡ ite (same k j) (ite (same v w) false (has j w m)) (has j w m)
  has-delete j k w v m =
      rw (has-get j w (delete k v m).0, has-get j w m, get-delete j k v m)
        (ground (arith, Set.has-delete w v (get k m)))

  pub delete_returns : (k : K) (v : V) (m : MultiMap K V) → (delete k v m).1 ≡ has k v m
  unfolding has delete
  delete_returns k v m = ground arith
