-- ===== src/Collections/MutableArray/InStep.antt =====
-- The indices of an array of src/data/collections/mutable/MutableArray.ts keep in step with the
-- insertions that were not deleted.
use hyperhyperspace_core.Prelude.{
  ◌+◌, ◌≡◌, refl, sym, ap, ◌∙◌, Hash, Bool, true, List, [], ◌∷◌, ◌++◌, none, ite, same, arith,
  string_key, Option-cases, inl, inr, subst, All,
}
use hyperhyperspace_core.Js.Map
use hyperhyperspace_core.Js.Map.{JsMap}
use hyperhyperspace_core.Util.ArrayMap
use hyperhyperspace_core.Util.DedupMultiMap
use hyperhyperspace_core.Util.DedupMultiMap.{DedupMultiMap, set_of}
use hyperhyperspace_core.Model.HashedSet
use hyperhyperspace_core.Model.Reference.{HashReference}
use hyperhyperspace_core.Collections.MutableArray.{
  MutableArray, Ordinal, ordinal_key, reference, refs_of, new_array, mutate_insert,
}
use hyperhyperspace_core.Collections.MutableArray.Counts.{occurrences, occurrences-add, one_at}
use hyperhyperspace_core.Collections.MutableArray.Standing.{
  standing, All-snoc, All-map, All_get, standing-snoc, standing-set,
}

-- The hash of a reference tells references apart.
abbrev pub TellsApart : (HashReference → Hash) → Type 0
TellsApart hash_ref = (a b : HashReference) → hash_ref a ≡ hash_ref b → a ≡ b

delete-nil : (k : Hash) → Map.delete {V = HashReference} k [] ≡ []
unfolding Map.delete
delete-nil k = refl

module _ (hash_ref : HashReference → Hash) where
  -- An insertion that stands: it is under its hash, and has an ordinal.
  pub record IsPlaced (ords : JsMap Hash Ordinal) (e : Hash × HashReference) : Type 0 where
    pub keyed : e.0 ≡ hash_ref e.1
    pub of_insertion : e.1 ≡ reference e.1.hash
    pub has_ordinal : Map.has e.1.hash ords ≡ true

  pub set_of-add :
      (x y : Hash) (r : HashReference) (m : DedupMultiMap Hash HashReference)
      → set_of y (DedupMultiMap.add hash_ref x r m)
        ≡ ite (same x y) (Map.set (hash_ref r) r (set_of x m)) (set_of y m)
  unfolding DedupMultiMap.add HashedSet.add
  set_of-add x y r m = ground (arith, Map.get-set y x (Map.set (hash_ref r) r (set_of x m)) m)

  pub set_of-delete :
      (x y : Hash) (r : HashReference) (m : DedupMultiMap Hash HashReference)
      → set_of y (DedupMultiMap.delete hash_ref x r m).0
        ≡ ite (same x y) (Map.delete (hash_ref r) (set_of x m)) (set_of y m)
  unfolding DedupMultiMap.delete HashedSet.remove HashedSet.remove_by_hash HashedSet.size
  set_of-delete x y r m = elim (Option-cases (Map.get x m)) [
    | inl e ↦
        rw (e, DedupMultiMap.delete)
          (ground (arith, e, delete-nil (hash_ref r), ap (λ z. set_of z m) {x = x} {y = y}))
    | inr (s, e) ↦
        rw (e, DedupMultiMap.delete)
          (ground (
            arith,
            e,
            Map.get-set y x (Map.delete (hash_ref r) s) m,
            Map.get-delete y x m,
            HashedSet.eq-nil_of_size (Map.delete (hash_ref r) s),
            ap (λ z. set_of z m) {x = x} {y = y},
          ))
  ]

  pub delete_returns :
      (x : Hash) (r : HashReference) (m : DedupMultiMap Hash HashReference)
      → (DedupMultiMap.delete hash_ref x r m).1 ≡ Map.has (hash_ref r) (set_of x m)
  unfolding DedupMultiMap.delete HashedSet.has HashedSet.has_by_hash Map.get
  delete_returns x r m = ground arith

module _ {T : Type 0} (hash_ref : HashReference → Hash) where
  -- Each index has an element at an ordinal as often as insertions of it stand there.
  pub record IsInStep (s : MutableArray T) : Type 0 where
    pub counted :
        (o : Ordinal) (x : Hash)
        → occurrences x (ArrayMap.get o s.elements_per_ordinal)
          ≡ standing o (refs_of x s) s.current_insert_op_ords
    pub mirrored :
        (o : Ordinal) (x : Hash)
        → occurrences o (ArrayMap.get x s.ordinals_per_element)
          ≡ standing o (refs_of x s) s.current_insert_op_ords
    pub placed : (x : Hash) → All (IsPlaced hash_ref s.current_insert_op_ords) (refs_of x s)
    pub owned :
        (x y k : Hash) → Map.has k (refs_of x s) ≡ true → Map.has k (refs_of y s) ≡ true → x ≡ y
    pub distinct : (x : Hash) → Map.IsDistinct (refs_of x s)

  pub new-IsInStep : (duplicates : Bool) → IsInStep (new_array duplicates)
  unfolding new_array ArrayMap.new ArrayMap.get Map.get standing occurrences
  new-IsInStep duplicates = record {
    counted = λ o x. refl;
    mirrored = λ o x. refl;
    placed = λ x. tt;
    owned = λ x y k h. cc;
    distinct = λ x. tt;
  }

  -- No insertion with this hash stands.
  pub fresh_key :
      (h : Hash) (s : MutableArray T)
      → TellsApart hash_ref
      → IsInStep s
      → Map.get h s.current_insert_op_ords ≡ none
      → (y : Hash) → Map.get (hash_ref (reference h)) (refs_of y s) ≡ none
  fresh_key h s apart i n y = elim (Option-cases (Map.get (hash_ref (reference h)) (refs_of y s))) [
    | inl e ↦ e
    | inr (r, e) ↦
        let p =
          All_get (IsPlaced hash_ref s.current_insert_op_ords) (hash_ref (reference h)) r
            (refs_of y s) (i.placed y) e in
        let q = apart (reference h) r p.keyed in
        absurd
          (ground (arith, n, p.has_ordinal, ap (λ z. Map.get z.hash s.current_insert_op_ords) q))
  ]

  module _ (sort_hashes : List Hash → List Hash) (sort_ordinals : List Ordinal → List Ordinal)
      (keeps_hashes : (x : Hash) (a : List Hash) → occurrences x (sort_hashes a) ≡ occurrences x a)
      (keeps_ordinals : (o : Ordinal) (a : List Ordinal)
        → occurrences o (sort_ordinals a) ≡ occurrences o a)
      (hash_element : T → Hash) (is_object : T → Bool) (apart : TellsApart hash_ref) where
    module _ (h : Hash) (e : T) (p : Ordinal) (s : MutableArray T) (i : IsInStep s)
        (n : Map.get h s.current_insert_op_ords ≡ none) where
      abbrev inserted : MutableArray T
      inserted = (mutate_insert hash_element hash_ref is_object sort_hashes sort_ordinals h e p s).0

      refs_inserted :
          (y : Hash)
          → refs_of y inserted
            ≡ ite
                (same (hash_element e) y)
                (refs_of y s ++ ((hash_ref (reference h), reference h) ∷ []))
                (refs_of y s)
      unfolding mutate_insert
      refs_inserted y =
          let x = hash_element e in
          set_of-add hash_ref x y (reference h) s.current_insert_op_refs
          ∙ ground (
            arith,
            Map.set_absent (hash_ref (reference h)) (reference h) (refs_of x s)
                (fresh_key h s apart i n x),
            ap (λ z. refs_of z s ++ ((hash_ref (reference h), reference h) ∷ [])) {x = x} {y = y},
          )

      standing-inserted :
          (o : Ordinal) (y : Hash)
          → standing o (refs_of y inserted) inserted.current_insert_op_ords
            ≡ standing o (refs_of y s) s.current_insert_op_ords + one_at p (hash_element e) o y
      unfolding mutate_insert
      standing-inserted o y =
          let ords = Map.set h p s.current_insert_op_ords in
          let kept =
            standing-set o p h (refs_of y s) s.current_insert_op_ords n
              (All-map (λ e q. q.has_ordinal) (refs_of y s) (i.placed y)) in
          ap (λ m. standing o m ords) (refs_inserted y)
          ∙ elim (same (hash_element e) y)
              as (λ z.
                standing o
                  (ite z (refs_of y s ++ ((hash_ref (reference h), reference h) ∷ []))
                    (refs_of y s))
                  ords
                ≡ standing o (refs_of y s) s.current_insert_op_ords
                  + ite (same p o) (ite z 1 0) 0) [
                    | yes q ↦ ground (
                      arith,
                      standing-snoc o (hash_ref (reference h)) (reference h) (refs_of y s) ords,
                      kept,
                      Map.get-set h h p s.current_insert_op_ords,
                    )
                    | no q ↦ ground (arith, kept)
                  ]

      still-IsPlaced :
          (y : Hash) → All (IsPlaced hash_ref inserted.current_insert_op_ords) (refs_of y s)
      unfolding mutate_insert
      still-IsPlaced y =
          All-map
            (λ e q. record {
              keyed = q.keyed;
              of_insertion = q.of_insertion;
              has_ordinal =
                  ground (arith, Map.get-set e.1.hash h p s.current_insert_op_ords, q.has_ordinal);
            })
            (refs_of y s) (i.placed y)

      inserted-IsPlaced :
          (y : Hash) → All (IsPlaced hash_ref inserted.current_insert_op_ords) (refs_of y inserted)
      unfolding mutate_insert
      inserted-IsPlaced y =
          subst (All (IsPlaced hash_ref inserted.current_insert_op_ords)) (sym (refs_inserted y))
            (elim (same (hash_element e) y)
              as (λ z. All (IsPlaced hash_ref (Map.set h p s.current_insert_op_ords)) (
                ite z (refs_of y s ++ ((hash_ref (reference h), reference h) ∷ []))
                  (refs_of y s))) [
                    | yes q ↦
                        All-snoc (IsPlaced hash_ref (Map.set h p s.current_insert_op_ords))
                          (hash_ref (reference h)) (reference h) (refs_of y s)
                          (record {
                            keyed = refl;
                            of_insertion = refl;
                            has_ordinal =
                                ground (arith, Map.get-set h h p s.current_insert_op_ords);
                          })
                          (still-IsPlaced y)
                    | no q ↦ still-IsPlaced y
                  ])

      has-inserted :
          (k y : Hash)
          → Map.has k (refs_of y inserted)
            ≡ ite
                (same (hash_element e) y)
                (ite
                  (same (hash_ref (reference h)) k)
                  true
                  (Map.has k (refs_of (hash_element e) s)))
                (Map.has k (refs_of y s))
      unfolding mutate_insert
      has-inserted k y = ground (
        arith,
        ap (Map.get k)
            (set_of-add hash_ref (hash_element e) y (reference h) s.current_insert_op_refs),
        Map.get-set k (hash_ref (reference h)) (reference h) (refs_of (hash_element e) s),
      )

      owned_inserted :
          (a b k : Hash)
          → Map.has k (refs_of a inserted) ≡ true
          → Map.has k (refs_of b inserted) ≡ true
          → a ≡ b
      owned_inserted a b k u v = ground (
        arith,
        has-inserted k a,
        has-inserted k b,
        u,
        v,
        i.owned (hash_element e) b k,
        i.owned a (hash_element e) k,
        i.owned a b k,
        fresh_key h s apart i n a,
        fresh_key h s apart i n b,
        ap (λ z. Map.get z (refs_of a s)) {x = hash_ref (reference h)} {y = k},
        ap (λ z. Map.get z (refs_of b s)) {x = hash_ref (reference h)} {y = k},
      )

      inserted-IsDistinct : (y : Hash) → Map.IsDistinct (refs_of y inserted)
      unfolding mutate_insert
      inserted-IsDistinct y =
          subst Map.IsDistinct
            (sym (set_of-add hash_ref (hash_element e) y (reference h) s.current_insert_op_refs))
            (elim (same (hash_element e) y)
              as (λ z. Map.IsDistinct (
                ite z (Map.set (hash_ref (reference h)) (reference h) (refs_of (hash_element e) s))
                  (refs_of y s))) [
                    | yes q ↦
                        Map.set-IsDistinct (hash_ref (reference h)) (reference h)
                          (refs_of (hash_element e) s) (i.distinct (hash_element e))
                    | no q ↦ i.distinct y
                  ])

      pub insert-IsInStep : IsInStep inserted
      unfolding mutate_insert
      insert-IsInStep = record {
        counted = λ o y. ground (
          arith,
          occurrences-add sort_hashes keeps_hashes o p y (hash_element e) s.elements_per_ordinal,
          i.counted o y,
          standing-inserted o y,
        );
        mirrored = λ o y. ground (
          arith,
          occurrences-add sort_ordinals keeps_ordinals y (hash_element e) o p
              s.ordinals_per_element,
          i.mirrored o y,
          standing-inserted o y,
        );
        placed = inserted-IsPlaced;
        owned = owned_inserted;
        distinct = inserted-IsDistinct;
      }
