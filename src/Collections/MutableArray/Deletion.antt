-- ===== src/Collections/MutableArray/Deletion.antt =====
-- The indices of an array of src/data/collections/mutable/MutableArray.ts keep in step with the
-- insertions where some are deleted.
use hyperhyperspace_core.Prelude.{
  ◌+◌, ◌≡◌, ◌≢◌, refl, sym, ap, ◌∙◌, Hash, Bool, true, false, List, [], ◌∷◌, none, some, ite, same,
  arith, string_key, Option-cases, Bool-cases, inl, inr, subst, All,
}
use hyperhyperspace_core.Js.Map
use hyperhyperspace_core.Js.Map.{JsMap}
use hyperhyperspace_core.Util.DedupMultiMap
use hyperhyperspace_core.Util.DedupMultiMap.{DedupMultiMap, set_of}
use hyperhyperspace_core.Model.Reference.{HashReference}
use hyperhyperspace_core.Collections.MutableArray.{
  MutableArray, Ordinal, ordinal_key, Op, insert_op, delete_op, reference, refs_of, mutate,
  mutate_delete, drop_ordinal, delete_ref, delete_refs,
}
use hyperhyperspace_core.Collections.MutableArray.Counts.{occurrences, occurrences-delete, one_at}
use hyperhyperspace_core.Collections.MutableArray.Standing.{
  standing, Refs, Ords, All-delete, All-zip, delete_keys, absent_keys, All_get, standing-delete_ord,
  standing-delete,
}
use hyperhyperspace_core.Collections.MutableArray.InStep.{
  TellsApart, IsPlaced, IsInStep, set_of-delete, delete_returns, insert-IsInStep,
}

-- An insertion is a new one.
abbrev pub IsFresh : {T : Type 0} → Op T → MutableArray T → Type 0
IsFresh (insert_op h e p) s = Map.get h s.current_insert_op_ords ≡ none
IsFresh (delete_op x rs) s = Unit

absent_of_has : (k : Hash) (m : JsMap Hash HashReference) → Map.has k m ≡ false → Map.get k m ≡ none
absent_of_has k m e = ground (arith, e)

module _ {T : Type 0} (hash_ref : HashReference → Hash) (apart : TellsApart hash_ref)
    (hash_element : T → Hash) (is_object : T → Bool) (sort_hashes : List Hash → List Hash)
    (sort_ordinals : List Ordinal → List Ordinal) where
  -- An array with the same insertions and indices.
  pub same-IsInStep :
      (s t : MutableArray T)
      → IsInStep hash_ref s
      → ((y : Hash) → refs_of y t ≡ refs_of y s)
      → t.current_insert_op_ords ≡ s.current_insert_op_ords
      → t.elements_per_ordinal ≡ s.elements_per_ordinal
      → t.ordinals_per_element ≡ s.ordinals_per_element
      → IsInStep hash_ref t
  same-IsInStep s t i r d e f = record {
    counted = λ o x. rw (d, e, r x) (i.counted o x);
    mirrored = λ o x. rw (d, f, r x) (i.mirrored o x);
    placed = λ x. rw (d, r x) (i.placed x);
    owned = λ x y k. rw (r x, r y) (i.owned x y k);
    distinct = λ x. rw (r x) (i.distinct x);
  }

  module _ (x : Hash) (r : HashReference) (s : MutableArray T) (i : IsInStep hash_ref s) where
    abbrev key : Hash
    key = hash_ref r

    refs_deleted :
        (y : Hash)
        → set_of y (DedupMultiMap.delete hash_ref x r s.current_insert_op_refs).0
          ≡ ite (same x y) (Map.delete key (refs_of x s)) (refs_of y s)
    refs_deleted y = set_of-delete hash_ref x y r s.current_insert_op_refs

    refs_unchanged :
        Map.has key (refs_of x s) ≡ false
        → (y : Hash)
        → set_of y (DedupMultiMap.delete hash_ref x r s.current_insert_op_refs).0 ≡ refs_of y s
    refs_unchanged n y =
        refs_deleted y
        ∙ ground (
          arith,
          Map.delete_absent key (refs_of x s) (absent_of_has key (refs_of x s) n),
          ap (λ z. refs_of z s) {x = x} {y = y},
        )

    -- The insertion that is deleted, where it stands.
    record Found (p : Ordinal) : Type 0 where
      held : Map.get key (refs_of x s) ≡ some r
      stands : Map.get r.hash s.current_insert_op_ords ≡ some p
      of_insertion : r ≡ reference r.hash

    found : Map.has key (refs_of x s) ≡ true → (p : Ordinal) × Found p
    found h = elim (Option-cases (Map.get key (refs_of x s))) [
      | inl e ↦ absurd (ground (arith, h, e))
      | inr (q, e) ↦
          let c =
            All_get (IsPlaced hash_ref s.current_insert_op_ords) key q (refs_of x s) (i.placed x)
              e in
          let same_ref : r ≡ q = apart r q c.keyed in
          elim (Option-cases (Map.get r.hash s.current_insert_op_ords)) [
            | inl n ↦ absurd (
                ground (
                  arith,
                  n,
                  c.has_ordinal,
                  ap (λ z. Map.get z.hash s.current_insert_op_ords) same_ref,
                ))
            | inr (p, n) ↦ (
              p,
              record {
                held = e ∙ ap some (sym same_ref);
                stands = n;
                of_insertion = subst (λ z. z ≡ reference z.hash) (sym same_ref) c.of_insertion;
              },
            )
          ]
    ]

    module _ (p : Ordinal) (f : Found p) where
      -- No other insertion has its hash.
      others :
          (m : Refs)
          → All (IsPlaced hash_ref s.current_insert_op_ords) m
          → All (λ e. e.0 ≢ key) m
          → All (λ e. e.1.hash ≢ r.hash) m
      others = All-zip (λ e c n q.
          n (c.keyed ∙ ap hash_ref (c.of_insertion ∙ ap reference q ∙ sym f.of_insertion)))

      key_elsewhere : (y : Hash) → (x ≡ y → ⊥) → Map.has key (refs_of y s) ≡ false
      key_elsewhere y n = elim (Bool-cases (Map.has key (refs_of y s))) [
        | inl h ↦ absurd (n (i.owned x y key (ground (arith, f.held)) h))
        | inr h ↦ h
      ]

      -- What is left under an element.
      abbrev left : Hash → Refs
      left y = ite (same x y) (Map.delete key (refs_of x s)) (refs_of y s)

      abbrev left_ords : Ords
      left_ords = Map.delete r.hash s.current_insert_op_ords

      left-IsPlaced : (y : Hash) → All (IsPlaced hash_ref s.current_insert_op_ords) (left y)
      left-IsPlaced y =
          elim (same x y)
            as (λ z.
              All (IsPlaced hash_ref s.current_insert_op_ords)
                (ite z (Map.delete key (refs_of x s)) (refs_of y s))) [
                  | yes q ↦
                      All-delete (IsPlaced hash_ref s.current_insert_op_ords) key (refs_of x s)
                        (i.placed x)
                  | no q ↦ i.placed y
                ]

      keys_left : (y : Hash) → All (λ e. e.0 ≢ key) (left y)
      keys_left y =
          elim (same x y)
            as (λ z. All (λ e. e.0 ≢ key) (ite z (Map.delete key (refs_of x s)) (refs_of y s))) [
              | yes q ↦ delete_keys key (refs_of x s)
              | no q ↦ absent_keys key (refs_of y s) (key_elsewhere y q)
            ]

      hashes_left : (y : Hash) → All (λ e. e.1.hash ≢ r.hash) (left y)
      hashes_left y = others (left y) (left-IsPlaced y) (keys_left y)

      standing-left :
          (o : Ordinal) (y : Hash)
          → standing o (refs_of y s) s.current_insert_op_ords
            ≡ standing o (left y) left_ords + one_at p x o y
      standing-left o y =
          let kept =
            standing-delete_ord o r.hash (left y) s.current_insert_op_ords (hashes_left y) in
          let taken =
            standing-delete o key r (refs_of x s) s.current_insert_op_ords (i.distinct x) f.held in
          elim (same x y)
            as (λ z.
              standing o (refs_of y s) s.current_insert_op_ords
              ≡ standing o (ite z (Map.delete key (refs_of x s)) (refs_of y s))
                  s.current_insert_op_ords
                + ite (same p o) (ite z 1 0) 0) [
                  | yes q ↦
                      ap (λ z. standing o (refs_of z s) s.current_insert_op_ords) (sym q)
                      ∙ taken
                      ∙ ground (arith, f.stands)
                  | no q ↦ ground arith
                ]
          ∙ ap (λ m. m + one_at p x o y) (sym kept)

      after-IsPlaced : (y : Hash) → All (IsPlaced hash_ref left_ords) (left y)
      after-IsPlaced y =
          All-zip
            (λ e c n. record {
              keyed = c.keyed;
              of_insertion = c.of_insertion;
              has_ordinal = ground (
                arith,
                Map.get-delete e.1.hash r.hash s.current_insert_op_ords,
                c.has_ordinal,
                (λ (q : r.hash ≡ e.1.hash). n (sym q)),
              );
            })
            (left y) (left-IsPlaced y) (hashes_left y)

      has-left : (k y : Hash) → Map.has k (left y) ≡ true → Map.has k (refs_of y s) ≡ true
      has-left k y =
          elim (same x y)
            as (λ z.
              Map.has k (ite z (Map.delete key (refs_of x s)) (refs_of y s)) ≡ true
              → Map.has k (refs_of y s) ≡ true) [
                | yes q ↦ λ h.
                    ap (λ z. Map.has k (refs_of z s)) (sym q)
                    ∙ ground (arith, Map.get-delete k key (refs_of x s), h)
                | no q ↦ λ h. h
              ]

      left-IsDistinct : (y : Hash) → Map.IsDistinct (left y)
      left-IsDistinct y =
          elim (same x y)
            as (λ z. Map.IsDistinct (ite z (Map.delete key (refs_of x s)) (refs_of y s))) [
              | yes q ↦ Map.delete-IsDistinct key (refs_of x s) (i.distinct x)
              | no q ↦ i.distinct y
            ]

      stands_once : standing p (refs_of x s) s.current_insert_op_ords ≢ 0
      stands_once n = ground (arith, standing-left p x, n)

      abbrev dropped : MutableArray T
      dropped = drop_ordinal x r.hash (some p) (record s {
        current_insert_op_refs = (DedupMultiMap.delete hash_ref x r s.current_insert_op_refs).0;
      })

      dropped-IsInStep : IsInStep hash_ref dropped
      unfolding drop_ordinal
      dropped-IsInStep = record {
        counted = λ o y. rw (refs_deleted y) (
            ground (
              arith,
              occurrences-delete o p y x s.elements_per_ordinal
                  (λ n. stands_once (sym (i.counted p x) ∙ n)),
              i.counted o y,
              standing-left o y,
            ));
        mirrored = λ o y. rw (refs_deleted y) (
            ground (
              arith,
              occurrences-delete y x o p s.ordinals_per_element
                  (λ n. stands_once (sym (i.mirrored p x) ∙ n)),
              i.mirrored o y,
              standing-left o y,
            ));
        placed = λ y. rw (refs_deleted y) (after-IsPlaced y);
        owned = λ a b k.
            rw (refs_deleted a, refs_deleted b)
              (λ u v. i.owned a b k (has-left k a u) (has-left k b v));
        distinct = λ y. rw (refs_deleted y) (left-IsDistinct y);
      }

    pub delete_ref-IsInStep : IsInStep hash_ref (delete_ref hash_ref x r s)
    unfolding delete_ref
    delete_ref-IsInStep = elim (Bool-cases (Map.has key (refs_of x s))) [
      | inl h ↦
          let (p, f) = found h in
          rw (delete_returns hash_ref x r s.current_insert_op_refs, h, f.stands)
            (dropped-IsInStep p f)
      | inr h ↦
          rw (delete_returns hash_ref x r s.current_insert_op_refs, h)
            (same-IsInStep s
              (record s {
                current_insert_op_refs =
                    (DedupMultiMap.delete hash_ref x r s.current_insert_op_refs).0;
              })
              i (refs_unchanged h) refl refl refl)
    ]

  delete_refs-IsInStep :
      (x : Hash) (rs : List HashReference) (s : MutableArray T)
      → IsInStep hash_ref s
      → IsInStep hash_ref (delete_refs hash_ref x rs s)
  unfolding delete_refs
  delete_refs-IsInStep x [] s i = i
  delete_refs-IsInStep x (r ∷ rs) s i = delete_refs-IsInStep x rs _ (delete_ref-IsInStep x r s i)

  module _
      (keeps_hashes : (x : Hash) (a : List Hash) → occurrences x (sort_hashes a) ≡ occurrences x a)
      (keeps_ordinals : (o : Ordinal) (a : List Ordinal)
        → occurrences o (sort_ordinals a) ≡ occurrences o a) where
    -- If the hash of a reference tells references apart and the sorts keep how often a value
    -- occurs, then an operation on an array, new if it is an insertion, keeps the two indices in
    -- step with the insertions that were not deleted: each has an element at an ordinal as often
    -- as insertions of it stand there; each of these has an ordinal, is under its own hash once,
    -- and under one element.
    pub mutate-IsInStep :
        (op : Op T) (s : MutableArray T)
        → IsFresh op s
        → IsInStep hash_ref s
        → IsInStep hash_ref
            (mutate hash_element hash_ref is_object sort_hashes sort_ordinals op s).0
    unfolding mutate mutate_delete
    mutate-IsInStep (insert_op h e p) s n i =
        insert-IsInStep hash_ref sort_hashes sort_ordinals keeps_hashes keeps_ordinals hash_element
          is_object apart h e p s i n
    mutate-IsInStep (delete_op x rs) s n i =
        let t = delete_refs hash_ref x rs s in
        same-IsInStep t _ (delete_refs-IsInStep x rs s i) (λ y. refl) refl refl refl
