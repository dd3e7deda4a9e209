-- ===== src/Collections/MutableArray/Removed.antt =====
-- Which insertions the deletions by index of src/data/collections/mutable/MutableArray.ts delete.
use hyperhyperspace_core.Prelude.{
  ℕ, zero, suc, ◌≡◌, refl, sym, ap, ◌∙◌, Hash, Bool, true, false, List, [], ◌∷◌, none, some, not,
  ◌&&◌, if◌then◌else◌, ◌==◌, same, ite, ltb, length, get_elem?, string_key, arith, Option-cases,
  Bool-cases, inl, inr, subst, All,
}
use hyperhyperspace_core.Js.Map
use hyperhyperspace_core.Js.Map.{JsMap}
use hyperhyperspace_core.Js.Set
use hyperhyperspace_core.Util.DedupMultiMap
use hyperhyperspace_core.Model.HashedSet
use hyperhyperspace_core.Model.Reference.{HashReference}
use hyperhyperspace_core.Collections.MutableArray.{
  MutableArray, Ordinal, ordinal_key, refs_of, mutate, mutate_delete, delete_ref, delete_refs,
  drop_ordinal, rebuild,
}
use hyperhyperspace_core.Collections.MutableArray.Standing.{All-delete, All-map}
use hyperhyperspace_core.Collections.MutableArray.InStep.{IsInStep, set_of-delete}
use hyperhyperspace_core.Collections.MutableArray.Held.{holds, names, holds-delete_refs}
use hyperhyperspace_core.Collections.MutableArray.Kept.{rebuild-IsKept}
use hyperhyperspace_core.Collections.MutableArray.Slice.{
  slice, slice-some, slice-none, slice-zero, in_range, out_of_range,
}
use hyperhyperspace_core.Collections.MutableArray.Edits.{
  delete, delete_shown, delete_turns, delete_many_at,
}

module _ (hash_ref : HashReference → Hash) where
  abbrev pub IsKeyed : Hash × HashReference → Type 0
  IsKeyed e = e.0 ≡ hash_ref e.1

  pub names-values :
      (k : Hash) (m : JsMap Hash HashReference)
      → All IsKeyed m
      → names hash_ref k (HashedSet.values m) ≡ Map.has k m
  unfolding HashedSet.values Map.get
  names-values k [] a = refl
  names-values k ((g, r) ∷ m) a =
      ground (arith, a.0, names-values k m a.1, ap (λ z. ite (same z k) true false) a.0)

  module _ {T : Type 0} (hash_element : T → Hash) (is_object : T → Bool)
      (sort_hashes : List Hash → List Hash) (sort_ordinals : List Ordinal → List Ordinal) where
    AreKeyed : MutableArray T → Type 0
    AreKeyed s = (x : Hash) → All IsKeyed (refs_of x s)

    refs_of-delete_ref :
        (x y : Hash) (r : HashReference) (s : MutableArray T)
        → refs_of y (delete_ref hash_ref x r s)
          ≡ ite (same x y) (Map.delete (hash_ref r) (refs_of x s)) (refs_of y s)
    unfolding delete_ref drop_ordinal
    refs_of-delete_ref x y r s =
        let refs = set_of-delete hash_ref x y r s.current_insert_op_refs in
        elim (Bool-cases (DedupMultiMap.delete hash_ref x r s.current_insert_op_refs).1) [
          | inl e ↦ elim (Option-cases (Map.get r.hash s.current_insert_op_ords)) [
            | inl n ↦ rw (e, n) refs
            | inr (p, n) ↦ rw (e, n) refs
          ]
          | inr e ↦ rw e refs
        ]

    delete_refs-AreKeyed :
        (x : Hash) (rs : List HashReference) (s : MutableArray T)
        → AreKeyed s
        → AreKeyed (delete_refs hash_ref x rs s)
    unfolding delete_refs AreKeyed
    delete_refs-AreKeyed x [] s a = a
    delete_refs-AreKeyed x (r ∷ rs) s a =
        delete_refs-AreKeyed x rs (delete_ref hash_ref x r s) (λ y.
          subst (All IsKeyed) (sym (refs_of-delete_ref x y r s))
            (elim (same x y)
              as (λ z. All IsKeyed (ite z (Map.delete (hash_ref r) (refs_of x s)) (refs_of y s))) [
                | yes p ↦ All-delete IsKeyed (hash_ref r) (refs_of x s) (a x)
                | no p ↦ a y
              ]))

    abbrev delete_all : Hash → MutableArray T → MutableArray T
    delete_all x s = delete hash_element hash_ref is_object sort_hashes sort_ordinals x none s

    holds-delete :
        (x y k : Hash) (s : MutableArray T)
        → AreKeyed s
        → holds (delete_all x s) y k ≡ (holds s y k && not (ite (same x y) true false))
    unfolding delete mutate mutate_delete DedupMultiMap.get AreKeyed Map.get
    holds-delete x y k s a = elim (Bool-cases (HashedSet.size (refs_of x s) == 0)) [
      | inl e ↦
          let empty : Map.has k (refs_of x s) ≡ false =
            ap (Map.has k) (HashedSet.eq-nil_of_size (refs_of x s) (ground (arith, e))) in
          rw e (ground (arith, empty, ap (λ z. holds s z k) {x = x} {y = y}))
      | inr e ↦ rw e (
          ground (
            arith,
            holds-delete_refs hash_ref x (HashedSet.values (refs_of x s)) s y k,
            names-values k (refs_of x s) (a x),
            ap (λ z. holds s z k) {x = x} {y = y},
          ))
    ]

    delete-AreKeyed : (x : Hash) (s : MutableArray T) → AreKeyed s → AreKeyed (delete_all x s)
    unfolding delete mutate mutate_delete DedupMultiMap.get HashedSet.values Map.get AreKeyed
    delete-AreKeyed x s a = elim (Bool-cases (HashedSet.size (refs_of x s) == 0)) [
      | inl e ↦ rw e a
      | inr e ↦ rw e (delete_refs-AreKeyed x (HashedSet.values (refs_of x s)) s a)
    ]

    -- What an array shows, and whether it takes duplicates.
    pub record ShowsAs (s t : MutableArray T) : Type 0 where
      pub contents : t.contents ≡ s.contents
      pub hashes : t.hashes ≡ s.hashes
      pub duplicates : t.duplicates ≡ s.duplicates

    delete_ref-ShowsAs :
        (x : Hash) (r : HashReference) (s : MutableArray T) → ShowsAs s (delete_ref hash_ref x r s)
    unfolding delete_ref drop_ordinal
    delete_ref-ShowsAs x r s =
        elim (Bool-cases (DedupMultiMap.delete hash_ref x r s.current_insert_op_refs).1) [
          | inl e ↦ elim (Option-cases (Map.get r.hash s.current_insert_op_ords)) [
            | inl n ↦ rw (e, n) (record { contents = refl; hashes = refl; duplicates = refl })
            | inr (p, n) ↦ rw (e, n) (record { contents = refl; hashes = refl; duplicates = refl })
          ]
          | inr e ↦ rw e (record { contents = refl; hashes = refl; duplicates = refl })
        ]

    pub delete_refs-ShowsAs :
        (x : Hash) (rs : List HashReference) (s : MutableArray T)
        → ShowsAs s (delete_refs hash_ref x rs s)
    unfolding delete_refs
    delete_refs-ShowsAs x [] s = record { contents = refl; hashes = refl; duplicates = refl }
    delete_refs-ShowsAs x (r ∷ rs) s =
        let a = delete_ref-ShowsAs x r s in
        let b = delete_refs-ShowsAs x rs (delete_ref hash_ref x r s) in
        record {
          contents = b.contents ∙ a.contents;
          hashes = b.hashes ∙ a.hashes;
          duplicates = b.duplicates ∙ a.duplicates;
        }

    delete-ShowsAs : (x : Hash) (s : MutableArray T) → ShowsAs s (delete_all x s)
    unfolding delete mutate mutate_delete DedupMultiMap.get
    delete-ShowsAs x s = elim (Bool-cases (HashedSet.size (refs_of x s) == 0)) [
      | inl e ↦ rw e (record { contents = refl; hashes = refl; duplicates = refl })
      | inr e ↦
          let t = delete_refs-ShowsAs x (HashedSet.values (refs_of x s)) s in
          rw e (record { contents = t.contents; hashes = t.hashes; duplicates = t.duplicates })
    ]

    delete_shown_at :
        (idx : ℕ) (x : Hash) (s : MutableArray T)
        → s.duplicates ≡ false
        → get_elem? s.hashes idx ≡ some x
        → delete_shown hash_element hash_ref is_object sort_hashes sort_ordinals idx s
          ≡ delete_all x s
    unfolding delete_shown
    delete_shown_at idx x s d e =
        rw (e, delete_shown)
          (ap
            (λ b.
              delete hash_element hash_ref is_object sort_hashes sort_ordinals x
                (if b then get_elem? s.ordinals idx else none) s)
            d)

    turns : ℕ → ℕ → MutableArray T → MutableArray T
    turns idx count s =
        delete_turns hash_element hash_ref is_object sort_hashes sort_ordinals idx count s

    holds-turns :
        (count idx : ℕ) (s : MutableArray T) (y k : Hash)
        → s.duplicates ≡ false
        → length s.contents ≡ length s.hashes
        → AreKeyed s
        → holds (turns idx count s) y k
          ≡ (holds s y k && not (Set.has y (slice idx count s.hashes)))
    unfolding turns delete_turns Set.has
    holds-turns zero idx s y k d l a =
        ground (arith, ap (Set.has y) (slice-zero idx s.hashes), Set.has-nil y)
    holds-turns (suc count) idx s y k d l a = elim (Option-cases (get_elem? s.hashes idx)) [
      | inl e ↦
          rw (l, out_of_range idx s.hashes e, slice-none idx (suc count) s.hashes e) (ground arith)
      | inr (x, e) ↦
          let t = delete_all x s in
          let shows = delete-ShowsAs x s in
          let rest =
            holds-turns count (suc idx) t y k (shows.duplicates ∙ d)
              (ap length shows.contents ∙ l ∙ ap length (sym shows.hashes))
              (delete-AreKeyed x s a) in
          let inside : ltb idx (length s.contents) ≡ true =
            ground (arith, l, in_range idx x s.hashes e) in
          rw (inside, delete_shown_at idx x s d e, slice-some idx count x s.hashes e)
            (ground (
              arith,
              rest,
              holds-delete x y k s a,
              ap (λ z. Set.has y (slice (suc idx) count z)) shows.hashes,
            ))
    ]

    keyed : (s : MutableArray T) → IsInStep hash_ref s → AreKeyed s
    unfolding AreKeyed
    keyed s i x = All-map (λ e q. q.keyed) (refs_of x s) (i.placed x)

    -- If an array without duplicates shows a hash for each element, and its indices are in step
    -- with its insertions, then deleteManyAt deletes every insertion of the elements that are
    -- shown from the index on, as many as are wanted, and no other insertion.
    pub delete_many_at-removes :
        (idx count : ℕ) (s : MutableArray T)
        → s.duplicates ≡ false
        → length s.contents ≡ length s.hashes
        → IsInStep hash_ref s
        → (y k : Hash)
        → holds
            (delete_many_at hash_element hash_ref is_object sort_hashes sort_ordinals idx count s)
            y
            k
          ≡ (holds s y k && not (Set.has y (slice idx count (rebuild sort_ordinals s).hashes)))
    unfolding delete_many_at turns AreKeyed
    delete_many_at-removes idx count s d l i y k =
        let t : MutableArray T = rebuild sort_ordinals s in
        let kept = rebuild-IsKept sort_ordinals s in
        holds-turns count idx t y k (kept.duplicates ∙ d) (kept.aligned l)
          (λ x. subst (All IsKeyed) (sym (kept.refs x)) (keyed s i x))
        ∙ ap (λ m. Map.has k m && not (Set.has y (slice idx count t.hashes))) (kept.refs y)
