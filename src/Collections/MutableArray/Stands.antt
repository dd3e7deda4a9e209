-- ===== src/Collections/MutableArray/Stands.antt =====
-- The insertions of an array of src/data/collections/mutable/MutableArray.ts that stand at their
-- ordinals, while others are made.
use hyperhyperspace_core.Prelude.{
  ◌≡◌, ◌≢◌, ◌⊎◌, refl, ap, ◌∙◌, Hash, Bool, true, false, List, [], ◌∷◌, none, some, ite, same,
  arith, string_key, Option-cases, Bool-cases, inl, inr,
}
use hyperhyperspace_core.Js.Map
use hyperhyperspace_core.Js.Map.{JsMap}
use hyperhyperspace_core.Util.DedupMultiMap
use hyperhyperspace_core.Model.Reference.{HashReference}
use hyperhyperspace_core.Collections.MutableArray.{
  MutableArray, Ordinal, ordinal_key, Op, insert_op, delete_op, reference, refs_of, mutate,
  mutate_insert, mutate_delete, drop_ordinal, delete_ref, delete_refs,
}
use hyperhyperspace_core.Collections.MutableArray.Counts.{occurrences}
use hyperhyperspace_core.Collections.MutableArray.Standing.{All_get}
use hyperhyperspace_core.Collections.MutableArray.InStep.{
  TellsApart, IsPlaced, IsInStep, set_of-add,
}
use hyperhyperspace_core.Collections.MutableArray.Deletion.{mutate-IsInStep}
use hyperhyperspace_core.Collections.MutableArray.Held.{
  holds, names, holds-delete_refs, none-delete_refs,
}

module _ {T : Type 0} (hash_ref : HashReference → Hash) where
  kept_ord :
      (x : Hash) (r : HashReference) (s : MutableArray T) (h : Hash)
      → (Map.get h (delete_ref hash_ref x r s).current_insert_op_ords
          ≡ Map.get h s.current_insert_op_ords)
        ⊎ (Map.get h (delete_ref hash_ref x r s).current_insert_op_ords ≡ none)
  unfolding delete_ref drop_ordinal
  kept_ord x r s h =
      elim (Bool-cases (DedupMultiMap.delete hash_ref x r s.current_insert_op_refs).1) [
        | inl e ↦ elim (Option-cases (Map.get r.hash s.current_insert_op_ords)) [
          | inl m ↦ rw (e, m) (inl refl)
          | inr (p, m) ↦ elim (same r.hash h) [
            | yes q ↦
                rw (e, m)
                  (inr (ground (arith, Map.get-delete h r.hash s.current_insert_op_ords, q)))
            | no q ↦
                rw (e, m)
                  (inl (ground (arith, Map.get-delete h r.hash s.current_insert_op_ords, q)))
          ]
        ]
        | inr e ↦ rw e (inl refl)
      ]

  kept_ords :
      (x : Hash) (rs : List HashReference) (s : MutableArray T) (h : Hash)
      → (Map.get h (delete_refs hash_ref x rs s).current_insert_op_ords
          ≡ Map.get h s.current_insert_op_ords)
        ⊎ (Map.get h (delete_refs hash_ref x rs s).current_insert_op_ords ≡ none)
  unfolding delete_refs
  kept_ords x [] s h = inl refl
  kept_ords x (r ∷ rs) s h =
      let t = delete_ref hash_ref x r s in
      elim (kept_ord x r s h) [
        | inr e ↦ inr (none-delete_refs hash_ref x rs t h e)
        | inl e ↦ elim (kept_ords x rs t h) [ inl f ↦ inl (f ∙ e) | inr f ↦ inr f ]
      ]

module _ {T : Type 0} (hash_element : T → Hash) (hash_ref : HashReference → Hash)
    (is_object : T → Bool) (sort_hashes : List Hash → List Hash)
    (sort_ordinals : List Ordinal → List Ordinal) (apart : TellsApart hash_ref)
    (keeps_hashes : (x : Hash) (a : List Hash) → occurrences x (sort_hashes a) ≡ occurrences x a)
    (keeps_ordinals : (o : Ordinal) (a : List Ordinal)
      → occurrences o (sort_ordinals a) ≡ occurrences o a) where
  abbrev pub key : Hash → Hash
  key h = hash_ref (reference h)

  -- The insertion with this hash, of this element, was not deleted, and has this ordinal.
  pub record Stands (h : Hash) (e : T) (o : Ordinal) (s : MutableArray T) : Type 0 where
    pub held : holds s (hash_element e) (key h) ≡ true
    pub placed : Map.get h s.current_insert_op_ords ≡ some o

  abbrev change : Op T → MutableArray T → MutableArray T
  change op s = (mutate hash_element hash_ref is_object sort_hashes sort_ordinals op s).0

  -- What is held has an ordinal.
  held_placed :
      (h x : Hash) (s : MutableArray T)
      → IsInStep hash_ref s
      → holds s x (key h) ≡ true
      → Map.get h s.current_insert_op_ords ≢ none
  held_placed h x s i k n = elim (Option-cases (Map.get (key h) (refs_of x s))) [
    | inl e ↦ absurd (ground (arith, e, k))
    | inr (r, e) ↦
        let p =
          All_get (IsPlaced hash_ref s.current_insert_op_ords) (key h) r (refs_of x s) (i.placed x)
            e in
        let q = apart (reference h) r p.keyed in
        absurd
          (ground (arith, n, p.has_ordinal, ap (λ z. Map.get z.hash s.current_insert_op_ords) q))
  ]

  pub insert-Stands :
      (g h : Hash) (d e : T) (p o : Ordinal) (s : MutableArray T)
      → Map.get g s.current_insert_op_ords ≡ none
      → Stands h e o s
      → Stands h e o (change (insert_op g d p) s)
  unfolding mutate mutate_insert
  insert-Stands g h d e p o s n k = record {
    held = ground (
      arith,
      k.held,
      ap (Map.get (key h)) (
          set_of-add hash_ref (hash_element d) (hash_element e) (reference g)
            s.current_insert_op_refs),
      Map.get-set (key h) (key g) (reference g) (refs_of (hash_element d) s),
      ap (λ z. holds s z (key h)) {x = hash_element d} {y = hash_element e},
    );
    placed = ground (
      arith,
      k.placed,
      n,
      Map.get-set h g p s.current_insert_op_ords,
      ap (λ z. Map.get z s.current_insert_op_ords) {x = g} {y = h},
    );
  }

  pub new-Stands :
      (g : Hash) (d : T) (p : Ordinal) (s : MutableArray T)
      → Stands g d p (change (insert_op g d p) s)
  unfolding mutate mutate_insert
  new-Stands g d p s = record {
    held = ground (
      arith,
      ap (Map.get (key g)) (
          set_of-add hash_ref (hash_element d) (hash_element d) (reference g)
            s.current_insert_op_refs),
      Map.get-set (key g) (key g) (reference g) (refs_of (hash_element d) s),
    );
    placed = ground (arith, Map.get-set g g p s.current_insert_op_ords);
  }

  pub delete-Stands :
      (x h : Hash) (rs : List HashReference) (e : T) (o : Ordinal) (s : MutableArray T)
      → ite (same x (hash_element e)) (names hash_ref (key h) rs) false ≡ false
      → IsInStep hash_ref s
      → Stands h e o s
      → Stands h e o (change (delete_op x rs) s)
  unfolding mutate mutate_delete
  delete-Stands x h rs e o s n i k =
      let t = delete_refs hash_ref x rs s in
      let still : holds t (hash_element e) (key h) ≡ true =
        ground (arith, k.held, n, holds-delete_refs hash_ref x rs s (hash_element e) (key h)) in
      let j =
        mutate-IsInStep hash_ref apart hash_element is_object sort_hashes sort_ordinals keeps_hashes
          keeps_ordinals (delete_op x rs) s tt i in
      record {
        held = still;
        placed = elim (kept_ords hash_ref x rs s h) [
          | inl q ↦ q ∙ k.placed
          | inr q ↦ absurd (held_placed h (hash_element e) _ j still q)
        ];
      }
