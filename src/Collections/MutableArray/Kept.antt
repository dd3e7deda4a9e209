-- ===== src/Collections/MutableArray/Kept.antt =====
-- What the rebuilding of an array of src/data/collections/mutable/MutableArray.ts keeps.
use hyperhyperspace_core.Prelude.{
  suc, ◌≡◌, refl, sym, ap, ◌∙◌, Hash, List, [], ◌∷◌, ◌++◌, not, ◌||◌, length, string_key,
  Bool-cases, inl, inr,
}
use hyperhyperspace_core.Js.Map
use hyperhyperspace_core.Js.Map.{JsMap}
use hyperhyperspace_core.Js.Set
use hyperhyperspace_core.Util.ArrayMap
use hyperhyperspace_core.Collections.MutableArray.{
  MutableArray, Ordinal, ordinal_key, refs_of, Rebuilt, rebuild, show_elements, show_ordinals,
}

length-snoc : {A : Type 0} (x : A) (xs : List A) → length (xs ++ (x ∷ [])) ≡ suc (length xs)
length-snoc x [] = refl
length-snoc x (y ∷ xs) = ap suc (length-snoc x xs)

module _ {T : Type 0} (sort_ordinals : List Ordinal → List Ordinal) where
  -- There is an element and an ordinal for each hash.
  abbrev Aligned : Rebuilt T → Type 0
  Aligned r = (length r.contents ≡ length r.hashes) × (length r.ordinals ≡ length r.hashes)

  elements-Aligned :
      (s : MutableArray T) (o : Ordinal) (xs : List Hash) (r : Rebuilt T)
      → Aligned r
      → Aligned (show_elements s o xs r)
  unfolding show_elements
  elements-Aligned s o [] r l = l
  elements-Aligned s o (x ∷ xs) r l =
      elements-Aligned s o xs _ (elim (Bool-cases (s.duplicates || not (Set.has x r.seen))) [
        | inl e ↦ rw e (
          length-snoc (Map.get x s.elements) r.contents ∙ ap suc l.0 ∙ sym (length-snoc x r.hashes),
          length-snoc o r.ordinals ∙ ap suc l.1 ∙ sym (length-snoc x r.hashes),
        )
        | inr e ↦ rw e l
      ])

  ordinals-Aligned :
      (s : MutableArray T) (os : List Ordinal) (r : Rebuilt T)
      → Aligned r
      → Aligned (show_ordinals s os r)
  unfolding show_ordinals
  ordinals-Aligned s [] r l = l
  ordinals-Aligned s (o ∷ os) r l =
      ordinals-Aligned s os _ (elements-Aligned s o (ArrayMap.get o s.elements_per_ordinal) r l)

  -- What the rebuilding of an array keeps.
  pub record IsKept (s t : MutableArray T) : Type 0 where
    pub duplicates : t.duplicates ≡ s.duplicates
    pub refs : (x : Hash) → refs_of x t ≡ refs_of x s
    pub ords : t.current_insert_op_ords ≡ s.current_insert_op_ords
    pub by_ordinal : t.elements_per_ordinal ≡ s.elements_per_ordinal
    pub by_element : t.ordinals_per_element ≡ s.ordinals_per_element
    pub aligned : length s.contents ≡ length s.hashes → length t.contents ≡ length t.hashes
    pub numbered : length s.ordinals ≡ length s.hashes → length t.ordinals ≡ length t.hashes

  pub rebuild-IsKept : (s : MutableArray T) → IsKept s (rebuild sort_ordinals s)
  unfolding rebuild
  rebuild-IsKept s =
      let start : Rebuilt T = record { contents = []; hashes = []; ordinals = []; seen = [] } in
      let shown =
        ordinals-Aligned s (sort_ordinals (Map.keys s.elements_per_ordinal.inner)) start
          (refl, refl) in
      elim (Bool-cases s.need_to_rebuild) [
        | inl e ↦ rw e (record {
          duplicates = refl;
          refs = λ x. refl;
          ords = refl;
          by_ordinal = refl;
          by_element = refl;
          aligned = λ l. shown.0;
          numbered = λ l. shown.1;
        })
        | inr e ↦ rw e (record {
          duplicates = refl;
          refs = λ x. refl;
          ords = refl;
          by_ordinal = refl;
          by_element = refl;
          aligned = λ l. l;
          numbered = λ l. l;
        })
      ]
