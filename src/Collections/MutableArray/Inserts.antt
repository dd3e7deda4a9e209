-- ===== src/Collections/MutableArray/Inserts.antt =====
-- Where the insertions of src/data/collections/mutable/MutableArray.ts put their elements.
use mathlib.Core.Path.{ap₂}
use hyperhyperspace_core.Prelude.{
  ℕ, ◌+◌, ◌≡◌, refl, ap, ◌∙◌, Hash, Bool, true, List, [], ◌∷◌, Option, none, some, if◌then◌else◌,
  ltb, length, get_elem?, ok, string_key, arith,
}
use hyperhyperspace_core.Util.Ordinals.Order.{Lt, IsOrdinal}
use hyperhyperspace_core.Util.Ordinals.Between.{between_within}
use hyperhyperspace_core.Model.Reference.{HashReference}
use hyperhyperspace_core.Collections.MutableArray.{MutableArray, Ordinal, ordinal_key, rebuild}
use hyperhyperspace_core.Js.Map
use hyperhyperspace_core.Collections.MutableArray.Edits.{
  insert_one, insert_all, insert_many_at, insert_at, push, moved_before, bound_after, bound_before,
}
use hyperhyperspace_core.Collections.MutableArray.Inserted.{Inserted}

module _ {T : Type 0} (hash_element : T → Hash) (hash_ref : HashReference → Hash)
    (is_object : T → Bool) (sort_hashes : List Hash → List Hash)
    (sort_ordinals : List Ordinal → List Ordinal) where
  -- The index that `insertManyAt` takes, after what it rebuilt.
  abbrev found_place : List (Hash × T) → ℕ → MutableArray T → ℕ
  found_place es idx t =
      if t.duplicates
      then idx
      else idx
        + moved_before hash_element hash_ref is_object sort_hashes sort_ordinals es idx t.hashes

  abbrev lower_bound : ℕ → MutableArray T → Option Ordinal
  lower_bound = bound_after hash_element hash_ref is_object sort_hashes sort_ordinals

  abbrev upper_bound : ℕ → MutableArray T → Option Ordinal
  upper_bound = bound_before hash_element hash_ref is_object sort_hashes sort_ordinals

  front :
      (h : Hash) (e : T) (t : MutableArray T) (x : Hash) (xs : List Hash) (p : Ordinal)
      (ps : List Ordinal)
      → t.duplicates ≡ true
      → t.hashes ≡ x ∷ xs
      → t.ordinals ≡ p ∷ ps
      → insert_all hash_element hash_ref is_object sort_hashes sort_ordinals
          ((h, e) ∷ [])
          (lower_bound (found_place ((h, e) ∷ []) 0 t) t)
          (upper_bound (found_place ((h, e) ∷ []) 0 t) t)
          t
        ≡ insert_all hash_element hash_ref is_object sort_hashes sort_ordinals
            ((h, e) ∷ [])
            none
            (some p)
            t
  unfolding bound_after bound_before
  front h e t x xs p ps d shown ordinals =
      let first : found_place ((h, e) ∷ []) 0 t ≡ 0 =
        ap
          (λ b.
            if b
            then 0
            else 0
              + moved_before hash_element hash_ref is_object sort_hashes sort_ordinals ((h, e) ∷ [])
                  0 t.hashes)
          d in
      let upper : upper_bound 0 t ≡ some p =
        ap₂ (λ a b. if ltb 0 (length a) then get_elem? b 0 else none) shown ordinals
        ∙ ground arith in
      ap
        (λ n.
          insert_all hash_element hash_ref is_object sort_hashes sort_ordinals ((h, e) ∷ [])
            (lower_bound n t) (upper_bound n t) t)
        first
      ∙ ap
          (λ b.
            insert_all hash_element hash_ref is_object sort_hashes sort_ordinals ((h, e) ∷ []) none
              b t)
          upper

  -- If what an array showed last was nothing, but it shows elements once it is rebuilt, then push
  -- puts the new element in front of them, if duplicates are wanted and the ordinal of the first
  -- is one.
  pub push_puts_in_front :
      (h : Hash) (e : T) (s : MutableArray T) (x : Hash) (xs : List Hash) (p : Ordinal)
      (ps : List Ordinal)
      → s.contents ≡ []
      → (rebuild sort_ordinals s).duplicates ≡ true
      → (rebuild sort_ordinals s).hashes ≡ x ∷ xs
      → (rebuild sort_ordinals s).ordinals ≡ p ∷ ps
      → IsOrdinal p
      → (o : Ordinal) × (push hash_element hash_ref is_object sort_hashes sort_ordinals h e s ≡ (
        insert_one hash_element hash_ref is_object sort_hashes sort_ordinals h e o
            (rebuild sort_ordinals s),
        some (ok tt),
      ))
        × Lt o p
  unfolding push insert_at insert_many_at insert_all
  push_puts_in_front h e s x xs p ps c d shown ordinals i =
      let (o, found, above, below, ordinal) = between_within none (some p) i in
      (
        o,
        ap
              (λ n.
                insert_many_at hash_element hash_ref is_object sort_hashes sort_ordinals
                  ((h, e) ∷ []) n s)
              (ap length c)
            ∙ front h e (rebuild sort_ordinals s) x xs p ps d shown ordinals
            ∙ rw (found, insert_all) refl,
        below,
      )
