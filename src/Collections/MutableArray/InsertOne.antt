-- ===== src/Collections/MutableArray/InsertOne.antt =====
-- One turn of the loop of insertManyAt of src/data/collections/mutable/MutableArray.ts.
use hyperhyperspace_core.Prelude.{
  ◌≡◌, ◌≢◌, refl, sym, ◌∙◌, Hash, Bool, false, List, none, not, ◌&&◌, arith, string_key,
  if◌then◌else◌, ◌==◌, Bool-cases, inl, inr, subst,
}
use hyperhyperspace_core.Js.Map
use hyperhyperspace_core.Js.Map.{JsMap}
use hyperhyperspace_core.Util.DedupMultiMap
use hyperhyperspace_core.Model.HashedSet
use hyperhyperspace_core.Model.Reference.{HashReference}
use hyperhyperspace_core.Collections.MutableArray.{
  MutableArray, Ordinal, ordinal_key, Op, insert_op, delete_op, reference, refs_of, mutate,
  mutate_insert, mutate_delete,
}
use hyperhyperspace_core.Collections.MutableArray.Counts.{occurrences}
use hyperhyperspace_core.Collections.MutableArray.Standing.{All-map}
use hyperhyperspace_core.Collections.MutableArray.InStep.{TellsApart, IsInStep, fresh_key}
use hyperhyperspace_core.Collections.MutableArray.Deletion.{mutate-IsInStep}
use hyperhyperspace_core.Collections.MutableArray.Held.{names, none-delete_refs}
use hyperhyperspace_core.Collections.MutableArray.Removed.{names-values, delete_refs-ShowsAs}
use hyperhyperspace_core.Collections.MutableArray.Edits.{insert_one}
use hyperhyperspace_core.Collections.MutableArray.Stands.{
  Stands, insert-Stands, new-Stands, delete-Stands,
}

module _ {T : Type 0} (hash_element : T → Hash) (hash_ref : HashReference → Hash)
    (is_object : T → Bool) (sort_hashes : List Hash → List Hash)
    (sort_ordinals : List Ordinal → List Ordinal) (apart : TellsApart hash_ref)
    (keeps_hashes : (x : Hash) (a : List Hash) → occurrences x (sort_hashes a) ≡ occurrences x a)
    (keeps_ordinals : (o : Ordinal) (a : List Ordinal)
      → occurrences o (sort_ordinals a) ≡ occurrences o a) where
  abbrev pub StandsIn : Hash → T → Ordinal → MutableArray T → Type 0
  StandsIn =
      Stands hash_element hash_ref is_object sort_hashes sort_ordinals apart keeps_hashes
        keeps_ordinals

  abbrev change : Op T → MutableArray T → MutableArray T
  change op s = (mutate hash_element hash_ref is_object sort_hashes sort_ordinals op s).0

  abbrev pub insert : Hash → T → Ordinal → MutableArray T → MutableArray T
  insert = insert_one hash_element hash_ref is_object sort_hashes sort_ordinals

  module _ (h : Hash) (e : T) (o : Ordinal) (s : MutableArray T) (i : IsInStep hash_ref s)
      (n : Map.get h s.current_insert_op_ords ≡ none) where
    abbrev x : Hash
    x = hash_element e

    abbrev inserted : MutableArray T
    inserted = change (insert_op h e o) s

    abbrev old : List HashReference
    old = DedupMultiMap.get x s.current_insert_op_refs

    abbrev moves : Bool
    moves = not s.duplicates && not (HashedSet.size (refs_of x s) == 0)

    inserted-IsInStep : IsInStep hash_ref inserted
    inserted-IsInStep =
        mutate-IsInStep hash_ref apart hash_element is_object sort_hashes sort_ordinals keeps_hashes
          keeps_ordinals (insert_op h e o) s n i

    -- What holds after the insertion, and is kept by the deletion of the old insertions where there
    -- is one, holds after the turn.
    after_turn :
        (P : MutableArray T → Type 0)
        → P inserted
        → (s.duplicates ≡ false → P inserted → P (change (delete_op x old) inserted))
        → P (insert h e o s)
    unfolding insert_one
    after_turn P p d = elim (Bool-cases moves) [
      | inl m ↦
          subst (λ b. P (if b then change (delete_op x old) inserted else inserted)) (sym m)
            (d (ground (arith, m)) p)
      | inr m ↦ subst (λ b. P (if b then change (delete_op x old) inserted else inserted)) (sym m) p
    ]

    pub insert-IsInStep : IsInStep hash_ref (insert h e o s)
    insert-IsInStep = after_turn (IsInStep hash_ref) inserted-IsInStep (λ d j.
        mutate-IsInStep hash_ref apart hash_element is_object sort_hashes sort_ordinals keeps_hashes
          keeps_ordinals (delete_op x old) inserted tt j)

    unnamed : names hash_ref (hash_ref (reference h)) old ≡ false
    unfolding DedupMultiMap.get
    unnamed =
        names-values hash_ref (hash_ref (reference h)) (refs_of x s)
          (All-map (λ f q. q.keyed) (refs_of x s) (i.placed x))
        ∙ ground (arith, fresh_key hash_ref h s apart i n x)

    pub insert-StandsIn : StandsIn h e o (insert h e o s)
    insert-StandsIn =
        after_turn (StandsIn h e o)
          (new-Stands hash_element hash_ref is_object sort_hashes sort_ordinals apart keeps_hashes
            keeps_ordinals h e o s)
          (λ d k.
            delete-Stands hash_element hash_ref is_object sort_hashes sort_ordinals apart
              keeps_hashes keeps_ordinals x h old e o inserted (ground (arith, unnamed))
              inserted-IsInStep k)

    pub keeps-StandsIn :
        (g : Hash) (d : T) (p : Ordinal)
        → (s.duplicates ≡ false → hash_element e ≢ hash_element d)
        → StandsIn g d p s
        → StandsIn g d p (insert h e o s)
    keeps-StandsIn g d p a k =
        after_turn (StandsIn g d p)
          (insert-Stands hash_element hash_ref is_object sort_hashes sort_ordinals apart
            keeps_hashes keeps_ordinals h g e d o p s n k)
          (λ u j.
            delete-Stands hash_element hash_ref is_object sort_hashes sort_ordinals apart
              keeps_hashes keeps_ordinals x g old d p inserted (ground (arith, a u))
              inserted-IsInStep j)

    pub insert-none :
        (g : Hash)
        → h ≢ g
        → Map.get g s.current_insert_op_ords ≡ none
        → Map.get g (insert h e o s).current_insert_op_ords ≡ none
    unfolding mutate mutate_insert mutate_delete
    insert-none g a m =
        after_turn (λ t. Map.get g t.current_insert_op_ords ≡ none)
          (ground (arith, a, m, Map.get-set g h o s.current_insert_op_ords))
          (λ d k. none-delete_refs hash_ref x old inserted g k)

    pub insert-duplicates : (insert h e o s).duplicates ≡ s.duplicates
    unfolding mutate mutate_insert mutate_delete
    insert-duplicates =
        after_turn (λ t. t.duplicates ≡ s.duplicates) refl
          (λ d k.
            (delete_refs-ShowsAs hash_ref hash_element is_object sort_hashes sort_ordinals x old
              inserted).duplicates
            ∙ k)
