-- ===== src/Collections/MutableArray/Converge.antt =====
-- Replicas of an array of src/data/collections/mutable/MutableArray.ts that apply operations, each in
-- an order that respects causality.
use mathlib.Core.List.{Perm}
use hyperhyperspace_core.Prelude.{
  ◌≡◌, ◌↔◌, refl, sym, ap, ◌∙◌, Hash, Bool, true, false, List, [], ◌∷◌, none, ite, not, ◌&&◌, ◌||◌,
  same, arith, string_key, ◌==◌, any,
}
use hyperhyperspace_core.Js.Map
use hyperhyperspace_core.Js.Map.{JsMap}
use hyperhyperspace_core.Js.Set
use hyperhyperspace_core.Model.HashedSet
use hyperhyperspace_core.Model.Reference.{HashReference}
use hyperhyperspace_core.Collections.MutableArray.{
  MutableArray, Ordinal, ordinal_key, Op, insert_op, delete_op, reference, refs_of, new_array,
  mutate, mutate_insert, mutate_delete, rebuild,
}
use hyperhyperspace_core.Collections.MutableArray.Counts.{occurrences}
use hyperhyperspace_core.Collections.MutableArray.InStep.{
  TellsApart, IsInStep, set_of-add, new-IsInStep,
}
use hyperhyperspace_core.Collections.MutableArray.Deletion.{IsFresh, mutate-IsInStep}
use hyperhyperspace_core.Collections.MutableArray.Shown.{rebuild_shows}
use hyperhyperspace_core.Collections.MutableArray.Held.{
  holds, names, some_of_nonempty, holds-delete_refs, none-delete_refs,
}

-- The operation is the insertion with the hash `h`.
abbrev pub inserts : {T : Type 0} → Op T → Hash → Bool
inserts (insert_op g e p) h = ite (same g h) true false
inserts (delete_op x rs) h = false

abbrev pub any_inserts : {T : Type 0} → List (Op T) → Hash → Bool
any_inserts ops h = any (λ op. inserts op h) ops

-- No insertion comes twice.
abbrev pub AreNew : {T : Type 0} → List (Op T) → Type 0
AreNew [] = Unit
AreNew (op ∷ ops) = ((h : Hash) → inserts op h ≡ true → any_inserts ops h ≡ false) × AreNew ops

module _ {T : Type 0} (hash_ref : HashReference → Hash) (hash_element : T → Hash)
    (is_object : T → Bool) (sort_hashes : List Hash → List Hash)
    (sort_ordinals : List Ordinal → List Ordinal) where
  abbrev pub apply : Op T → MutableArray T → MutableArray T
  apply op s = (mutate hash_element hash_ref is_object sort_hashes sort_ordinals op s).0

  unfoldable pub run : List (Op T) → MutableArray T → MutableArray T
  run [] s = s
  run (op ∷ ops) s = run ops (apply op s)

  -- The operation inserts the element with the hash `x` under the reference with the hash `k`.
  abbrev pub adds : Op T → Hash → Hash → Bool
  adds (insert_op h e p) x k =
      ite (same (hash_element e) x) (ite (same (hash_ref (reference h)) k) true false) false
  adds (delete_op y rs) x k = false

  -- The operation deletes that insertion.
  abbrev pub deletes : Op T → Hash → Hash → Bool
  deletes (insert_op h e p) x k = false
  deletes (delete_op y rs) x k = ite (same y x) (names hash_ref k rs) false

  abbrev pub any_adds : List (Op T) → Hash → Hash → Bool
  any_adds ops x k = any (λ op. adds op x k) ops

  abbrev pub any_deletes : List (Op T) → Hash → Hash → Bool
  any_deletes ops x k = any (λ op. deletes op x k) ops

  -- No insertion comes after a deletion that names it.
  abbrev pub IsCausal : List (Op T) → Type 0
  IsCausal [] = Unit
  IsCausal (op ∷ ops) =
      ((x k : Hash) → deletes op x k ≡ true → any_adds ops x k ≡ false) × IsCausal ops

  holds-apply :
      (op : Op T) (s : MutableArray T) (x k : Hash)
      → holds (apply op s) x k ≡ ((holds s x k || adds op x k) && not (deletes op x k))
  unfolding mutate mutate_insert mutate_delete
  holds-apply (insert_op h e p) s x k = ground (
    arith,
    ap (Map.get k) (set_of-add hash_ref (hash_element e) x (reference h) s.current_insert_op_refs),
    Map.get-set k (hash_ref (reference h)) (reference h) (refs_of (hash_element e) s),
    ap (λ z. holds s z k) {x = hash_element e} {y = x},
  )
  holds-apply (delete_op y rs) s x k = ground (arith, holds-delete_refs hash_ref y rs s x k)

  holds-run :
      (ops : List (Op T)) (s : MutableArray T) (x k : Hash)
      → IsCausal ops
      → holds (run ops s) x k ≡ ((holds s x k || any_adds ops x k) && not (any_deletes ops x k))
  unfolding run
  holds-run [] s x k c = ground arith
  holds-run (op ∷ ops) s x k c =
      ground (arith, holds-run ops (apply op s) x k c.1, holds-apply op s x k, c.0 x k)

  -- What is still to be inserted has no ordinal.
  AreUnplaced : List (Op T) → MutableArray T → Type 0
  AreUnplaced ops s =
      (h : Hash) → any_inserts ops h ≡ true → Map.get h s.current_insert_op_ords ≡ none

  apply-AreUnplaced :
      (op : Op T) (ops : List (Op T)) (s : MutableArray T)
      → ((h : Hash) → inserts op h ≡ true → any_inserts ops h ≡ false)
      → AreUnplaced (op ∷ ops) s
      → AreUnplaced ops (apply op s)
  unfolding mutate mutate_insert mutate_delete AreUnplaced
  apply-AreUnplaced (insert_op g e p) ops s n u h i =
      ground (arith, u h, n h, i, Map.get-set h g p s.current_insert_op_ords)
  apply-AreUnplaced (delete_op y rs) ops s n u h i =
      none-delete_refs hash_ref y rs s h (u h (ground (arith, i)))

  fresh :
      (op : Op T) (ops : List (Op T)) (s : MutableArray T) → AreUnplaced (op ∷ ops) s → IsFresh op s
  unfolding AreUnplaced
  fresh (insert_op g e p) ops s u = u g (ground arith)
  fresh (delete_op y rs) ops s u = tt

  needs-apply : (op : Op T) (s : MutableArray T) → (apply op s).need_to_rebuild ≡ true
  unfolding mutate mutate_insert mutate_delete
  needs-apply (insert_op h e p) s = refl
  needs-apply (delete_op x rs) s = refl

  needs-run :
      (ops : List (Op T)) (s : MutableArray T)
      → s.need_to_rebuild ≡ true
      → (run ops s).need_to_rebuild ≡ true
  unfolding run
  needs-run [] s n = n
  needs-run (op ∷ ops) s n = needs-run ops (apply op s) (needs-apply op s)

  module _ (apart : TellsApart hash_ref)
      (keeps_hashes : (x : Hash) (a : List Hash) → occurrences x (sort_hashes a) ≡ occurrences x a)
      (keeps_ordinals : (o : Ordinal) (a : List Ordinal)
        → occurrences o (sort_ordinals a) ≡ occurrences o a) where
    run-IsInStep :
        (ops : List (Op T)) (s : MutableArray T)
        → AreNew ops
        → AreUnplaced ops s
        → IsInStep hash_ref s
        → IsInStep hash_ref (run ops s)
    unfolding run
    run-IsInStep [] s n u i = i
    run-IsInStep (op ∷ ops) s n u i =
        run-IsInStep ops (apply op s) n.1 (apply-AreUnplaced op ops s n.0 u) (
          mutate-IsInStep hash_ref apart hash_element is_object sort_hashes sort_ordinals
            keeps_hashes keeps_ordinals op s (fresh op ops s u) i)

    new-AreUnplaced :
        (ops : List (Op T)) (duplicates : Bool) → AreUnplaced ops (new_array duplicates)
    unfolding new_array Map.get AreUnplaced
    new-AreUnplaced ops duplicates h i = refl

    module _ (sorts : (os : List Ordinal) → Perm (sort_ordinals os) os) (duplicates : Bool) where
      -- The hashes that an array shows which started empty.
      abbrev pub shown : List (Op T) → List Hash
      shown ops = (rebuild sort_ordinals (run ops (new_array duplicates))).hashes

      shown_nonempty :
          (ops : List (Op T)) (x : Hash)
          → AreNew ops
          → Set.has x (shown ops)
            ≡ not (HashedSet.size (refs_of x (run ops (new_array duplicates))) == 0)
      unfolding run new_array rebuild Set.has Map.get HashedSet.size
      shown_nonempty [] x n = refl
      shown_nonempty (op ∷ ops) x n =
          (rebuild_shows hash_ref sort_ordinals sorts (run (op ∷ ops) (new_array duplicates))
              (run-IsInStep (op ∷ ops) (new_array duplicates) n
                (new-AreUnplaced (op ∷ ops) duplicates) (new-IsInStep hash_ref duplicates))
              (needs-run ops (apply op (new_array duplicates))
                (needs-apply op (new_array duplicates)))).0
            x

      module _ (ops : List (Op T)) (n : AreNew ops) (c : IsCausal ops) where
        -- After operations in which no insertion comes twice and none comes after a deletion that
        -- names it, a new array shows an element exactly if some insertion of it was applied that no
        -- deletion names.
        pub shown-run_iff :
            (x : Hash)
            → (Set.has x (shown ops) ≡ true)
              ↔ ((k : Hash) × (any_adds ops x k ≡ true) × (any_deletes ops x k ≡ false))
        unfolding new_array Map.get
        shown-run_iff x =
            let iff = some_of_nonempty (refs_of x (run ops (new_array duplicates))) in
            let ran = λ (k : Hash). holds-run ops (new_array duplicates) x k c in
            (
              (λ h.
                  let (k, m) = iff.0 (sym (shown_nonempty ops x n) ∙ h) in
                  (k, ground (arith, ran k, m), ground (arith, ran k, m))),
              λ (k, a, d). shown_nonempty ops x n ∙ iff.1 (k, ground (arith, ran k, a, d)),
            )
