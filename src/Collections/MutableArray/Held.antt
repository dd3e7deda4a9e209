-- ===== src/Collections/MutableArray/Held.antt =====
-- The insertions that stand in an array of src/data/collections/mutable/MutableArray.ts, where some
-- are deleted.
use hyperhyperspace_core.Prelude.{
  ◌≡◌, ◌↔◌, ap, Hash, Bool, true, false, List, [], ◌∷◌, none, ite, not, ◌&&◌, same, arith,
  string_key, ◌==◌, Option-cases, Bool-cases, inl, inr, any,
}
use hyperhyperspace_core.Js.Map
use hyperhyperspace_core.Js.Map.{JsMap}
use hyperhyperspace_core.Util.DedupMultiMap
use hyperhyperspace_core.Util.DedupMultiMap.{DedupMultiMap, set_of}
use hyperhyperspace_core.Model.HashedSet
use hyperhyperspace_core.Model.Reference.{HashReference}
use hyperhyperspace_core.Collections.MutableArray.{
  MutableArray, ordinal_key, refs_of, drop_ordinal, delete_ref, delete_refs,
}
use hyperhyperspace_core.Collections.MutableArray.InStep.{set_of-delete}

-- The insertion with the hash `k` of the element with the hash `x` was not deleted.
abbrev pub holds : {T : Type 0} → MutableArray T → Hash → Hash → Bool
holds s x k = Map.has k (refs_of x s)

has-delete :
    {V : Type 0} (k g : Hash) (m : JsMap Hash V)
    → Map.has k (Map.delete g m) ≡ (Map.has k m && not (ite (same g k) true false))
has-delete k g m = ground (arith, Map.get-delete k g m)

none-delete :
    {V : Type 0} (k g : Hash) (m : JsMap Hash V)
    → Map.get k m ≡ none
    → Map.get k (Map.delete g m) ≡ none
none-delete k g m n = ground (arith, Map.get-delete k g m, n)

-- A reference with the hash `k` is among those that are named.
abbrev pub names : (HashReference → Hash) → Hash → List HashReference → Bool
names hash_ref k rs = any (λ r. ite (same (hash_ref r) k) true false) rs

pub some_of_nonempty :
    (m : JsMap Hash HashReference)
    → (not (HashedSet.size m == 0) ≡ true) ↔ ((k : Hash) × (Map.has k m ≡ true))
unfolding HashedSet.size Map.get
some_of_nonempty [] = ((λ e. cc), λ (k, e). cc)
some_of_nonempty ((k, r) ∷ m) = ((λ e. (k, ground arith)), λ e. ground arith)

module _ {T : Type 0} (hash_ref : HashReference → Hash) where
  holds-delete_ref :
      (x : Hash) (r : HashReference) (s : MutableArray T) (y k : Hash)
      → holds (delete_ref hash_ref x r s) y k
        ≡ (holds s y k && not (ite (same x y) (ite (same (hash_ref r) k) true false) false))
  unfolding delete_ref drop_ordinal
  holds-delete_ref x r s y k =
      let refs = set_of-delete hash_ref x y r s.current_insert_op_refs in
      elim (Bool-cases (DedupMultiMap.delete hash_ref x r s.current_insert_op_refs).1) [
        | inl e ↦ elim (Option-cases (Map.get r.hash s.current_insert_op_ords)) [
          | inl n ↦
              rw (e, n, refs)
                (ground (
                  arith,
                  has-delete k (hash_ref r) (refs_of x s),
                  ap (λ z. holds s z k) {x = x} {y = y},
                ))
          | inr (p, n) ↦
              rw (e, n, refs)
                (ground (
                  arith,
                  has-delete k (hash_ref r) (refs_of x s),
                  ap (λ z. holds s z k) {x = x} {y = y},
                ))
        ]
        | inr e ↦
            rw (e, refs)
              (ground (
                arith,
                has-delete k (hash_ref r) (refs_of x s),
                ap (λ z. holds s z k) {x = x} {y = y},
              ))
      ]

  pub holds-delete_refs :
      (x : Hash) (rs : List HashReference) (s : MutableArray T) (y k : Hash)
      → holds (delete_refs hash_ref x rs s) y k
        ≡ (holds s y k && not (ite (same x y) (names hash_ref k rs) false))
  unfolding delete_refs
  holds-delete_refs x [] s y k = ground arith
  holds-delete_refs x (r ∷ rs) s y k =
      ground
        (arith, holds-delete_refs x rs (delete_ref hash_ref x r s) y k, holds-delete_ref x r s y k)

  -- What has no ordinal gets none.
  none-delete_ref :
      (x : Hash) (r : HashReference) (s : MutableArray T) (h : Hash)
      → Map.get h s.current_insert_op_ords ≡ none
      → Map.get h (delete_ref hash_ref x r s).current_insert_op_ords ≡ none
  unfolding delete_ref drop_ordinal
  none-delete_ref x r s h n =
      elim (Bool-cases (DedupMultiMap.delete hash_ref x r s.current_insert_op_refs).1) [
        | inl e ↦ elim (Option-cases (Map.get r.hash s.current_insert_op_ords)) [
          | inl m ↦ rw (e, m) n
          | inr (p, m) ↦ rw (e, m) (none-delete h r.hash s.current_insert_op_ords n)
        ]
        | inr e ↦ rw e n
      ]

  pub none-delete_refs :
      (x : Hash) (rs : List HashReference) (s : MutableArray T) (h : Hash)
      → Map.get h s.current_insert_op_ords ≡ none
      → Map.get h (delete_refs hash_ref x rs s).current_insert_op_ords ≡ none
  unfolding delete_refs
  none-delete_refs x [] s h n = n
  none-delete_refs x (r ∷ rs) s h n =
      none-delete_refs x rs (delete_ref hash_ref x r s) h (none-delete_ref x r s h n)
