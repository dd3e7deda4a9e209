-- ===== src/Collections/MutableSet/Converge.antt =====
-- Replicas of a set of src/data/collections/mutable/MutableSet.ts that apply operations, each in an
-- order that respects causality.
use mathlib.Core.List.{Perm}
use hyperhyperspace_core.Prelude.{
  Hash, Bool, true, false, List, [], ◌∷◌, none, some, not, ◌&&◌, ◌||◌, ◌≡◌, ite, same, refl, arith,
  string_key, Bool-cases, inl, inr, ok, throws, ◌∙◌, sym, any, any-perm, ◌↔◌,
}
use hyperhyperspace_core.Js.Map
use hyperhyperspace_core.Model.HashedSet
use hyperhyperspace_core.Model.Reference.{HashReference}
use hyperhyperspace_core.Collections.MutableSet.{
  MutableSet, Op, add_op, delete_op, reference, mutate, named, empty, has_by_hash,
}
use hyperhyperspace_core.Collections.MutableSet.Pairs.{
  holds, names, IsCoherent, holds-add, holds-delete, add-IsCoherent, delete-IsCoherent,
  empty-IsCoherent, member_iff,
}

module _ {T : Type 0} (hash_element : T → Hash) (hash_ref : HashReference → Hash)
    (is_object : T → Bool) where
  -- The state after an operation; one that throws changes nothing.
  unfoldable pub apply : Op T → MutableSet T → MutableSet T
  apply op s = elim (mutate hash_element hash_ref is_object op s) [
    | ok (t, _, _) ↦ t
    | throws e ↦ s
  ]

  unfoldable pub run : List (Op T) → MutableSet T → MutableSet T
  unfolding apply
  run [] s = s
  run (op ∷ ops) s = run ops (apply op s)

  -- The operation adds the element with the hash `x` under the reference with the hash `r`.
  unfoldable pub adds : Op T → Hash → Hash → Bool
  adds (add_op h e) x r =
      ite (same (hash_element e) x) (ite (same (hash_ref (reference h)) r) true false) false
  adds (delete_op y refs) x r = false

  -- The operation deletes that addition.
  unfoldable pub deletes : Op T → Hash → Hash → Bool
  deletes (add_op h e) x r = false
  deletes (delete_op none refs) x r = false
  deletes (delete_op (some y) refs) x r = ite (same y x) (names hash_ref r (named refs)) false

  abbrev pub any_adds : List (Op T) → Hash → Hash → Bool
  any_adds ops x r = any (λ op. adds op x r) ops

  abbrev pub any_deletes : List (Op T) → Hash → Hash → Bool
  any_deletes ops x r = any (λ op. deletes op x r) ops

  -- No addition comes after a deletion that names it.
  abbrev pub IsCausal : List (Op T) → Type 0
  IsCausal [] = Unit
  IsCausal (op ∷ ops) =
      ((x r : Hash) → deletes op x r ≡ true → any_adds ops x r ≡ false) × IsCausal ops

  holds-apply :
      (op : Op T) (s : MutableSet T) (x r : Hash)
      → holds (apply op s) x r ≡ ((holds s x r || adds op x r) && not (deletes op x r))
  unfolding apply mutate adds deletes
  holds-apply (add_op h e) s x r =
      ground (arith, holds-add hash_element hash_ref is_object h e s x r)
  holds-apply (delete_op none refs) s x r = ground arith
  holds-apply (delete_op (some y) refs) s x r =
      ground (arith, holds-delete hash_element hash_ref is_object y refs s x r)

  pub holds-run :
      (ops : List (Op T)) (s : MutableSet T) (x r : Hash)
      → IsCausal ops
      → holds (run ops s) x r ≡ ((holds s x r || any_adds ops x r) && not (any_deletes ops x r))
  unfolding run
  holds-run [] s x r c = ground arith
  holds-run (op ∷ ops) s x r c =
      ground (arith, holds-run ops (apply op s) x r c.1, holds-apply op s x r, c.0 x r)

  apply-IsCoherent :
      (op : Op T) (s : MutableSet T)
      → IsCoherent hash_element s
      → IsCoherent hash_element (apply op s)
  unfolding apply mutate
  apply-IsCoherent (add_op h e) s c = add-IsCoherent hash_element hash_ref is_object h e s c
  apply-IsCoherent (delete_op none refs) s c = c
  apply-IsCoherent (delete_op (some y) refs) s c =
      delete-IsCoherent hash_element hash_ref is_object y refs s c

  -- Every sequence of operations keeps the elements in step with the additions they rest on.
  pub run-IsCoherent :
      (ops : List (Op T)) (s : MutableSet T)
      → IsCoherent hash_element s
      → IsCoherent hash_element (run ops s)
  unfolding run
  run-IsCoherent [] s c = c
  run-IsCoherent (op ∷ ops) s c = run-IsCoherent ops (apply op s) (apply-IsCoherent op s c)

  holds-empty : (x r : Hash) → holds (empty {T = T}) x r ≡ false
  unfolding empty Map.get HashedSet.has_by_hash
  holds-empty x r = refl

  module _ (ops ops' : List (Op T)) (p : Perm ops ops') (c : IsCausal ops) (d : IsCausal ops') where
    holds_agree : (x r : Hash) → holds (run ops empty) x r ≡ holds (run ops' empty) x r
    holds_agree x r = ground (
      arith,
      holds-run ops empty x r c,
      holds-run ops' empty x r d,
      any-perm (λ op. adds op x r) p,
      any-perm (λ op. deletes op x r) p,
    )

    ran : (os : List (Op T)) → IsCoherent hash_element (run os empty)
    ran os = run-IsCoherent os empty (empty-IsCoherent hash_element)

    -- Two replicas that start empty and apply the same additions and deletions, in two orders in
    -- neither of which an addition comes after a deletion that names it, have the same members.
    pub replicas_converge :
        (x : Hash) → has_by_hash x (run ops empty) ≡ has_by_hash x (run ops' empty)
    replicas_converge x = elim (Bool-cases (has_by_hash x (run ops empty))) [
      | inl h ↦
          let (r, k) = (member_iff hash_element (run ops empty) (ran ops) x).0 h in
          h
          ∙ sym (
              (member_iff hash_element (run ops' empty) (ran ops') x).1
                (r, sym (holds_agree x r) ∙ k))
      | inr h ↦ elim (Bool-cases (has_by_hash x (run ops' empty))) [
        | inl h' ↦
            let (r, k) = (member_iff hash_element (run ops' empty) (ran ops') x).0 h' in
            sym (
              h'
              ∙ sym (
                  (member_iff hash_element (run ops empty) (ran ops) x).1 (r, holds_agree x r ∙ k)))
        | inr h' ↦ h ∙ sym h'
      ]
    ]

  -- After operations in which no addition comes after a deletion that names it, an element is a
  -- member exactly if some addition of it was applied that no deletion names.
  pub member-run_iff :
      (ops : List (Op T)) (x : Hash)
      → IsCausal ops
      → (has_by_hash x (run ops empty) ≡ true)
        ↔ ((r : Hash) × (any_adds ops x r ≡ true) × (any_deletes ops x r ≡ false))
  member-run_iff ops x c =
      let coherent = run-IsCoherent ops empty (empty-IsCoherent hash_element) in
      let iff = member_iff hash_element (run ops empty) coherent x in
      (
        (λ h.
            let (r, k) = iff.0 h in
            (
              r,
              ground (arith, holds-run ops empty x r c, k, holds-empty x r),
              ground (arith, holds-run ops empty x r c, k),
            )),
        λ h. iff.1 (h.0, ground (arith, holds-run ops empty x h.0 c, h.1, h.2)),
      )
