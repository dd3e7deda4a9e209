-- ===== src/Collections/MutableSet/Pairs.antt =====
-- A set of src/data/collections/mutable/MutableSet.ts as the pairs of an element's hash and the hash
-- of a reference to an addition.
use hyperhyperspace_core.Prelude.{
  Hash, Bool, true, false, List, [], ◌∷◌, Option, some, ◌==◌, not, ◌&&◌, ◌≡◌, ite, same, refl,
  arith, string_key, Option-cases, inl, inr, ◌↔◌,
}
use hyperhyperspace_core.Js.Map
use hyperhyperspace_core.Model.HashedSet
use hyperhyperspace_core.Model.HashedSet.{HashedSet}
use hyperhyperspace_core.Model.Reference.{HashReference}
use hyperhyperspace_core.Collections.MutableSet.{
  MutableSet, refs_of, reference, mutate_add, mutate_delete, remove_refs, named, empty, has_by_hash,
}

module _ {T : Type 0} where
  -- The element with the hash `x` rests on the addition whose reference has the hash `r`.
  abbrev pub holds : MutableSet T → Hash → Hash → Bool
  holds s x r = HashedSet.has_by_hash r (refs_of x s)

  -- The element with the hash `x` rests on no addition.
  abbrev pub is_bare : MutableSet T → Hash → Bool
  is_bare s x = HashedSet.size (refs_of x s) == 0

module _ {T : Type 0} (hash_element : T → Hash) where
  pub record IsCoherent (s : MutableSet T) : Type 0 where
    pub member : (x : Hash) → has_by_hash x s ≡ not (is_bare s x)
    pub keyed : (x : Hash) (e : T) → Map.get x s.elements ≡ some e → hash_element e ≡ x

-- A reference with the hash `r` is among those that are named.
unfoldable pub names : (HashReference → Hash) → Hash → List HashReference → Bool
names hash_ref r [] = false
names hash_ref r (ref ∷ refs) = ite (same (hash_ref ref) r) true (names hash_ref r refs)

remove_refs-nil :
    (hash_ref : HashReference → Hash) (refs : List HashReference)
    → remove_refs hash_ref refs [] ≡ []
unfolding remove_refs
remove_refs-nil hash_ref [] = refl
remove_refs-nil hash_ref (ref ∷ refs) =
    rw (HashedSet.remove-nil hash_ref ref) (remove_refs-nil hash_ref refs)

module _ {T : Type 0} (hash_element : T → Hash) (hash_ref : HashReference → Hash)
    (is_object : T → Bool) where
  abbrev add_to : Hash → T → MutableSet T → MutableSet T
  add_to h e s = (mutate_add hash_element hash_ref is_object h e s).0

  abbrev delete_from : Hash → Option (List HashReference) → MutableSet T → MutableSet T
  delete_from x refs s = (mutate_delete hash_element hash_ref is_object x refs s).0

  abbrev left_of : List HashReference → HashedSet HashReference → HashedSet HashReference
  left_of = remove_refs hash_ref

  refs_of-add :
      (h : Hash) (e : T) (s : MutableSet T) (x : Hash)
      → refs_of x (add_to h e s)
        ≡ ite
            (same (hash_element e) x)
            (HashedSet.add hash_ref (reference h) (refs_of (hash_element e) s))
            (refs_of x s)
  unfolding mutate_add
  refs_of-add h e s x = ground (
    arith,
    Map.get-set x (hash_element e)
        (HashedSet.add hash_ref (reference h) (refs_of (hash_element e) s)) s.current_add_op_refs,
  )

  refs_of-delete :
      (y : Hash) (refs : Option (List HashReference)) (s : MutableSet T) (x : Hash)
      → refs_of x (delete_from y refs s)
        ≡ ite (same y x) (left_of (named refs) (refs_of y s)) (refs_of x s)
  unfolding mutate_delete
  refs_of-delete y refs s x = elim (Option-cases (Map.get y s.current_add_op_refs)) [
    | inl e ↦ ground (arith, e, remove_refs-nil hash_ref (named refs))
    | inr (current, e) ↦ ground (
      arith,
      e,
      Map.get-delete x y s.current_add_op_refs,
      Map.get-set x y (left_of (named refs) current) s.current_add_op_refs,
      HashedSet.eq-nil_of_size (left_of (named refs) current),
    )
  ]

  pub holds-add :
      (h : Hash) (e : T) (s : MutableSet T) (x r : Hash)
      → holds (add_to h e s) x r
        ≡ ite
            (same (hash_element e) x)
            (ite (same (hash_ref (reference h)) r) true (holds s x r))
            (holds s x r)
  holds-add h e s x r =
      ground (
        arith,
        refs_of-add h e s x,
        HashedSet.has_by_hash-add hash_ref r (reference h) (refs_of x s),
      )

  has_by_hash-remove_refs :
      (r : Hash) (refs : List HashReference) (s : HashedSet HashReference)
      → HashedSet.has_by_hash r (left_of refs s)
        ≡ (HashedSet.has_by_hash r s && not (names hash_ref r refs))
  unfolding remove_refs names
  has_by_hash-remove_refs r [] s = ground arith
  has_by_hash-remove_refs r (ref ∷ refs) s = ground (
    arith,
    has_by_hash-remove_refs r refs (HashedSet.remove hash_ref ref s),
    HashedSet.has_by_hash-remove hash_ref r ref s,
  )

  pub holds-delete :
      (y : Hash) (refs : Option (List HashReference)) (s : MutableSet T) (x r : Hash)
      → holds (delete_from y refs s) x r
        ≡ ite (same y x) (holds s x r && not (names hash_ref r (named refs))) (holds s x r)
  holds-delete y refs s x r =
      ground
        (arith, refs_of-delete y refs s x, has_by_hash-remove_refs r (named refs) (refs_of x s))

  -- The element that is added is a member; every other membership is as it was.
  pub add-IsCoherent :
      (h : Hash) (e : T) (s : MutableSet T)
      → IsCoherent hash_element s
      → IsCoherent hash_element (add_to h e s)
  unfolding mutate_add has_by_hash
  add-IsCoherent h e s c = record {
    member = λ x. ground (
      arith,
      c.member x,
      c.member (hash_element e),
      refs_of-add h e s x,
      Map.get-set x (hash_element e) e s.elements,
      HashedSet.size-add_ne hash_ref (reference h) (refs_of (hash_element e) s),
    );
    keyed = λ x g k. ground (arith, c.keyed x g, Map.get-set x (hash_element e) e s.elements);
  }

  pub delete-IsCoherent :
      (y : Hash) (refs : Option (List HashReference)) (s : MutableSet T)
      → IsCoherent hash_element s
      → IsCoherent hash_element (delete_from y refs s)
  unfolding mutate_delete has_by_hash
  delete-IsCoherent y refs s c = record {
    member = λ x. elim (Option-cases (Map.get y s.current_add_op_refs)) [
      | inl e ↦ ground (arith, e, c.member x, refs_of-delete y refs s x)
      | inr (current, e) ↦ ground (
        arith,
        e,
        c.member x,
        c.member y,
        refs_of-delete y refs s x,
        Map.get-delete x y s.elements,
        remove_refs-nil hash_ref (named refs),
        HashedSet.eq-nil_of_size current,
        HashedSet.size-nil HashReference,
      )
    ];
    keyed = λ x g k. elim (Option-cases (Map.get y s.current_add_op_refs)) [
      | inl e ↦ ground (arith, e, c.keyed x g)
      | inr (current, e) ↦ ground (arith, e, c.keyed x g, Map.get-delete x y s.elements)
    ];
  }

pub empty-IsCoherent : {T : Type 0} (hash_element : T → Hash) → IsCoherent hash_element empty
unfolding empty has_by_hash Map.get HashedSet.size
empty-IsCoherent hash_element = record { member = λ x. refl; keyed = λ x e k. cc }

-- Membership is to rest on some addition.
pub member_iff :
    {T : Type 0} (hash_element : T → Hash) (s : MutableSet T)
    → IsCoherent hash_element s
    → (x : Hash) → (has_by_hash x s ≡ true) ↔ ((r : Hash) × (holds s x r ≡ true))
member_iff hash_element s c x = (
  (λ h. HashedSet.some_hash (refs_of x s) (ground (arith, c.member x))),
  λ h. ground (arith, c.member x, h.1, HashedSet.has_by_hash_of_empty h.0 (refs_of x s)),
)
