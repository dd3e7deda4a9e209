-- ===== src/Collections/MutableSet.antt =====
-- src/data/collections/mutable/MutableSet.ts: a set that is changed by additions and by deletions of
-- additions that were seen. The hashes of elements and of references are parameters. A method
-- returns the new state; an operation is made by a call and takes effect in `mutate`.
pub mod Pairs
pub mod Converge
use hyperhyperspace_core.Prelude.{
  ℕ, Hash, String, Bool, true, false, List, [], ◌∷◌, ◌++◌, Option, none, some, if◌then◌else◌, ◌==◌,
  string_key, Result, ok, throws,
}
use hyperhyperspace_core.Js.Map
use hyperhyperspace_core.Js.Map.{JsMap}
use hyperhyperspace_core.Model.HashedSet
use hyperhyperspace_core.Model.HashedSet.{HashedSet}
use hyperhyperspace_core.Model.Reference.{HashReference}

abbrev pub add_op_class : String
add_op_class = "hhs/v0/MutableSet/AddOp"

-- An operation with what `mutate` reads of it: the hash and the element of an addition, the element's
-- hash and the additions that a deletion names.
pub data Op (T : Type 0) : Type 0 where
  add_op : Hash → T → Op T
  delete_op : Option Hash → Option (List HashReference) → Op T

-- What the mutation event source emits.
pub data Event (T : Type 0) : Type 0 where
  added : T → Event T
  object_added : T → Event T
  deleted : Option T → Event T
  object_removed : Option T → Event T

pub data OpError : Type 0 where
  element_hash_undefined not_a_reference_to_an_addition : OpError

pub record MutableSet (T : Type 0) : Type 0 where
  pub elements : JsMap Hash T
  pub current_add_op_refs : JsMap Hash (HashedSet HashReference)

unfoldable pub empty : {T : Type 0} → MutableSet T
empty = record { elements = []; current_add_op_refs = [] }

-- `createReference` of an addition.
abbrev pub reference : Hash → HashReference
reference h = record { hash = h; class_name = add_op_class }

-- The additions that an element rests on; a new set where there is none yet.
abbrev pub refs_of : {T : Type 0} → Hash → MutableSet T → HashedSet HashReference
refs_of h s = elim (Map.get h s.current_add_op_refs) [ none ↦ [] | some refs ↦ refs ]

unfoldable pub has_by_hash : {T : Type 0} → Hash → MutableSet T → Bool
has_by_hash h s = Map.has h s.elements

unfoldable pub get : {T : Type 0} → Hash → MutableSet T → Option T
get h s = Map.get h s.elements

unfoldable pub size : {T : Type 0} → MutableSet T → ℕ
size s = HashedSet.size s.elements

unfoldable pub remove_refs :
    (HashReference → Hash) → List HashReference → HashedSet HashReference → HashedSet HashReference
remove_refs hash_ref [] s = s
remove_refs hash_ref (r ∷ rs) s = remove_refs hash_ref rs (HashedSet.remove hash_ref r s)

abbrev pub named : Option (List HashReference) → List HashReference
named none = []
named (some rs) = rs

module _ {T : Type 0} (hash_element : T → Hash) (hash_ref : HashReference → Hash)
    (is_object : T → Bool) where
  -- The events of an addition that makes the element a member.
  abbrev add_events : T → List (Event T)
  add_events e = added e ∷ (if is_object e then object_added e ∷ [] else [])

  abbrev removed_is_object : Option T → Bool
  removed_is_object none = false
  removed_is_object (some e) = is_object e

  abbrev delete_events : Option T → List (Event T)
  delete_events e = deleted e ∷ (if removed_is_object e then object_removed e ∷ [] else [])

  unfoldable pub mutate_add : Hash → T → MutableSet T → MutableSet T × Bool × List (Event T)
  mutate_add h e s =
      let hash = hash_element e in
      let current = refs_of hash s in
      let refs =
        Map.set hash (HashedSet.add hash_ref (reference h) current) s.current_add_op_refs in
      if HashedSet.size current == 0
      then (
        record { elements = Map.set hash e s.elements; current_add_op_refs = refs },
        true,
        add_events e,
      )
      else (record s { current_add_op_refs = refs }, false, [])

  unfoldable pub mutate_delete :
      Hash → Option (List HashReference) → MutableSet T → MutableSet T × Bool × List (Event T)
  unfolding remove_refs
  mutate_delete hash ops s = elim (Map.get hash s.current_add_op_refs) [
    | none ↦ (s, false, [])
    | some current ↦
        let left = remove_refs hash_ref (named ops) current in
        if HashedSet.size left == 0
        then (
          record {
            elements = Map.delete hash s.elements;
            current_add_op_refs = Map.delete hash s.current_add_op_refs;
          },
          true,
          delete_events (Map.get hash s.elements),
        )
        else (record s { current_add_op_refs = Map.set hash left s.current_add_op_refs }, false, [])
  ]

  unfoldable pub mutate :
      Op T → MutableSet T → Result OpError (MutableSet T × Bool × List (Event T))
  unfolding mutate_add mutate_delete
  mutate (add_op h e) s = ok (mutate_add h e s)
  mutate (delete_op none ops) s = throws element_hash_undefined
  mutate (delete_op (some hash) ops) s = ok (mutate_delete hash ops s)

  unfoldable pub has : T → MutableSet T → Bool
  unfolding has_by_hash
  has e s = has_by_hash (hash_element e) s

  -- The operation that `deleteByHash` applies, if the element is there.
  unfoldable pub delete_op_for : Hash → MutableSet T → Option (Op T)
  delete_op_for hash s = elim (Map.get hash s.current_add_op_refs) [
    | none ↦ none
    | some refs ↦
        if HashedSet.size refs == 0
        then none
        else some (delete_op (some hash) (some (HashedSet.values refs)))
  ]

  unfoldable pub delete_by_hash :
      Hash → MutableSet T → Result OpError (MutableSet T × Bool × List (Event T))
  unfolding delete_op_for mutate
  delete_by_hash hash s = elim (delete_op_for hash s) [
    | none ↦ ok (s, false, [])
    | some op ↦ elim (mutate op s) [
      | ok (t, _, events) ↦ ok (t, true, events)
      | throws e ↦ throws e
    ]
  ]
