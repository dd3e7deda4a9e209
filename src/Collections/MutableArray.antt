-- ===== src/Collections/MutableArray.antt =====
-- src/data/collections/mutable/MutableArray.ts: an array whose places are ordinals. The hashes of
-- elements and of references, and the runtime's sorts, are parameters. `mutate` returns the new state
-- with the events; an element that is not there is `undefined`.
pub mod Counts
pub mod Standing
pub mod InStep
pub mod Deletion
pub mod Shown
pub mod Held
pub mod Converge
pub mod Edits
pub mod Stands
pub mod InsertOne
pub mod Place
pub mod Inserted
pub mod Inserts
pub mod Kept
pub mod Slice
pub mod Removed
use mathlib.Core.List.{List-discrete}
use native.Mathlib.Decide.{ℕ_discrete}
use hyperhyperspace_core.Prelude.{
  ℕ, Hash, String, Bool, true, false, List, [], ◌∷◌, ◌++◌, Option, none, some, not, ◌&&◌, ◌||◌, Key,
  string_key, if◌then◌else◌, ◌==◌, ite, same,
}
use hyperhyperspace_core.Js.Map
use hyperhyperspace_core.Js.Map.{JsMap}
use hyperhyperspace_core.Js.Set
use hyperhyperspace_core.Js.Set.{JsSet}
use hyperhyperspace_core.Util.ArrayMap
use hyperhyperspace_core.Util.ArrayMap.{ArrayMap}
use hyperhyperspace_core.Util.DedupMultiMap
use hyperhyperspace_core.Util.DedupMultiMap.{DedupMultiMap}
use hyperhyperspace_core.Model.HashedSet
use hyperhyperspace_core.Model.Reference.{HashReference}

abbrev pub Ordinal : Type 0
Ordinal = List ℕ

instance abbrev pub ordinal_key : Key (List ℕ)
ordinal_key = record { discrete = List-discrete ℕ_discrete }

abbrev pub insert_op_class : String
insert_op_class = "hhs/v0/MutableArray/InsertOp"

-- What `mutate` reads of an operation: the hash, the element and the ordinal of an insertion, and the
-- element's hash and the insertions that a deletion names.
pub data Op (T : Type 0) : Type 0 where
  insert_op : Hash → T → Ordinal → Op T
  delete_op : Hash → List HashReference → Op T

pub data Event (T : Type 0) : Type 0 where
  object_added inserted : T → Event T
  moved object_removed : Option T → Event T
  deleted : Hash → Event T

pub record MutableArray (T : Type 0) : Type 0 where
  pub duplicates : Bool
  pub elements_per_ordinal : ArrayMap Ordinal Hash
  pub ordinals_per_element : ArrayMap Hash Ordinal
  pub elements : JsMap Hash T
  pub current_insert_op_refs : DedupMultiMap Hash HashReference
  pub current_insert_op_ords : JsMap Hash Ordinal
  pub need_to_rebuild : Bool
  pub contents : List (Option T)
  pub hashes : List Hash
  pub ordinals : List Ordinal

unfoldable pub new_array : {T : Type 0} → Bool → MutableArray T
unfolding ArrayMap.new
new_array duplicates = record {
  duplicates = duplicates;
  elements_per_ordinal = ArrayMap.new true;
  ordinals_per_element = ArrayMap.new true;
  elements = [];
  current_insert_op_refs = [];
  current_insert_op_ords = [];
  need_to_rebuild = false;
  contents = [];
  hashes = [];
  ordinals = [];
}

-- The reference to an insertion.
abbrev pub reference : Hash → HashReference
reference h = record { hash = h; class_name = insert_op_class }

abbrev pub refs_of : {T : Type 0} → Hash → MutableArray T → JsMap Hash HashReference
refs_of x s = DedupMultiMap.set_of x s.current_insert_op_refs

abbrev pub is_some_object : {T : Type 0} → (T → Bool) → Option T → Bool
is_some_object is_object none = false
is_some_object is_object (some e) = is_object e

module _ {T : Type 0} where
  -- What is done for an insertion that was found and deleted, with its ordinal.
  unfoldable pub drop_ordinal : Hash → Hash → Option Ordinal → MutableArray T → MutableArray T
  unfolding ArrayMap.delete
  drop_ordinal x op_hash none s = s
  drop_ordinal x op_hash (some ordinal) s = record s {
    current_insert_op_ords = Map.delete op_hash s.current_insert_op_ords;
    elements_per_ordinal = (ArrayMap.delete ordinal x s.elements_per_ordinal).0;
    ordinals_per_element = (ArrayMap.delete x ordinal s.ordinals_per_element).0;
  }

module _ {T : Type 0} (hash_ref : HashReference → Hash) where
  -- One turn of the loop over the insertions that a deletion names.
  unfoldable pub delete_ref : Hash → HashReference → MutableArray T → MutableArray T
  unfolding DedupMultiMap.delete drop_ordinal
  delete_ref x r s =
      let t : MutableArray T = record s {
        current_insert_op_refs = (DedupMultiMap.delete hash_ref x r s.current_insert_op_refs).0;
      } in
      if (DedupMultiMap.delete hash_ref x r s.current_insert_op_refs).1
      then drop_ordinal x r.hash (Map.get r.hash s.current_insert_op_ords) t
      else t

  unfoldable pub delete_refs : Hash → List HashReference → MutableArray T → MutableArray T
  unfolding delete_ref
  delete_refs x [] s = s
  delete_refs x (r ∷ rs) s = delete_refs x rs (delete_ref x r s)

  -- Whether the loop deleted an insertion.
  unfoldable pub deletes_any : Hash → List HashReference → MutableArray T → Bool
  unfolding delete_ref DedupMultiMap.delete
  deletes_any x [] s = false
  deletes_any x (r ∷ rs) s =
      (DedupMultiMap.delete hash_ref x r s.current_insert_op_refs).1
      || deletes_any x rs (delete_ref x r s)

module _ {T : Type 0} (hash_element : T → Hash) (hash_ref : HashReference → Hash)
    (is_object : T → Bool) (sort_hashes : List Hash → List Hash)
    (sort_ordinals : List Ordinal → List Ordinal) where
  abbrev insert_events : Bool → Bool → T → List (Event T)
  insert_events duplicates was_not_before e =
      (if was_not_before && is_object e then object_added e ∷ [] else [])
      ++ (if duplicates || was_not_before then inserted e ∷ [] else moved (some e) ∷ [])

  unfoldable pub mutate_insert :
      Hash → T → Ordinal → MutableArray T → MutableArray T × List (Event T)
  unfolding ArrayMap.add DedupMultiMap.add DedupMultiMap.get
  mutate_insert op_hash element ordinal s =
      let x = hash_element element in
      let was_not_before = HashedSet.size (refs_of x s) == 0 in
      (
        record s {
          elements_per_ordinal = ArrayMap.add sort_hashes ordinal x s.elements_per_ordinal;
          ordinals_per_element = ArrayMap.add sort_ordinals x ordinal s.ordinals_per_element;
          elements = if was_not_before then Map.set x element s.elements else s.elements;
          current_insert_op_refs =
              DedupMultiMap.add hash_ref x (reference op_hash) s.current_insert_op_refs;
          current_insert_op_ords = Map.set op_hash ordinal s.current_insert_op_ords;
          need_to_rebuild = true;
        },
        insert_events s.duplicates was_not_before element,
      )

  abbrev delete_events : Bool → Bool → Bool → Bool → Hash → Option T → List (Event T)
  delete_events duplicates was_before was_deleted deleted_ordinal x element =
      (if was_before && was_deleted && is_some_object is_object element
        then object_removed element ∷ []
        else [])
      ++ (if (duplicates && deleted_ordinal) || (not duplicates && was_before && was_deleted)
          then deleted x ∷ []
          else (if not duplicates && was_before then moved element ∷ [] else []))

  unfoldable pub mutate_delete :
      Hash → List HashReference → MutableArray T → MutableArray T × List (Event T)
  unfolding delete_refs deletes_any
  mutate_delete x rs s =
      let was_before = not (HashedSet.size (refs_of x s) == 0) in
      let t = delete_refs hash_ref x rs s in
      let was_deleted = HashedSet.size (refs_of x t) == 0 in
      (
        record t {
          need_to_rebuild = true;
          elements = if was_deleted && was_before then Map.delete x t.elements else t.elements;
        },
        delete_events s.duplicates was_before was_deleted (deletes_any hash_ref x rs s) x
            (Map.get x s.elements),
      )

  unfoldable pub mutate : Op T → MutableArray T → MutableArray T × List (Event T)
  unfolding mutate_insert mutate_delete
  mutate (insert_op op_hash element ordinal) s = mutate_insert op_hash element ordinal s
  mutate (delete_op x rs) s = mutate_delete x rs s

-- What `rebuild` has collected.
pub record Rebuilt (T : Type 0) : Type 0 where
  pub contents : List (Option T)
  pub hashes : List Hash
  pub ordinals : List Ordinal
  pub seen : JsSet Hash

module _ {T : Type 0} where
  -- The inner loop of `rebuild`, over the elements at an ordinal.
  unfoldable pub show_elements : MutableArray T → Ordinal → List Hash → Rebuilt T → Rebuilt T
  show_elements s o [] r = r
  show_elements s o (x ∷ xs) r = show_elements s o xs (
      if s.duplicates || not (Set.has x r.seen)
      then record {
        contents = r.contents ++ (Map.get x s.elements ∷ []);
        hashes = r.hashes ++ (x ∷ []);
        ordinals = r.ordinals ++ (o ∷ []);
        seen = if s.duplicates then r.seen else Set.add x r.seen;
      }
      else r)

  unfoldable pub show_ordinals : MutableArray T → List Ordinal → Rebuilt T → Rebuilt T
  unfolding show_elements ArrayMap.get
  show_ordinals s [] r = r
  show_ordinals s (o ∷ os) r =
      show_ordinals s os (show_elements s o (ArrayMap.get o s.elements_per_ordinal) r)

  unfoldable pub rebuild : (List Ordinal → List Ordinal) → MutableArray T → MutableArray T
  unfolding show_ordinals
  rebuild sort_ordinals s =
      let os = sort_ordinals (Map.keys s.elements_per_ordinal.inner) in
      let r =
        show_ordinals s os (record { contents = []; hashes = []; ordinals = []; seen = [] }) in
      if s.need_to_rebuild
      then record s {
        contents = r.contents;
        hashes = r.hashes;
        ordinals = r.ordinals;
        need_to_rebuild = false;
      }
      else s
