-- ===== src/Collections/MutableArray/Edits.antt =====
-- The edits by index of src/data/collections/mutable/MutableArray.ts. An operation that an edit makes
-- is applied at once, by `mutate`, whose events are left aside. The hashes of new insertions are
-- given with the elements. The insertions that a deletion names are of that class, so that its
-- constructor does not throw. An index is not negative.
use hyperhyperspace_core.Prelude.{
  ℕ, zero, suc, ◌+◌, ◌-◌, Hash, Bool, true, false, List, [], ◌∷◌, Option, none, some, not, ◌&&◌,
  if◌then◌else◌, ◌==◌, same, ite, ltb, leb, length, get_elem?, Result, ok, throws, string_key,
}
use hyperhyperspace_core.Js.Map
use hyperhyperspace_core.Util.DedupMultiMap
use hyperhyperspace_core.Util.Ordinals.{OrderError, between}
use hyperhyperspace_core.Model.HashedSet
use hyperhyperspace_core.Model.Reference.{HashReference}
use hyperhyperspace_core.Collections.MutableArray.{
  MutableArray, Ordinal, ordinal_key, insert_op, delete_op, refs_of, mutate, rebuild,
}

-- An edit that inserts returns, or throws the error of `between`.
abbrev pub Outcome : Type 0
Outcome = Option (Result OrderError (Unit {0}))

-- `indexOf`; none stands for -1.
unfoldable pub index_of : Hash → List Hash → Option ℕ
index_of x [] = none
index_of x (y ∷ ys) =
    ite (same y x) (some 0) (elim (index_of x ys) [ none ↦ none | some i ↦ some (suc i) ])

module _ {T : Type 0} (hash_element : T → Hash) (hash_ref : HashReference → Hash)
    (is_object : T → Bool) (sort_hashes : List Hash → List Hash)
    (sort_ordinals : List Ordinal → List Ordinal) where
  -- The first of the insertions that stands at the ordinal.
  unfoldable pub find_at : Ordinal → List HashReference → MutableArray T → Option HashReference
  find_at o [] s = none
  find_at o (r ∷ rs) s = elim (Map.get r.hash s.current_insert_op_ords) [
    | none ↦ find_at o rs s
    | some p ↦ ite (same p o) (some r) (find_at o rs s)
  ]

  abbrev delete_named : Hash → List HashReference → MutableArray T → MutableArray T
  delete_named x rs s =
      (mutate hash_element hash_ref is_object sort_hashes sort_ordinals (delete_op x rs) s).0

  unfoldable pub delete : Hash → Option Ordinal → MutableArray T → MutableArray T
  delete x (some o) s = elim (find_at o (DedupMultiMap.get x s.current_insert_op_refs) s) [
    | none ↦ s
    | some r ↦ delete_named x (r ∷ []) s
  ]
  delete x none s =
      if HashedSet.size (refs_of x s) == 0
      then s
      else delete_named x (DedupMultiMap.get x s.current_insert_op_refs) s

  -- One turn of the loop of `deleteManyAt`.
  unfoldable pub delete_shown : ℕ → MutableArray T → MutableArray T
  delete_shown idx s = elim (get_elem? s.hashes idx) [
    | none ↦ s
    | some x ↦ delete x (if s.duplicates then get_elem? s.ordinals idx else none) s
  ]

  unfoldable pub delete_turns : ℕ → ℕ → MutableArray T → MutableArray T
  delete_turns idx zero s = s
  delete_turns idx (suc count) s =
      if ltb idx (length s.contents) then delete_turns (suc idx) count (delete_shown idx s) else s

  unfoldable pub delete_many_at : ℕ → ℕ → MutableArray T → MutableArray T
  delete_many_at idx count s = delete_turns idx count (rebuild sort_ordinals s)

  unfoldable pub delete_at : ℕ → MutableArray T → MutableArray T
  delete_at idx s = delete_many_at idx 1 s

  unfoldable pub delete_element_by_hash : Hash → MutableArray T → MutableArray T
  delete_element_by_hash x s = delete x none (rebuild sort_ordinals s)

  unfoldable pub delete_element : T → MutableArray T → MutableArray T
  delete_element e s = delete_element_by_hash (hash_element e) s

  -- The array after the call, and the last element; `undefined` if there is none.
  unfoldable pub pop : MutableArray T → MutableArray T × Option T
  pop s =
      let t = rebuild sort_ordinals s in
      if length t.contents == 0 then (t, none) else (
        delete_at (length t.contents - 1) t,
        elim (get_elem? t.contents (length t.contents - 1)) [ none ↦ none | some e ↦ e ],
      )

  -- The turn of `insertManyAt` for an element, with the ordinal it is given.
  unfoldable pub insert_one : Hash → T → Ordinal → MutableArray T → MutableArray T
  insert_one h e o s =
      let x = hash_element e in
      let t : MutableArray T =
        (mutate hash_element hash_ref is_object sort_hashes sort_ordinals (insert_op h e o) s).0 in
      if not s.duplicates && not (HashedSet.size (refs_of x s) == 0)
      then delete_named x (DedupMultiMap.get x s.current_insert_op_refs) t
      else t

  -- The loop of `insertManyAt`; an error of `between` leaves what was done before.
  unfoldable pub insert_all :
      List (Hash × T) → Option Ordinal → Option Ordinal → MutableArray T → MutableArray T × Outcome
  insert_all [] after before s = (s, some (ok tt))
  insert_all ((h, e) ∷ es) after before s = elim (between after before) [
    | none ↦ (s, none)
    | some (throws err) ↦ (s, some (throws err))
    | some (ok o) ↦ insert_all es (some o) before (insert_one h e o s)
  ]

  -- How many of the elements stand up to the index, and will disappear there.
  unfoldable pub moved_before : List (Hash × T) → ℕ → List Hash → ℕ
  moved_before [] idx shown = 0
  moved_before ((h, e) ∷ es) idx shown = elim (index_of (hash_element e) shown) [
    | none ↦ moved_before es idx shown
    | some i ↦ if leb i idx then suc (moved_before es idx shown) else moved_before es idx shown
  ]

  -- The ordinal before the index, and the one at it.
  unfoldable pub bound_after : ℕ → MutableArray T → Option Ordinal
  bound_after zero s = none
  bound_after (suc i) s = if leb (suc i) (length s.hashes) then get_elem? s.ordinals i else none

  unfoldable pub bound_before : ℕ → MutableArray T → Option Ordinal
  bound_before i s = if ltb i (length s.hashes) then get_elem? s.ordinals i else none

  unfoldable pub insert_many_at : List (Hash × T) → ℕ → MutableArray T → MutableArray T × Outcome
  insert_many_at es idx s =
      let t = rebuild sort_ordinals s in
      let i = if t.duplicates then idx else idx + moved_before es idx t.hashes in
      insert_all es (bound_after i t) (bound_before i t) t

  unfoldable pub insert_at : Hash → T → ℕ → MutableArray T → MutableArray T × Outcome
  insert_at h e idx s = insert_many_at ((h, e) ∷ []) idx s

  -- The length of what was shown last is read before the array is rebuilt.
  unfoldable pub push : Hash → T → MutableArray T → MutableArray T × Outcome
  push h e s = insert_at h e (length s.contents) s

  unfoldable pub concat : List (Hash × T) → MutableArray T → MutableArray T × Outcome
  concat es s = let t = rebuild sort_ordinals s in insert_many_at es (length t.contents) t

  unfoldable pub lookup : ℕ → MutableArray T → MutableArray T × Option (Option T)
  lookup idx s = let t = rebuild sort_ordinals s in (t, get_elem? t.contents idx)

  unfoldable pub lookup_hash : ℕ → MutableArray T → MutableArray T × Option Hash
  lookup_hash idx s = let t = rebuild sort_ordinals s in (t, get_elem? t.hashes idx)

  unfoldable pub index_of_by_hash : Option Hash → MutableArray T → MutableArray T × Option ℕ
  index_of_by_hash none s = (s, none)
  index_of_by_hash (some x) s = let t = rebuild sort_ordinals s in (t, index_of x t.hashes)

  unfoldable pub has_by_hash : Hash → MutableArray T → Bool
  has_by_hash x s = elim (index_of_by_hash (some x) s).1 [ none ↦ false | some i ↦ true ]
