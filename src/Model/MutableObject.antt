-- ===== src/Model/MutableObject.antt =====
-- src/data/model/mutable/MutableObject.ts: an object that operations change. The hash of an operation
-- and the state that a class adds, with its `mutate`, are parameters. The events are those that an
-- application emits, in their order.
pub mod Log
pub mod Pending
pub mod Drain
pub mod Carried
pub mod Arrived
pub mod Sound
pub mod Deliver
pub mod Converge
pub mod Validity
pub mod Checkpoint
pub mod Restore
use hyperhyperspace_core.Prelude.{
  ℕ, ◌+◌, Hash, String, Bool, true, false, List, [], ◌∷◌, ◌++◌, Option, none, some, not, ◌&&◌, ◌||◌,
  string_key, ite, same, length, ◌==◌, ltb, if◌then◌else◌, Result, ok, throws,
}
use hyperhyperspace_core.Js.Map
use hyperhyperspace_core.Js.Map.{JsMap}
use hyperhyperspace_core.Js.Set
use hyperhyperspace_core.Js.Set.{JsSet}
use hyperhyperspace_core.Util.MultiMap
use hyperhyperspace_core.Util.MultiMap.{MultiMap}
use hyperhyperspace_core.Model.Operation.{
  MutationOp, plain_op, invalidate_after_op, cascaded_op, fields, get_prev_ops,
  get_prev_ops_if_present, set_prev_ops, set_target_object, is_cascaded, final_target,
}

-- `contents` is the state of the subclass. An operation that the store does not have is `undefined`
-- among those that are not applied.
pub record MutableObject (T S : Type 0) : Type 0 where
  pub last_hash : Hash
  pub accepted_mutation_op_classes : List String
  pub all_applied_ops : JsSet Hash
  pub terminal_ops : JsMap Hash (MutationOp T)
  pub active_casc_invs_per_op : MultiMap Hash Hash
  pub unsaved_ops : List (MutationOp T)
  pub unapplied_ops : JsMap Hash (Option (MutationOp T))
  pub last_loaded_op_hash : Option Hash
  pub last_loaded_op_hash_at_checkpoint : Option Hash
  pub loaded_op_count : ℕ
  pub loaded_op_count_at_checkpoint : Option ℕ
  pub apply_ops_locked : Bool
  pub contents : S

unfoldable pub new_object : {T S : Type 0} → Hash → List String → S → MutableObject T S
unfolding MultiMap.empty
new_object hash classes contents = record {
  last_hash = hash;
  accepted_mutation_op_classes = classes;
  all_applied_ops = [];
  terminal_ops = [];
  active_casc_invs_per_op = MultiMap.empty;
  unsaved_ops = [];
  unapplied_ops = [];
  last_loaded_op_hash = none;
  last_loaded_op_hash_at_checkpoint = none;
  loaded_op_count = 0;
  loaded_op_count_at_checkpoint = none;
  apply_ops_locked = false;
  contents = contents;
}

pub data Event (T : Type 0) : Type 0 where
  mutated : MutationOp T → Event T
  revalidate_op : MutationOp T → Event T
  invalidate_op : MutationOp T → Event T

pub data ApplyError : Type 0 where
  invalid_op prev_op_not_applied : ApplyError

-- Every hash of a list is in a set.
unfoldable pub has_all : List Hash → JsSet Hash → Bool
has_all [] s = true
has_all (h ∷ hs) s = Set.has h s && has_all hs s

unfoldable pub delete_all : {V : Type 0} → List Hash → JsMap Hash V → JsMap Hash V
delete_all [] m = m
delete_all (h ∷ hs) m = delete_all hs (Map.delete h m)

abbrev pub xor : Bool → Bool → Bool
xor true b = not b
xor false b = b

-- The mutation callbacks, and the change of validity.
abbrev pub events_of :
    {T : Type 0} → MutationOp T → MutationOp T → Bool → Bool → Bool → List (Event T)
events_of op final changed valid did_mutate =
    (if did_mutate then mutated op ∷ [] else [])
    ++ (if changed then (if valid then revalidate_op final else invalidate_op final) ∷ [] else [])

module _ {T S : Type 0} where
  unfoldable pub is_valid_op : Hash → MutableObject T S → Bool
  unfolding MultiMap.get
  is_valid_op h s = Set.size (MultiMap.get h s.active_casc_invs_per_op) == 0

  unfoldable pub is_accepted_mutation_op_class : MutationOp T → MutableObject T S → Bool
  unfolding fields
  is_accepted_mutation_op_class op s = Set.has (fields op).class_name s.accepted_mutation_op_classes

  unfoldable pub can_apply_op : MutationOp T → MutableObject T S → Bool
  unfolding get_prev_ops has_all
  can_apply_op op s = has_all (get_prev_ops op) s.all_applied_ops

module _ {T : Type 0} (hash : MutationOp T → Hash) where
  -- The first part of `apply`: the operation is terminal and applied, and saved later if it is new.
  unfoldable pub note_op :
      {S : Type 0} → MutationOp T → Bool → MutableObject T S → MutableObject T S
  unfolding get_prev_ops delete_all
  note_op op is_new s = record s {
    all_applied_ops = Set.add (hash op) s.all_applied_ops;
    terminal_ops = Map.set (hash op) op (delete_all (get_prev_ops op) s.terminal_ops);
    unsaved_ops = if is_new then s.unsaved_ops ++ (op ∷ []) else s.unsaved_ops;
  }

  -- What is active once an undo of the final target was applied, or a redo that targets `target`.
  unfoldable pub change_active :
      Bool → Hash → MutationOp T → MutationOp T → MultiMap Hash Hash → MultiMap Hash Hash
  unfolding MultiMap.add MultiMap.delete
  change_active undo op target final m =
      if undo
      then MultiMap.add (hash final) op m
      else (MultiMap.delete (hash final) (hash target) m).0

module _ {T S : Type 0} (hash : MutationOp T → Hash)
    (mutate : MutationOp T → Bool → Bool → S → S × Bool) where
  unfoldable pub apply_mutation :
      MutationOp T
      → MutationOp T
      → Bool
      → Bool
      → Bool
      → Bool
      → MutableObject T S
      → MutableObject T S × List (Event T)
  apply_mutation op final should changed valid cascade s =
      if should
      then (
        record s { contents = (mutate final valid cascade s.contents).0 },
        events_of op final changed valid (mutate final valid cascade s.contents).1,
      )
      else (s, events_of op final changed valid false)

  unfoldable pub apply_cascaded :
      MutationOp T → Bool → MutationOp T → MutableObject T S → MutableObject T S × List (Event T)
  unfolding is_valid_op change_active apply_mutation final_target
  apply_cascaded op undo target s =
      let final = final_target target in
      let was_valid = is_valid_op (hash final) s in
      let active = change_active hash undo (hash op) target final s.active_casc_invs_per_op in
      let next = record s { active_casc_invs_per_op = active } in
      let is_valid_now = is_valid_op (hash final) next in
      let changed = xor was_valid is_valid_now in
      apply_mutation op final changed changed is_valid_now (is_cascaded target) next

  -- The second part of `apply`.
  unfoldable pub apply_effect :
      MutationOp T → MutableObject T S → MutableObject T S × List (Event T)
  unfolding apply_cascaded apply_mutation
  apply_effect (cascaded_op f undo target cause) s =
      apply_cascaded (cascaded_op f undo target cause) undo target s
  apply_effect op s = apply_mutation op op true false true false s

  -- The object, whether the operation was applied, and the events.
  unfoldable pub apply :
      MutationOp T → Bool → MutableObject T S → MutableObject T S × Bool × List (Event T)
  unfolding note_op apply_effect
  apply op is_new s = if Set.has (hash op) s.all_applied_ops then (s, false, []) else (
    (apply_effect op (note_op hash op is_new s)).0,
    true,
    (apply_effect op (note_op hash op is_new s)).1,
  )

  -- `applyNewOp`. The hashes of the terminal operations become the predecessors if none are given.
  unfoldable pub with_prev_ops : MutationOp T → MutableObject T S → Result ApplyError (MutationOp T)
  unfolding get_prev_ops_if_present set_prev_ops has_all
  with_prev_ops op s = elim (get_prev_ops_if_present op) [
    | none ↦ ok (set_prev_ops (Map.keys s.terminal_ops) op)
    | some refs ↦ if has_all refs s.all_applied_ops then ok op else throws prev_op_not_applied
  ]

  unfoldable pub apply_new_op :
      MutationOp T
      → MutableObject T S
      → Result ApplyError (MutableObject T S × Bool × List (Event T))
  unfolding is_accepted_mutation_op_class with_prev_ops set_target_object apply
  apply_new_op op s =
      if is_accepted_mutation_op_class op s
      then elim (with_prev_ops (set_target_object s.last_hash op) s) [
        | throws e ↦ throws e
        | ok ready ↦ ok (apply ready true s)
      ]
      else throws invalid_op
