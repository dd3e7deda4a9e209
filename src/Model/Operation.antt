-- ===== src/Model/Operation.antt =====
-- src/data/model/mutable/MutationOp.ts, with InvalidateAfterOp.ts and CascadedInvalidateOp.ts of
-- src/data/model/causal: the operations that change an object. A reference to an operation is its
-- hash; what a class adds to an operation is a content that is not read here.
pub mod Cascade
pub mod Accepted
use hyperhyperspace_core.Prelude.{
  Hash, String, Bool, true, false, List, [], ◌∷◌, Option, none, some, not, ◌&&◌, ◌||◌, string_key,
  ite, same, length, ◌==◌, if◌then◌else◌,
}
use hyperhyperspace_core.Js.Map
use hyperhyperspace_core.Js.Map.{JsMap}
use hyperhyperspace_core.Js.Set

-- What every operation has. The causal operations are those that it rests on, by name.
pub record Fields : Type 0 where
  pub class_name : String
  pub author : Option Hash
  pub target_object : Hash
  pub prev_ops : Option (List Hash)
  pub causal_ops : Option (JsMap String Hash)

-- An operation of some other class; one that invalidates what rests on its target and comes after it;
-- and an undo or redo, with its target and the causal operation that it has as its cause.
pub data MutationOp (T : Type 0) : Type 0 where
  plain_op : Fields → T → MutationOp T
  invalidate_after_op : Fields → MutationOp T → MutationOp T
  cascaded_op : Fields → Bool → MutationOp T → MutationOp T → MutationOp T

-- The object that an operation changes, with what validation reads of it.
pub record TargetObject : Type 0 where
  pub hash : Hash
  pub accepted_mutation_op_classes : List String

-- The class name of CascadedInvalidateOp.
abbrev pub cascaded_class_name : String
cascaded_class_name = "hhs/v0/CascadedInvalidateOp"

unfoldable pub supports_causal_invalidation : TargetObject → Bool
supports_causal_invalidation target =
    Set.has cascaded_class_name target.accepted_mutation_op_classes

abbrev pub cause_key : String
cause_key = "CascadedInvalidateOp/cause"

abbrev refs_if_any : Option (List Hash) → List Hash
refs_if_any none = []
refs_if_any (some refs) = refs

-- The test of the causal operations. Where they are not given the object need not support them; a
-- map of them is not empty.
unfoldable pub causal_ops_ok : TargetObject → Option (JsMap String Hash) → Bool
unfolding supports_causal_invalidation
causal_ops_ok target none = true
causal_ops_ok target (some ops) = supports_causal_invalidation target && not (length ops == 0)

module _ {T : Type 0} where
  unfoldable pub fields : MutationOp T → Fields
  fields (plain_op f x) = f
  fields (invalidate_after_op f t) = f
  fields (cascaded_op f u t c) = f

  unfoldable pub with_fields : Fields → MutationOp T → MutationOp T
  with_fields f (plain_op g x) = plain_op f x
  with_fields f (invalidate_after_op g t) = invalidate_after_op f t
  with_fields f (cascaded_op g u t c) = cascaded_op f u t c

  unfoldable pub get_prev_ops_if_present : MutationOp T → Option (List Hash)
  unfolding fields
  get_prev_ops_if_present op = (fields op).prev_ops

  -- Where there are none, the source is not to be called; the list is empty here.
  unfoldable pub get_prev_ops : MutationOp T → List Hash
  unfolding get_prev_ops_if_present
  get_prev_ops op = refs_if_any (get_prev_ops_if_present op)

  -- `setPrevOps`, from the hashes of the operations.
  unfoldable pub set_prev_ops : List Hash → MutationOp T → MutationOp T
  unfolding fields with_fields
  set_prev_ops refs op = with_fields (record (fields op) { prev_ops = some refs }) op

  unfoldable pub get_causal_ops : MutationOp T → JsMap String Hash
  unfolding fields
  get_causal_ops op = elim (fields op).causal_ops [ none ↦ [] | some ops ↦ ops ]

  unfoldable pub set_target_object : Hash → MutationOp T → MutationOp T
  unfolding fields with_fields
  set_target_object target op = with_fields (record (fields op) { target_object = target }) op

  abbrev pub is_cascaded : MutationOp T → Bool
  is_cascaded (cascaded_op f u t c) = true
  is_cascaded _ = false

  abbrev pub is_invalidate_after : MutationOp T → Bool
  is_invalidate_after (invalidate_after_op f t) = true
  is_invalidate_after _ = false

  -- `getTargetOp`, of the two classes that have it.
  unfoldable pub get_target_op : MutationOp T → Option (MutationOp T)
  get_target_op (plain_op f x) = none
  get_target_op (invalidate_after_op f t) = some t
  get_target_op (cascaded_op f u t c) = some t

  -- The loop of `getFinalTargetOp`, from the target on.
  unfoldable pub final_target : MutationOp T → MutationOp T
  final_target (cascaded_op f u t c) = final_target t
  final_target op = op

-- A prevOp that `references` holds, an object that is not an operation, or nothing.
pub data Referenced (T : Type 0) : Type 0 where
  an_op : MutationOp T → Referenced T
  another_object : Referenced T

module _ {T : Type 0} where
  unfoldable pub is_prev_op : TargetObject → Option (Referenced T) → Bool
  unfolding fields
  is_prev_op target none = false
  is_prev_op target (some another_object) = false
  is_prev_op target (some (an_op op)) = ite (same (fields op).target_object target.hash) true false

  unfoldable pub are_prev_ops : TargetObject → JsMap Hash (Referenced T) → List Hash → Bool
  unfolding is_prev_op
  are_prev_ops target references [] = true
  are_prev_ops target references (h ∷ hs) =
      is_prev_op target (Map.get h references) && are_prev_ops target references hs

  abbrev pub prev_ops_ok : TargetObject → JsMap Hash (Referenced T) → Option (List Hash) → Bool
  prev_ops_ok target references none = false
  prev_ops_ok target references (some hs) = are_prev_ops target references hs

  -- `validate` of MutationOp. What the model's types make is not tested; `shouldAcceptMutationOp` is
  -- the one of MutableObject.
  unfoldable pub validate : TargetObject → JsMap Hash (Referenced T) → MutationOp T → Bool
  unfolding fields are_prev_ops causal_ops_ok
  validate target references op =
      prev_ops_ok target references (fields op).prev_ops
      && causal_ops_ok target (fields op).causal_ops
      && Set.has (fields op).class_name target.accepted_mutation_op_classes
