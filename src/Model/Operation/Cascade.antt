-- ===== src/Model/Operation/Cascade.antt =====
-- The undos and redos of src/data/model/causal/CascadedInvalidateOp.ts: how they are made and how those
-- that are received are checked.
use hyperhyperspace_core.Prelude.{
  Hash, String, Bool, true, false, List, [], ◌∷◌, Option, none, some, not, ◌&&◌, string_key, ite,
  same, length, ◌==◌, if◌then◌else◌, Result, ok, throws,
}
use hyperhyperspace_core.Js.Map
use hyperhyperspace_core.Js.Map.{JsMap}
use hyperhyperspace_core.Js.Set
use hyperhyperspace_core.Model.Operation.{
  cascaded_class_name, MutationOp, cascaded_op, TargetObject, Referenced, fields, is_cascaded,
  is_invalidate_after, get_target_op, get_causal_ops, cause_key, validate,
}

-- Why an undo or redo is not made. A cause of a class without a target is no cause.
pub data CascadeError : Type 0 where
  target_does_not_rest_on_cause : CascadeError
  undo_and_redo_do_not_alternate : CascadeError
  redo_of_an_op : CascadeError
  redo_by_invalidation : CascadeError
  other_object : CascadeError
  cascade_by_invalidation : CascadeError
  not_a_cause : CascadeError

abbrev pub fails_if :
    {A : Type 0} → Bool → CascadeError → Result CascadeError A → Result CascadeError A
fails_if true e r = throws e
fails_if false e r = r

-- `prevOps.equals` of a set with one reference.
abbrev pub are_just : Hash → Option (List Hash) → Bool
are_just h none = false
are_just h (some []) = false
are_just h (some (g ∷ [])) = ite (same g h) true false
are_just h (some (g ∷ f ∷ hs)) = false

abbrev pub is_absent : Option Hash → Bool
is_absent none = true
is_absent (some a) = false

-- Exactly one causal operation, which is the cause with this hash.
abbrev pub is_only_cause : Hash → Option (JsMap String Hash) → Bool
is_only_cause cause none = false
is_only_cause cause (some ops) =
    (length ops == 1)
    && elim (Map.get cause_key ops) [ none ↦ false | some h ↦ ite (same h cause) true false ]

module _ {T : Type 0} where
  abbrev pub is_undo : MutationOp T → Bool
  is_undo (cascaded_op f u t c) = u
  is_undo _ = false

  -- Undos and redos alternate, from an undo on.
  unfoldable pub alternates : Bool → MutationOp T → Bool
  alternates undo (cascaded_op f u t c) = if u then not undo else undo
  alternates undo op = undo

  unfoldable pub same_target_object : MutationOp T → MutationOp T → Bool
  unfolding fields
  same_target_object a b = ite (same (fields a).target_object (fields b).target_object) true false

  -- The tests of `validate` on the cause, of an operation on the object with this hash.
  unfoldable pub cause_ok : Hash → Bool → MutationOp T → MutationOp T → Bool
  unfolding fields
  cause_ok object undo target cause =
      if is_invalidate_after cause
      then undo
        && ite (same object (fields cause).target_object) true false
        && not (is_cascaded target)
      else is_cascaded cause

module _ {T : Type 0} (hash : MutationOp T → Hash) where
  -- The cascade has merit: the target rests on what its cause invalidates.
  unfoldable pub rests_on : MutationOp T → MutationOp T → Bool
  unfolding get_causal_ops
  rests_on target t = Set.has (hash t) (Map.values (get_causal_ops target))

  -- What the constructor makes once its tests are passed.
  unfoldable pub made : Bool → MutationOp T → MutationOp T → MutationOp T
  unfolding fields
  made undo target cause =
      cascaded_op
        (record {
          class_name = cascaded_class_name;
          author = none;
          target_object = (fields target).target_object;
          prev_ops = some (hash target ∷ []);
          causal_ops = some ((cause_key, hash cause) ∷ []);
        })
        undo target cause

  -- The tests on a cause that is an InvalidateAfterOp, or is not.
  unfoldable pub check_cause :
      Bool → MutationOp T → MutationOp T → Result CascadeError (MutationOp T)
  unfolding made same_target_object
  check_cause undo target cause =
      if is_invalidate_after cause
      then fails_if (not undo) redo_by_invalidation (
          fails_if (not (same_target_object target cause)) other_object
            (fails_if (is_cascaded target) cascade_by_invalidation (ok (made undo target cause))))
      else fails_if (not (is_cascaded cause)) not_a_cause (ok (made undo target cause))

  -- The constructor, with all its arguments.
  unfoldable pub construct : Bool → MutationOp T → MutationOp T → Result CascadeError (MutationOp T)
  unfolding rests_on alternates check_cause get_target_op
  construct undo target cause = elim (get_target_op cause) [
    | none ↦ throws not_a_cause
    | some t ↦ fails_if (not (rests_on target t)) target_does_not_rest_on_cause (
        fails_if (not (alternates undo target))
          (if is_cascaded target then undo_and_redo_do_not_alternate else redo_of_an_op)
          (check_cause undo target cause))
  ]

  unfoldable pub create : MutationOp T → MutationOp T → Result CascadeError (MutationOp T)
  unfolding construct
  create target cause =
      construct (if is_cascaded target then not (is_undo target) else true) target cause

  abbrev pub merited : MutationOp T → MutationOp T → Bool
  merited target cause = elim (get_target_op cause) [ none ↦ false | some t ↦ rests_on target t ]

  -- `validate` of an undo or redo that has its fields.
  unfoldable pub validate_cascade : TargetObject → JsMap Hash (Referenced T) → MutationOp T → Bool
  unfolding validate cause_ok rests_on alternates get_target_op
  validate_cascade object references (cascaded_op f undo target cause) =
      validate object references (cascaded_op f undo target cause)
      && is_absent f.author
      && is_only_cause (hash cause) f.causal_ops
      && cause_ok f.target_object undo target cause
      && merited target cause
      && alternates undo target
      && are_just (hash target) f.prev_ops
  validate_cascade object references op = false
