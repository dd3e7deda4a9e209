-- ===== src/Tests/Objects.antt =====
-- The theorems on mutable objects and their operations at concrete inputs.
use mathlib.Core.List.{Permᴰ}
use hyperhyperspace_core.Prelude.{
  ℕ, zero, suc, Hash, String, Bool, true, false, List, [], ◌∷◌, ◌++◌, Option, none, some, ◌≡◌, ◌↔◌,
  refl, string_key, string_discrete, any, arith, subst, Result, ok, throws, length, ◌==◌,
  if◌then◌else◌,
}
use hyperhyperspace_core.Js.Map
use hyperhyperspace_core.Js.Set
use hyperhyperspace_core.Model.Operation.{
  cascaded_class_name, MutationOp, plain_op, invalidate_after_op, cascaded_op, Fields, TargetObject,
  Referenced, an_op, validate, get_prev_ops,
}
use hyperhyperspace_core.Model.Operation.Cascade.{create, validate_cascade}
use hyperhyperspace_core.Model.Operation.Accepted.{IsFor, accepted_iff}
use hyperhyperspace_core.Model.MutableObject.{
  MutableObject, new_object, is_valid_op, can_apply_op, has_all,
}
use hyperhyperspace_core.Model.MutableObject.Log.{undoes, redoes, follows, Represents}
use hyperhyperspace_core.Model.MutableObject.Converge.{
  Comes, IsCausal, replica, replicas_agree, valid_iff, run-Represents, new-Represents,
}
use hyperhyperspace_core.Model.MutableObject.Pending.{apply_op_from_store, Pass}
use hyperhyperspace_core.Model.MutableObject.Deliver.{
  IsSettled, IsDelivered, apply_op_from_store-IsSettled, missing_op_blocks, stuck,
}
use hyperhyperspace_core.Model.MutableObject.Arrived.{Accepts}
use hyperhyperspace_core.Model.MutableObject.Sound.{with_unapplied}
use hyperhyperspace_core.Model.MutableObject.Checkpoint.{
  create_checkpoint, restore_checkpoint, load_op, save_all_changes,
}
use hyperhyperspace_core.Model.MutableObject.Restore.{
  CanLoad, IsRestored, restore-create, save_each, Left, save_all_changes-Left,
}

abbrev hash_op : MutationOp String → Hash
hash_op (plain_op f x) = x
hash_op (invalidate_after_op f t) = "invalidate"
hash_op (cascaded_op f true t c) = "undo"
hash_op (cascaded_op f false t c) = "redo"

abbrev count_mutations : MutationOp String → Bool → Bool → ℕ → ℕ × Bool
count_mutations op valid cascade n = (suc n, true)

abbrev fields_after : List Hash → Fields
fields_after hs = record {
  class_name = "op";
  author = none;
  target_object = "object";
  prev_ops = some hs;
  causal_ops = none;
}

abbrev op_a : MutationOp String
op_a = plain_op (fields_after []) "a"

abbrev op_c : MutationOp String
op_c = plain_op (fields_after ("b" ∷ [])) "c"

abbrev op_b : MutationOp String
op_b = plain_op (fields_after ("a" ∷ [])) "b"

abbrev undo_a : MutationOp String
undo_a = cascaded_op (fields_after ("a" ∷ [])) true op_a op_a

op_a-Comes : Comes hash_op op_a []
unfolding redoes follows get_prev_ops Set.has
op_a-Comes = record { named = λ t u e. cc; is_new = refl; ready = λ h e. cc }

op_b-Comes : Comes hash_op op_b (op_a ∷ [])
unfolding redoes follows get_prev_ops Set.has string_discrete
op_b-Comes = record { named = λ t u e. cc; is_new = refl; ready = λ h e. ground (arith, e) }

undo_a-Comes : Comes hash_op undo_a (op_a ∷ [])
unfolding redoes follows get_prev_ops Set.has string_discrete
undo_a-Comes = record { named = λ t u e. cc; is_new = refl; ready = λ h e. ground (arith, e) }

op_b_late-Comes : Comes hash_op op_b (undo_a ∷ op_a ∷ [])
unfolding redoes follows get_prev_ops Set.has string_discrete
op_b_late-Comes = record { named = λ t u e. cc; is_new = refl; ready = λ h e. ground (arith, e) }

undo_a_late-Comes : Comes hash_op undo_a (op_b ∷ op_a ∷ [])
unfolding redoes follows get_prev_ops Set.has string_discrete
undo_a_late-Comes = record { named = λ t u e. cc; is_new = refl; ready = λ h e. ground (arith, e) }

abbrev undo_last : List (MutationOp String)
undo_last = undo_a ∷ op_b ∷ op_a ∷ []

abbrev undo_first : List (MutationOp String)
undo_first = op_b ∷ undo_a ∷ op_a ∷ []

undo_last-IsCausal : IsCausal hash_op undo_last
undo_last-IsCausal = (undo_a_late-Comes, (op_b-Comes, (op_a-Comes, tt)))

undo_first-IsCausal : IsCausal hash_op undo_first
undo_first-IsCausal = (op_b_late-Comes, (undo_a-Comes, (op_a-Comes, tt)))

abbrev replica_of : List (MutationOp String) → MutableObject String ℕ
replica_of ops = replica hash_op count_mutations "object" ("op" ∷ []) 0 ops

replicas_agree_example :
    (Set.has "a" (replica_of undo_last).all_applied_ops
      ≡ Set.has "a" (replica_of undo_first).all_applied_ops)
    × (Map.has "a" (replica_of undo_last).terminal_ops
        ≡ Map.has "a" (replica_of undo_first).terminal_ops)
    × (is_valid_op "a" (replica_of undo_last) ≡ is_valid_op "a" (replica_of undo_first))
replicas_agree_example =
    replicas_agree hash_op count_mutations "object" ("op" ∷ []) 0 undo_last undo_first
      ∣ Permᴰ.swap refl refl ∣₁ undo_last-IsCausal undo_first-IsCausal "a"

valid_iff_example : (is_valid_op "a" (replica_of undo_last) ≡ true) ↔ (
    (u : Hash)
    → any (undoes hash_op "a" u) undo_last ≡ true
    → any (redoes hash_op "a" u) undo_last ≡ true)
valid_iff_example =
    valid_iff hash_op count_mutations "object" ("op" ∷ []) 0 undo_last "a" undo_last-IsCausal

run-Represents_example : Represents hash_op undo_last (replica_of undo_last)
run-Represents_example =
    run-Represents hash_op count_mutations "object" ("op" ∷ []) 0 undo_last undo_last-IsCausal

abbrev fresh : MutableObject String ℕ
fresh = new_object "object" ("op" ∷ []) 0

abbrev waiting : MutableObject String ℕ
waiting = record fresh { unapplied_ops = ("b", some op_b) ∷ [] }

only_b :
    (h : Hash) (op : MutationOp String)
    → Map.get h (("b", some op_b) ∷ []) ≡ some (some op)
    → op_b ≡ op
unfolding Map.get
only_b h op e = ground arith

waiting-IsSettled : IsSettled hash_op count_mutations waiting
unfolding new_object can_apply_op has_all get_prev_ops Set.has Map.get redoes
waiting-IsSettled = record {
  sound = record {
    log = [];
    represents =
        with_unapplied hash_op [] (("b", some op_b) ∷ []) false fresh
          (new-Represents hash_op count_mutations "object" ("op" ∷ []) 0);
    waiting = ((refl, λ t u e. cc), tt);
  };
  unlocked = refl;
  none_ready = λ h op e. subst (λ o. can_apply_op o waiting ≡ false) (only_b h op e) refl;
}

missing_op_blocks_example :
    apply_op_from_store hash_op count_mutations
      ("a", some op_a)
      []
      (record fresh { unapplied_ops = ("x", none) ∷ [] })
    ≡ some (
        stuck hash_op count_mutations []
          (record fresh { unapplied_ops = ("x", none) ∷ Map.set "a" (some op_a) [] }))
unfolding new_object Map.get Set.has string_discrete
missing_op_blocks_example =
    missing_op_blocks hash_op count_mutations "x" "a" (some op_a) [] []
      (record fresh { unapplied_ops = ("x", none) ∷ [] }) refl refl refl

apply_op_from_store-IsSettled_example :
    (p : Pass String ℕ) × (apply_op_from_store hash_op count_mutations
        ("a", some op_a)
        ((("c", some op_c) ∷ []) ∷ [])
        waiting
      ≡ some p)
    × (p.failed ≡ false)
    × IsSettled hash_op count_mutations p.object
    × IsDelivered hash_op count_mutations ("a", some op_a) waiting p.object
    × Accepts ((("c", some op_c) ∷ []) ∷ []) p.arrivals p.object
unfolding redoes
apply_op_from_store-IsSettled_example =
    apply_op_from_store-IsSettled hash_op count_mutations ("a", some op_a)
      ((("c", some op_c) ∷ []) ∷ []) waiting (refl, λ t u e. cc) (((refl, λ t u e. cc), tt), tt)
      waiting-IsSettled

abbrev invalidation : MutationOp String
invalidation = invalidate_after_op (fields_after ("a" ∷ [])) op_a

abbrev dependent_fields : Fields
dependent_fields = record (fields_after ("a" ∷ [])) { causal_ops = some (("needs", "a") ∷ []) }

abbrev dependent : MutationOp String
dependent = plain_op dependent_fields "b"

abbrev cascade_fields : Fields
cascade_fields = record {
  class_name = cascaded_class_name;
  author = none;
  target_object = "object";
  prev_ops = some ("b" ∷ []);
  causal_ops = some (("CascadedInvalidateOp/cause", "invalidate") ∷ []);
}

abbrev target_object : TargetObject
target_object = record {
  hash = "object";
  accepted_mutation_op_classes = "op" ∷ cascaded_class_name ∷ [];
}

abbrev references : Map.JsMap Hash (Referenced String)
references = ("b", an_op dependent) ∷ []

cascade-IsFor : IsFor hash_op target_object references cascade_fields true dependent invalidation
unfolding Map.get string_discrete
cascade-IsFor = record { of_class = refl; of_object = refl; holds_target = λ op e. ground arith }

accepted_iff_example :
    (validate_cascade hash_op target_object references
        (cascaded_op cascade_fields true dependent invalidation)
      ≡ true)
    ↔ ((validate target_object references (cascaded_op cascade_fields true dependent invalidation)
          ≡ true)
        × (create hash_op dependent invalidation
            ≡ ok (cascaded_op cascade_fields true dependent invalidation)))
accepted_iff_example =
    accepted_iff hash_op target_object references cascade_fields true dependent invalidation
      cascade-IsFor

-- The undo of the example is one that is accepted.
cascade_accepted :
    validate_cascade hash_op target_object references
      (cascaded_op cascade_fields true dependent invalidation)
    ≡ true
unfolding validate_cascade string_discrete Map.get Set.has
cascade_accepted = refl

abbrev checkpointed : MutableObject String ℕ
checkpointed = record fresh {
  all_applied_ops = "a" ∷ "b" ∷ [];
  terminal_ops = ("b", op_b) ∷ [];
  last_loaded_op_hash = some "b";
  loaded_op_count = 2;
  contents = 2;
}

abbrev load_b : Hash → Option (MutationOp String)
load_b h = some op_b

checkpointed-CanLoad : CanLoad hash_op load_b checkpointed.terminal_ops fresh
unfolding Map.get new_object load_op
checkpointed-CanLoad h op e = ground arith

restore-create_example :
    (u : MutableObject String ℕ) × (restore_checkpoint hash_op load_b
        (λ c d. c)
        (create_checkpoint (λ c. c) checkpointed)
        fresh
      ≡ ok u)
    × IsRestored checkpointed u
unfolding new_object Map.get
restore-create_example =
    restore-create hash_op load_b (λ c. c) (λ c d. c) (λ c d. refl) checkpointed fresh refl
      checkpointed-CanLoad (refl, tt) tt

-- A store that takes no operation but one.
abbrev save_one : MutationOp String → ℕ → Result String ℕ
save_one op zero = ok 1
save_one op (suc n) = throws "full"

abbrev unsaved : MutableObject String ℕ
unsaved = record fresh { unsaved_ops = op_a ∷ op_b ∷ [] }

save_all_changes-Left_example :
    (done : List (MutationOp String)) × (done ++ (save_all_changes save_one unsaved 0).0.unsaved_ops
      ≡ unsaved.unsaved_ops)
    × (save_each save_one done 0 ≡ ok (save_all_changes save_one unsaved 0).1)
    × ((e : Option String) × Left save_one e
          (save_all_changes save_one unsaved 0).0.unsaved_ops
          (save_all_changes save_one unsaved 0).1
        × ((save_all_changes save_one unsaved 0).2 ≡ elim e [
          | some x ↦ throws x
          | none ↦ ok (if length unsaved.unsaved_ops == 0 then false else true)
        ]))
save_all_changes-Left_example = save_all_changes-Left save_one unsaved 0
