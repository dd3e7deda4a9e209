-- ===== src/Tests/Sets.antt =====
-- The theorems on src/data/collections at concrete inputs.
use mathlib.Core.List.{Perm, Permᴰ}
use hyperhyperspace_core.Prelude.{
  ◌≡◌, ◌↔◌, String, Hash, Bool, true, false, List, [], ◌∷◌, some, refl, arith, string_key,
  ne_of_test,
}
use hyperhyperspace_core.Model.Reference.{HashReference}
use hyperhyperspace_core.Collections.MutableSet
use hyperhyperspace_core.Collections.MutableSet.{Op, add_op, delete_op, reference, has_by_hash}
use hyperhyperspace_core.Collections.MutableSet.Converge.{
  IsCausal, replicas_converge, member-run_iff, any_adds, any_deletes, adds, deletes,
}
use hyperhyperspace_core.Collections.MutableSet.Converge
use hyperhyperspace_core.Collections.MutableSet.Pairs.{names}
use hyperhyperspace_core.Collections.MutableReference.{
  RefUpdateOp, MutableReference, mutate, set_value, update_op,
}
use hyperhyperspace_core.Collections.MutableReference.Converge.{stamped, set_value_wins}

abbrev hash_text : String → Hash
hash_text s = s

abbrev hash_ref : HashReference → Hash
hash_ref r = r.hash

abbrev never : String → Bool
never s = false

abbrev addition : Op String
addition = add_op "o1" "x"

abbrev second_addition : Op String
second_addition = add_op "o2" "x"

abbrev deletion : Op String
deletion = delete_op (some "x") (some (reference "o1" ∷ []))

abbrev one_order : List (Op String)
one_order = addition ∷ second_addition ∷ deletion ∷ []

abbrev other_order : List (Op String)
other_order = addition ∷ deletion ∷ second_addition ∷ []

orders_permute : Perm one_order other_order
orders_permute = ∣ Permᴰ.cons refl (Permᴰ.swap refl refl) ∣₁

one_order-IsCausal : IsCausal hash_text hash_ref never one_order
unfolding adds deletes
one_order-IsCausal = ((λ x r e. cc e), ((λ x r e. refl), ((λ x r e. refl), tt)))

other_order-IsCausal : IsCausal hash_text hash_ref never other_order
unfolding adds deletes names
other_order-IsCausal =
    ((λ x r e. cc e), ((λ x r e. ground (arith, ne_of_test "o1" "o2" refl)), ((λ x r e. refl), tt)))

replicas_converge_example :
    has_by_hash "x" (Converge.run hash_text hash_ref never one_order MutableSet.empty)
    ≡ has_by_hash "x" (Converge.run hash_text hash_ref never other_order MutableSet.empty)
replicas_converge_example =
    replicas_converge hash_text hash_ref never one_order other_order orders_permute
      one_order-IsCausal other_order-IsCausal "x"

member-run_iff_example :
    (has_by_hash "x" (Converge.run hash_text hash_ref never one_order MutableSet.empty) ≡ true) ↔ (
      (r : Hash) × (any_adds hash_text hash_ref never one_order "x" r ≡ true)
      × (any_deletes hash_text hash_ref never one_order "x" r ≡ false))
member-run_iff_example = member-run_iff hash_text hash_ref never one_order "x" one_order-IsCausal

abbrev unordered : String → String → Bool
unordered s t = false

abbrev held : MutableReference String
held = record { sequence = some 4; timestamp = some "t4"; value = some "old" }

abbrev late : RefUpdateOp String
late = record { targets_this = true; sequence = 3; timestamp = "t9"; value = "late" }

set_value_wins_example :
    ((set_value unordered "new" "t5" held).value ≡ some "new")
    × ((mutate unordered late (set_value unordered "new" "t5" held)).0
        ≡ set_value unordered "new" "t5" held)
unfolding update_op
set_value_wins_example =
    set_value_wins unordered "new" "t5" held late (stamped 4 "t4" "old") (omega arith)
