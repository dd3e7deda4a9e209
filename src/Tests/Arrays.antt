-- ===== src/Tests/Arrays.antt =====
-- The theorems on the mutable array at concrete inputs.
use Prim.Native.Char.{Char}
use Prim.Native.String.{String, [] as empty, ◌∷◌ as ◌∷ˢ◌}
use mathlib.Core.List.Perm
use hyperhyperspace_core.Prelude.{
  Hash, false, [], ◌∷◌, ◌≡◌, refl, ap, not, string_key, List, arith, true, ◌&&◌, ok, some, ℕ,
  string_discrete,
}
use hyperhyperspace_core.Js.Map
use hyperhyperspace_core.Js.Set
use hyperhyperspace_core.Model.HashedSet
use hyperhyperspace_core.Model.Reference.{HashReference}
use hyperhyperspace_core.Collections.MutableArray.{
  MutableArray, Op, insert_op, delete_op, new_array, mutate, mutate_insert, rebuild, reference,
  Ordinal, show_ordinals, show_elements,
}
use hyperhyperspace_core.Collections.MutableArray.Converge.{shown}
use hyperhyperspace_core.Util.ArrayMap
use hyperhyperspace_core.Util.Ordinals.Order.{Lt}
use hyperhyperspace_core.Collections.MutableArray.Held.{holds}
use hyperhyperspace_core.Collections.MutableArray.Slice.{slice}
use hyperhyperspace_core.Collections.MutableArray.Removed.{delete_many_at-removes}
use hyperhyperspace_core.Collections.MutableArray.Edits.{delete_many_at, insert_one, push}
use hyperhyperspace_core.Collections.MutableArray.Inserts.{push_puts_in_front}
use hyperhyperspace_core.Collections.MutableArray.Inserted.{Inserted}
use hyperhyperspace_core.Collections.MutableArray.Place.{place}
use hyperhyperspace_core.Collections.MutableArray.InStep.{TellsApart, IsInStep, new-IsInStep}
use hyperhyperspace_core.Collections.MutableArray.Deletion.{IsFresh, mutate-IsInStep}

head : String → Char
head empty = "\t"
head (c ∷ˢ s) = c

tail : String → String
tail empty = empty
tail (c ∷ˢ s) = s

-- The characters of the first text, each after a mark, an end mark and the second text.
unfoldable mark : String → String → String
mark empty b = "\t" ∷ˢ b
mark (c ∷ˢ a) b = "\n" ∷ˢ (c ∷ˢ mark a b)

mark_apart : (a c b d : String) → mark a b ≡ mark c d → (a ≡ c) × (b ≡ d)
unfolding mark head tail
mark_apart empty empty b d e = (refl, ap tail e)
mark_apart empty (y ∷ˢ c) b d e = absurd (cc)
mark_apart (x ∷ˢ a) empty b d e = absurd (cc)
mark_apart (x ∷ˢ a) (y ∷ˢ c) b d e =
    let f = ap tail e in let g = mark_apart a c b d (ap tail f) in (cc, g.1)

hash_ref : HashReference → Hash
hash_ref r = mark r.hash r.class_name

hash_ref-TellsApart : TellsApart hash_ref
unfolding hash_ref
hash_ref-TellsApart a b e =
    let p = mark_apart a.hash b.hash a.class_name b.class_name e in cc (p.0, p.1)

-- The element is its own hash, and the sorts are given a sorted list.
abbrev apply : Op Hash → MutableArray Hash → MutableArray Hash
apply op s = (mutate (λ x. x) hash_ref (λ x. false) (λ a. a) (λ a. a) op s).0

apply-IsInStep :
    (op : Op Hash) (s : MutableArray Hash)
    → IsFresh op s
    → IsInStep hash_ref s
    → IsInStep hash_ref (apply op s)
apply-IsInStep =
    mutate-IsInStep hash_ref hash_ref-TellsApart (λ x. x) (λ x. false) (λ a. a) (λ a. a)
      (λ x a. refl) (λ o a. refl)

abbrev inserted : MutableArray Hash
inserted = apply (insert_op "i1" "e1" (5 ∷ [])) (new_array false)

inserted-IsInStep : IsInStep hash_ref inserted
unfolding new_array Map.get
inserted-IsInStep =
    apply-IsInStep (insert_op "i1" "e1" (5 ∷ [])) (new_array false) refl
      (new-IsInStep hash_ref false)

mutate-IsInStep_example : IsInStep hash_ref (apply (delete_op "e1" (reference "i1" ∷ [])) inserted)
mutate-IsInStep_example =
    mutate-IsInStep hash_ref hash_ref-TellsApart (λ x. x) (λ x. false) (λ a. a) (λ a. a)
      (λ x a. refl) (λ o a. refl) (delete_op "e1" (reference "i1" ∷ [])) inserted tt
      inserted-IsInStep

abbrev first_insert : Op Hash
first_insert = insert_op "i1" "e1" (5 ∷ [])

abbrev second_insert : Op Hash
second_insert = insert_op "i2" "e2" (6 ∷ [])

abbrev last_delete : Op Hash
last_delete = delete_op "e1" (reference "i1" ∷ [])

abbrev one_order : List (Op Hash)
one_order = first_insert ∷ second_insert ∷ last_delete ∷ []

abbrev other_order : List (Op Hash)
other_order = second_insert ∷ first_insert ∷ last_delete ∷ []

abbrev show : List (Op Hash) → List Hash
show =
    shown hash_ref (λ x. x) (λ x. false) (λ a. a) (λ a. a) hash_ref-TellsApart (λ x a. refl)
      (λ o a. refl) (λ a. Perm.refl a) true

delete_many_at-removes_example :
    holds (delete_many_at (λ x. x) hash_ref (λ x. false) (λ a. a) (λ a. a) 0 1 inserted) "e1" "i1"
    ≡ (holds inserted "e1" "i1"
        && not (Set.has "e1" (slice 0 1 (rebuild (λ a. a) inserted).hashes)))
unfolding mutate mutate_insert new_array
delete_many_at-removes_example =
    delete_many_at-removes hash_ref (λ x. x) (λ x. false) (λ a. a) (λ a. a) 0 1 inserted refl refl
      inserted-IsInStep "e1" "i1"

-- The second of them is shown already, and moves.
abbrev two_elements : List (Hash × Hash)
two_elements = ("i3", "e3") ∷ ("i4", "e1") ∷ []

abbrev low : Ordinal
low = b'g' ∷ []

abbrev one_shown : MutableArray Hash
one_shown = apply (insert_op "i1" "e1" low) (new_array false)

abbrev rebuilt : MutableArray Hash
rebuilt = rebuild (λ a. a) one_shown

abbrev place_of_two : ℕ
place_of_two = place (λ x. x) hash_ref (λ x. false) (λ a. a) (λ a. a) two_elements 0 rebuilt

abbrev with_duplicates : MutableArray Hash
with_duplicates = apply (insert_op "i1" "e1" (b'n' ∷ [])) (new_array true)

push_puts_in_front_example :
    (o : Ordinal) × (push (λ x. x) hash_ref (λ x. false) (λ a. a) (λ a. a) "i2" "e2" with_duplicates
      ≡ (
        insert_one
            (λ x. x)
            hash_ref
            (λ x. false)
            (λ a. a)
            (λ a. a)
            "i2"
            "e2"
            o
            (rebuild (λ a. a) with_duplicates),
        some (ok tt),
      ))
    × Lt o (b'n' ∷ [])
unfolding mutate mutate_insert new_array rebuild show_ordinals show_elements ArrayMap.add
    ArrayMap.get Map.set Map.get Set.has string_discrete
push_puts_in_front_example =
    push_puts_in_front (λ x. x) hash_ref (λ x. false) (λ a. a) (λ a. a) "i2" "e2" with_duplicates
      "e1" [] (b'n' ∷ []) [] refl refl (ground arith) (ground arith) (omega arith, omega arith)
