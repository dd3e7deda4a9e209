-- ===== src/Model/MutableObject/Pending.antt =====
-- The operations of an object of src/data/model/mutable/MutableObject.ts that arrive from its store
-- and wait for their predecessors. While an operation is applied, others may arrive: they are the
-- lists in `arrivals`, one for each `await` of an application. The test that an operation is not known
-- and its load from the store are one step here. The pass over the pending operations is not awaited
-- where it is started: a pass that fails is a promise that is rejected, and the call itself returns.
use hyperhyperspace_core.Prelude.{
  ℕ, zero, suc, ◌+◌, Hash, Bool, true, false, List, [], ◌∷◌, Option, none, some, ◌||◌, string_key,
  length, ltb, if◌then◌else◌,
}
use hyperhyperspace_core.Js.Map
use hyperhyperspace_core.Js.Map.{JsMap}
use hyperhyperspace_core.Js.Set
use hyperhyperspace_core.Model.Operation.{MutationOp}
use hyperhyperspace_core.Model.MutableObject.{MutableObject, can_apply_op, delete_all, apply}

-- A hash with the operation that the store loads for it.
abbrev pub Loaded : Type 0 → Type 0
Loaded T = Hash × Option (MutationOp T)

-- What a pass over the pending operations ends in. `failed` if it came to one that is `undefined`,
-- whose `getPrevOps` throws.
pub record Round (T S : Type 0) : Type 0 where
  pub object : MutableObject T S
  pub arrivals : List (List (Loaded T))
  pub to_remove : List Hash
  pub go : Bool
  pub failed : Bool

pub record Turn (T S : Type 0) : Type 0 where
  pub object : MutableObject T S
  pub arrivals : List (List (Loaded T))
  pub did_apply : Bool

-- What the loop ends in.
pub record Pass (T S : Type 0) : Type 0 where
  pub object : MutableObject T S
  pub arrivals : List (List (Loaded T))
  pub failed : Bool

abbrev pub next_arrivals : {T : Type 0} → List (List (Loaded T)) → List (Loaded T)
next_arrivals [] = []
next_arrivals (ls ∷ lss) = ls

abbrev pub later_arrivals : {T : Type 0} → List (List (Loaded T)) → List (List (Loaded T))
later_arrivals [] = []
later_arrivals (ls ∷ lss) = lss

-- The operations that are still to arrive.
unfoldable pub count : {T : Type 0} → List (List (Loaded T)) → ℕ
count [] = 0
count (ls ∷ lss) = length ls + count lss

module _ {T S : Type 0} where
  abbrev pub is_known : Hash → MutableObject T S → Bool
  is_known h s = Set.has h s.all_applied_ops || Map.has h s.unapplied_ops

  -- `applyOpFromStore` while the lock is held.
  unfoldable pub arrive : Loaded T → MutableObject T S → MutableObject T S
  arrive (h, op) s =
      if is_known h s then s else record s { unapplied_ops = Map.set h op s.unapplied_ops }

  unfoldable pub arrive_all : List (Loaded T) → MutableObject T S → MutableObject T S
  unfolding arrive
  arrive_all [] s = s
  arrive_all (l ∷ ls) s = arrive_all ls (arrive l s)

  abbrev pub lock : MutableObject T S → MutableObject T S
  lock s = record s { apply_ops_locked = true }

  abbrev pub unlock : MutableObject T S → MutableObject T S
  unlock s = record s { apply_ops_locked = false }

  abbrev pub remove_applied : Round T S → MutableObject T S
  remove_applied r = record r.object {
    unapplied_ops = delete_all r.to_remove r.object.unapplied_ops;
    apply_ops_locked = false;
  }

  -- Fuel that is enough.
  unfoldable pub enough : List (List (Loaded T)) → MutableObject T S → ℕ
  unfolding count
  enough arrivals s = suc (length s.unapplied_ops + count arrivals)

module _ {T S : Type 0} (hash : MutationOp T → Hash)
    (mutate : MutationOp T → Bool → Bool → S → S × Bool) where
  -- One turn of the loop over the pending operations.
  unfoldable pub turn : MutationOp T → List (List (Loaded T)) → MutableObject T S → Turn T S
  unfolding can_apply_op apply arrive_all
  turn op arrivals s =
      if can_apply_op op s
      then record {
        object = arrive_all (next_arrivals arrivals) (apply hash mutate op false s).0;
        arrivals = later_arrivals arrivals;
        did_apply = true;
      }
      else record { object = s; arrivals = arrivals; did_apply = false }

  -- The loop over the pending operations.
  unfoldable pub apply_ready :
      JsMap Hash (Option (MutationOp T)) → List (List (Loaded T)) → MutableObject T S → Round T S
  unfolding turn
  apply_ready [] arrivals s = record {
    object = s;
    arrivals = arrivals;
    to_remove = [];
    go = false;
    failed = false;
  }
  apply_ready ((h, none) ∷ ps) arrivals s = record {
    object = s;
    arrivals = arrivals;
    to_remove = [];
    go = false;
    failed = true;
  }
  apply_ready ((h, some op) ∷ ps) arrivals s =
      let t = turn op arrivals s in
      let rest = apply_ready ps t.arrivals t.object in
      if t.did_apply then record rest { to_remove = h ∷ rest.to_remove; go = true } else rest

  -- `applyPendingOpsFromStore`, on fuel.
  unfoldable pub apply_pending : ℕ → List (List (Loaded T)) → MutableObject T S → Option (Pass T S)
  unfolding apply_ready delete_all
  apply_pending zero arrivals s = none
  apply_pending (suc n) arrivals s =
      let r = apply_ready s.unapplied_ops arrivals (lock s) in
      let again = apply_pending n r.arrivals (remove_applied r) in
      if s.apply_ops_locked
      then some (record { object = s; arrivals = arrivals; failed = false })
      else if r.failed
      then some (record { object = unlock r.object; arrivals = r.arrivals; failed = true })
      else if r.go || ltb (length s.unapplied_ops) (length r.object.unapplied_ops)
      then again
      else some (record { object = remove_applied r; arrivals = r.arrivals; failed = false })

  -- `applyOpFromStore`, with what the store loads, and the pass that it starts.
  unfoldable pub apply_op_from_store :
      Loaded T → List (List (Loaded T)) → MutableObject T S → Option (Pass T S)
  unfolding enough apply_pending
  apply_op_from_store (h, op) arrivals s =
      if is_known h s
      then some (record { object = s; arrivals = arrivals; failed = false })
      else let t = record s { unapplied_ops = Map.set h op s.unapplied_ops } in
        apply_pending (enough arrivals t) arrivals t
