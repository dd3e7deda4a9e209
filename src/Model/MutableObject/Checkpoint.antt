-- ===== src/Model/MutableObject/Checkpoint.antt =====
-- Checkpoints and the saving of operations of src/data/model/mutable/MutableObject.ts. The store and
-- the export of the state that a class adds are parameters.
use hyperhyperspace_core.Prelude.{
  ℕ, Hash, Bool, true, false, List, [], ◌∷◌, Option, none, some, ite, same, string_key,
  if◌then◌else◌, Result, ok, throws, ◌>>=◌, length, ◌==◌,
}
use hyperhyperspace_core.Js.Map
use hyperhyperspace_core.Js.Map.{JsMap}
use hyperhyperspace_core.Util.MultiMap
use hyperhyperspace_core.Util.MultiMap.{MultiMap, copy_set}
use hyperhyperspace_core.Model.Operation.{MutationOp}
use hyperhyperspace_core.Model.MutableObject.{MutableObject}

-- `X` is the type of what a class exports.
pub record StateCheckpoint (X : Type 0) : Type 0 where
  pub mutable_object : Hash
  pub terminal_op_hashes : List Hash
  pub last_loaded_op_hash : Option Hash
  pub loaded_op_count : ℕ
  pub all_applied_ops : List Hash
  pub active_casc_invs_per_op : List (Hash × List Hash)
  pub exported_state : X

pub data CheckpointError : Type 0 where
  for_another_object missing_op : CheckpointError

unfoldable pub create_checkpoint :
    {T S X : Type 0} → (S → X) → MutableObject T S → StateCheckpoint X
create_checkpoint export s = record {
  mutable_object = s.last_hash;
  terminal_op_hashes = Map.keys s.terminal_ops;
  last_loaded_op_hash = s.last_loaded_op_hash;
  loaded_op_count = s.loaded_op_count;
  all_applied_ops = s.all_applied_ops;
  active_casc_invs_per_op = s.active_casc_invs_per_op.inner;
  exported_state = export s.contents;
}

-- The loops that add the entries of a checkpoint.
unfoldable pub add_entries : List (Hash × List Hash) → MultiMap Hash Hash → MultiMap Hash Hash
unfolding MultiMap.add_many
add_entries [] m = m
add_entries ((k, vs) ∷ es) m = add_entries es (MultiMap.add_many k vs m)

module _ {T : Type 0} (hash : MutationOp T → Hash) (load : Hash → Option (MutationOp T)) where
  -- The search of `loadOp` among the operations that are not saved.
  unfoldable pub find_unsaved : Hash → List (MutationOp T) → Option (MutationOp T)
  find_unsaved h [] = load h
  find_unsaved h (op ∷ ops) = ite (same (hash op) h) (some op) (find_unsaved h ops)

module _ {T S : Type 0} (hash : MutationOp T → Hash) (load : Hash → Option (MutationOp T)) where
  unfoldable pub load_op : Hash → MutableObject T S → Option (MutationOp T)
  unfolding find_unsaved
  load_op h s = find_unsaved hash load h s.unsaved_ops

  unfoldable pub load_terminal_ops :
      List Hash
      → MutableObject T S
      → JsMap Hash (MutationOp T)
      → Result CheckpointError (JsMap Hash (MutationOp T))
  unfolding load_op
  load_terminal_ops [] s m = ok m
  load_terminal_ops (h ∷ hs) s m = elim (load_op h s) [
    | none ↦ throws missing_op
    | some op ↦ load_terminal_ops hs s (Map.set h op m)
  ]

  -- `import` is `importMutableState`. The resources of the contents and the event of the restoration
  -- are left out.
  unfoldable pub restore_checkpoint :
      {X : Type 0}
      → (X → S → S)
      → StateCheckpoint X
      → MutableObject T S
      → Result CheckpointError (MutableObject T S)
  unfolding load_terminal_ops add_entries MultiMap.empty copy_set
  restore_checkpoint import c s =
      if ite (same s.last_hash c.mutable_object) true false
      then (load_terminal_ops c.terminal_op_hashes s [] >>= λ terminal. ok (record s {
        terminal_ops = terminal;
        all_applied_ops = copy_set c.all_applied_ops [];
        active_casc_invs_per_op = add_entries c.active_casc_invs_per_op MultiMap.empty;
        last_loaded_op_hash = c.last_loaded_op_hash;
        last_loaded_op_hash_at_checkpoint = c.last_loaded_op_hash;
        loaded_op_count = c.loaded_op_count;
        loaded_op_count_at_checkpoint = some c.loaded_op_count;
        contents = import c.exported_state s.contents;
      }))
      else throws for_another_object

-- What `saveAllChanges` ends in: the store, the operations that are still not saved, and the error
-- of the store if it throws.
pub record Saved (T D E : Type 0) : Type 0 where
  pub store : D
  pub unsaved : List (MutationOp T)
  pub error : Option E

module _ {T D E : Type 0} (save : MutationOp T → D → Result E D) where
  -- The loop of `saveAllChanges`.
  unfoldable pub save_ops : List (MutationOp T) → D → Saved T D E
  save_ops [] d = record { store = d; unsaved = []; error = none }
  save_ops (op ∷ ops) d = elim (save op d) [
    | ok d' ↦ save_ops ops d'
    | throws e ↦ record { store = d; unsaved = op ∷ ops; error = some e }
  ]

-- The object and the store after `saveAllChanges`, and what it returns.
unfoldable pub save_all_changes :
    {T S D E : Type 0}
    → (MutationOp T → D → Result E D)
    → MutableObject T S
    → D
    → MutableObject T S × D × Result E Bool
unfolding save_ops
save_all_changes save s d =
    let r = save_ops save s.unsaved_ops d in
    (
      record s { unsaved_ops = r.unsaved },
      r.store,
      elim r.error [
        | some e ↦ throws e
        | none ↦ ok (if length s.unsaved_ops == 0 then false else true)
      ],
    )
