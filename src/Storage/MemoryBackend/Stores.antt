-- ===== src/Storage/MemoryBackend/Stores.antt =====
-- What `store` of src/storage/backends/MemoryBackend.ts leaves for the loads.
use hyperhyperspace_core.Prelude.{
  ◌≡◌, refl, Hash, String, true, false, List, [], ◌∷◌, Option, some, string_key, length, arith, ite,
  same, not, ◌&&◌, Option-cases, inl, inr, ap,
}
use hyperhyperspace_core.Js.Map
use hyperhyperspace_core.Js.Set
use hyperhyperspace_core.Util.MultiMap
use hyperhyperspace_core.Util.MultiMap.{MultiMap}
use hyperhyperspace_core.Util.MultiMap.Laws
use hyperhyperspace_core.History.Header.{OpHeader}
use hyperhyperspace_core.Storage.MemoryBackend.{
  MemoryRepr, Literal, Stored, OpFields, Dependency, store, store_object, store_op,
  index_dependencies, load, drop_prev_ops,
}

objects-index_dependencies :
    (hash : Hash) (ds : List Dependency) (r : MemoryRepr)
    → (index_dependencies hash ds r).objects ≡ r.objects
unfolding index_dependencies
objects-index_dependencies hash [] r = refl
objects-index_dependencies hash (d ∷ ds) r = objects-index_dependencies hash ds _

terminal_ops-index_dependencies :
    (hash : Hash) (ds : List Dependency) (r : MemoryRepr)
    → (index_dependencies hash ds r).terminal_ops ≡ r.terminal_ops
unfolding index_dependencies
terminal_ops-index_dependencies hash [] r = refl
terminal_ops-index_dependencies hash (d ∷ ds) r = terminal_ops-index_dependencies hash ds _

objects-store_object :
    (l : Literal) (now : String) (r : MemoryRepr)
    → (store_object l now r).objects
      ≡ Map.set l.hash
          (record { literal = l; timestamp = now; sequence = length r.objects })
          r.objects
unfolding store_object
objects-store_object l now r = objects-index_dependencies l.hash l.dependencies _

terminal_ops-store_object :
    (l : Literal) (now : String) (r : MemoryRepr)
    → (store_object l now r).terminal_ops ≡ r.terminal_ops
unfolding store_object
terminal_ops-store_object l now r = terminal_ops-index_dependencies l.hash l.dependencies _

objects-store :
    (l : Literal) (history : Option OpHeader) (now : String) (r : MemoryRepr)
    → (store l history now r).0.objects ≡ (store_object l now r).objects
unfolding store store_op
objects-store l history now r = elim (Option-cases l.op) [
  | inl e ↦ simp (e, store) refl
  | inr (op, e) ↦ elim (Option-cases history) [
    | inl k ↦ simp (e, k, store) refl
    | inr (header, k) ↦ simp (e, k, store) refl
  ]
]

-- After a literal was stored, the load of its hash gives the literal with the number of objects
-- that were there, and a load of any other hash gives what it gave, also where the store throws
-- since an operation comes without its header.
pub load-store :
    (h : Hash) (l : Literal) (history : Option OpHeader) (now : String) (r : MemoryRepr)
    → load h (store l history now r).0 ≡ ite (same l.hash h) (some (l, length r.objects)) (load h r)
unfolding load
load-store h l history now r =
    let stored : Stored = record { literal = l; timestamp = now; sequence = length r.objects } in
    ground (
      arith,
      objects-store l history now r,
      objects-store_object l now r,
      Map.get-set h l.hash stored r.objects,
    )

-- Whether a prior operation is dropped.
has-drop_prev_ops :
    (t x target : Hash) (ps : List Hash) (m : MultiMap Hash Hash)
    → MultiMap.has t x (drop_prev_ops target ps m)
      ≡ (MultiMap.has t x m && not (ite (same target t) (Set.has x ps) false))
unfolding drop_prev_ops Set.has
has-drop_prev_ops t x target [] m = ground arith
has-drop_prev_ops t x target (p ∷ ps) m = ground (
  arith,
  has-drop_prev_ops t x target ps (MultiMap.delete target p m).0,
  Laws.has-delete t target x p m,
)

-- Once an operation was stored with its header, the terminal operations of its target are itself
-- and those that were terminal and are not among the operations it comes after; those of any
-- other target stay.
pub terminal-store :
    (t x : Hash) (l : Literal) (op : OpFields) (header : OpHeader) (now : String) (r : MemoryRepr)
    → l.op ≡ some op
    → MultiMap.has t x (store l (some header) now r).0.terminal_ops
      ≡ ite
          (same op.target_object t)
          (ite
            (same l.hash x)
            true
            (MultiMap.has t x r.terminal_ops && not (Set.has x op.prev_ops)))
          (MultiMap.has t x r.terminal_ops)
unfolding store store_op
terminal-store t x l op header now r e =
    let dropped = drop_prev_ops op.target_object op.prev_ops (store_object l now r).terminal_ops in
    simp (e, store)
      (ground (
        arith,
        terminal_ops-store_object l now r,
        has-drop_prev_ops t x op.target_object op.prev_ops (store_object l now r).terminal_ops,
        Laws.has-add t op.target_object x l.hash dropped,
        ap (λ y. MultiMap.has y x dropped) {x = op.target_object} {y = t},
        ap (λ y. MultiMap.has t y dropped) {x = l.hash} {y = x},
      ))
