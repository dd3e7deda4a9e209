-- ===== src/Model/MutableObject/Restore.antt =====
-- An object of src/data/model/mutable/MutableObject.ts that is restored from a checkpoint, and what is
-- left when its operations were saved.
use hyperhyperspace_core.Prelude.{
  Hash, Bool, true, false, List, [], ◌∷◌, ◌++◌, Option, none, some, ◌≡◌, ◌||◌, ite, same, refl,
  string_key, if◌then◌else◌, Result, ok, throws, arith, ap, ◌∙◌, inl, inr, ◌⊎◌, length, ◌==◌,
}
use hyperhyperspace_core.Js.Map
use hyperhyperspace_core.Js.Map.{JsMap}
use hyperhyperspace_core.Js.Set
use hyperhyperspace_core.Js.Set.{JsSet}
use hyperhyperspace_core.Util.MultiMap
use hyperhyperspace_core.Util.MultiMap.{MultiMap, copy_set}
use hyperhyperspace_core.Util.MultiMap.Laws
use hyperhyperspace_core.Util.MultiMap.Clone.{has-copy_set}
use hyperhyperspace_core.Model.Operation.{MutationOp}
use hyperhyperspace_core.Model.MutableObject.{MutableObject, is_valid_op}
use hyperhyperspace_core.Model.MutableObject.Validity.{is_valid_op_agree}
use hyperhyperspace_core.Model.MutableObject.Checkpoint.{
  create_checkpoint, add_entries, load_op, load_terminal_ops, restore_checkpoint, save_ops,
  save_all_changes, Saved,
}

has-add_many :
    (j k w : Hash) (vs : List Hash) (m : MultiMap Hash Hash)
    → MultiMap.has j w (MultiMap.add_many k vs m)
      ≡ (MultiMap.has j w m || ite (same k j) (Set.has w vs) false)
unfolding MultiMap.add_many Set.has
has-add_many j k w [] m = ground arith
has-add_many j k w (v ∷ vs) m =
    ground (arith, has-add_many j k w vs (MultiMap.add k v m), Laws.has-add j k w v m)

-- The pair is among the entries.
unfoldable in_entries : Hash → Hash → List (Hash × List Hash) → Bool
unfolding Map.get
in_entries j w es = elim (Map.get j es) [ none ↦ false | some vs ↦ Set.has w vs ]

has-add_entries :
    (j w : Hash) (es : List (Hash × List Hash)) (m : MultiMap Hash Hash)
    → Map.IsDistinct es
    → MultiMap.has j w (add_entries es m) ≡ (MultiMap.has j w m || in_entries j w es)
unfolding add_entries in_entries Map.get
has-add_entries j w [] m d = ground arith
has-add_entries j w ((k, vs) ∷ es) m d = ground (
  arith,
  has-add_entries j w es (MultiMap.add_many k vs m) d.1,
  has-add_many j k w vs m,
  ap (λ z. z) d.0,
)

get_tail :
    {T : Type 0} (g : Hash) (op : MutationOp T) (ps : JsMap Hash (MutationOp T))
    → Map.get g ps ≡ none
    → (h : Hash) (o : MutationOp T) → Map.get h ps ≡ some o
    → Map.get h ((g, op) ∷ ps) ≡ some o
unfolding Map.get
get_tail g op ps n h o q = ground (arith, n, q)

same_test : (a b : Hash) → a ≡ b → ite (same a b) true false ≡ true
same_test a b e = ground arith

get_present :
    {T : Type 0} (h : Hash) (m : JsMap Hash (MutationOp T))
    → (if Map.has h m then Map.get h m else Map.get h []) ≡ Map.get h m
get_present {T} h m = ground (arith, Map.get-nil {V = MutationOp T} h)

module _ {T S : Type 0} (hash : MutationOp T → Hash) (load : Hash → Option (MutationOp T)) where
  -- Every terminal operation of `s` can be loaded into `t`.
  abbrev pub CanLoad : JsMap Hash (MutationOp T) → MutableObject T S → Type 0
  CanLoad m t =
      (h : Hash) (op : MutationOp T) → Map.get h m ≡ some op → load_op hash load h t ≡ some op

  -- All keys of a list are loaded as the map has them.
  loaded :
      (ps m : JsMap Hash (MutationOp T)) (t : MutableObject T S)
      → CanLoad ps t
      → Map.IsDistinct ps
      → (r : JsMap Hash (MutationOp T)) × (load_terminal_ops hash load (Map.keys ps) t m ≡ ok r)
        × ((h : Hash) → Map.get h r ≡ (if Map.has h ps then Map.get h ps else Map.get h m))
  unfolding load_terminal_ops Map.get
  loaded [] m t c d = (m, refl, λ h. refl)
  loaded ((g, op) ∷ ps) m t c d =
      let (r, e, k) =
        loaded ps (Map.set g op m) t (λ h o q. c h o (get_tail g op ps d.0 h o q)) d.1 in
      (
        r,
        rw (c g op (ground arith), load_terminal_ops) e,
        λ h. ground (arith, k h, Map.get-set h g op m, d.0),
      )

-- What an object has in common with one that it was restored from.
pub record IsRestored {T S : Type 0} (s u : MutableObject T S) : Type 0 where
  pub terminal : (h : Hash) → Map.get h u.terminal_ops ≡ Map.get h s.terminal_ops
  pub applied : (h : Hash) → Set.has h u.all_applied_ops ≡ Set.has h s.all_applied_ops
  pub valid : (h : Hash) → is_valid_op h u ≡ is_valid_op h s
  pub contents : u.contents ≡ s.contents
  pub last_loaded : u.last_loaded_op_hash ≡ s.last_loaded_op_hash
  pub loaded_count : u.loaded_op_count ≡ s.loaded_op_count

module _ {T S X : Type 0} (hash : MutationOp T → Hash) (load : Hash → Option (MutationOp T))
    (export : S → X) (import : X → S → S) (imports : (c d : S) → import (export c) d ≡ c) where
  active_restored :
      (s : MutableObject T S) (u : MutableObject T S)
      → Map.IsDistinct s.active_casc_invs_per_op.inner
      → u.active_casc_invs_per_op ≡ add_entries s.active_casc_invs_per_op.inner MultiMap.empty
      → (h w : Hash)
      → MultiMap.has h w u.active_casc_invs_per_op ≡ MultiMap.has h w s.active_casc_invs_per_op
  unfolding MultiMap.has in_entries
  active_restored s u d e h w =
      ap (MultiMap.has h w) e
      ∙ has-add_entries h w s.active_casc_invs_per_op.inner MultiMap.empty d
      ∙ ground (arith, Laws.has-empty {K = Hash} {V = Hash} h w)

  -- If the import of an exported state gives that state, an object with the hash of another one
  -- that can load the terminal operations of it and is restored from its checkpoint has its
  -- terminal and applied operations, agrees with it on which are valid, and has its state and
  -- what it counted of the store, if no key of the terminal operations and of the active undos
  -- stands twice.
  pub restore-create :
      (s t : MutableObject T S)
      → t.last_hash ≡ s.last_hash
      → CanLoad hash load s.terminal_ops t
      → Map.IsDistinct s.terminal_ops
      → Map.IsDistinct s.active_casc_invs_per_op.inner
      → (u : MutableObject T S) × (restore_checkpoint hash load import
            (create_checkpoint export s)
            t
          ≡ ok u)
        × IsRestored s u
  unfolding restore_checkpoint create_checkpoint
  restore-create s t same_hash can d d' =
      let (r, e, k) = loaded hash load s.terminal_ops [] t can d in
      let u : MutableObject T S = record t {
        terminal_ops = r;
        all_applied_ops = copy_set s.all_applied_ops [];
        active_casc_invs_per_op = add_entries s.active_casc_invs_per_op.inner MultiMap.empty;
        last_loaded_op_hash = s.last_loaded_op_hash;
        last_loaded_op_hash_at_checkpoint = s.last_loaded_op_hash;
        loaded_op_count = s.loaded_op_count;
        loaded_op_count_at_checkpoint = some s.loaded_op_count;
        contents = import (export s.contents) t.contents;
      } in
      (
        u,
        rw (same_test t.last_hash s.last_hash same_hash, e) refl,
        record {
          terminal = λ h. k h ∙ get_present h s.terminal_ops;
          applied = λ h. has-copy_set h s.all_applied_ops [] ∙ ground (arith, Set.has-nil h);
          valid = λ h. is_valid_op_agree h u s (active_restored s u d' refl h);
          contents = imports s.contents t.contents;
          last_loaded = refl;
          loaded_count = refl;
        },
      )

outcome : {E D : Type 0} (r : Result E D) → ((d : D) × (r ≡ ok d)) ⊎ ((e : E) × (r ≡ throws e))
outcome (ok d) = inl (d, refl)
outcome (throws e) = inr (e, refl)

module _ {T D E : Type 0} (save : MutationOp T → D → Result E D) where
  -- The store after some operations, if it takes all of them.
  unfoldable pub save_each : List (MutationOp T) → D → Result E D
  save_each [] d = ok d
  save_each (op ∷ ops) d = elim (save op d) [ ok d' ↦ save_each ops d' | throws e ↦ throws e ]

  -- The operations that are left are none, or begin with the one that the store does not take.
  abbrev pub Left : Option E → List (MutationOp T) → D → Type 0
  Left none ops d = ops ≡ []
  Left (some e) ops d =
      (op : MutationOp T) × (rest : List (MutationOp T)) × (ops ≡ op ∷ rest)
      × (save op d ≡ throws e)

  abbrev pub SavesFirst : List (MutationOp T) → D → Saved T D E → Type 0
  SavesFirst ops d r =
      (done : List (MutationOp T)) × (done ++ r.unsaved ≡ ops)
      × (save_each done d ≡ ok r.store)
      × Left r.error r.unsaved r.store

  save_step :
      (op : MutationOp T) (done : List (MutationOp T)) (d d' x : D)
      → save op d ≡ ok d'
      → save_each done d' ≡ ok x
      → save_each (op ∷ done) d ≡ ok x
  unfolding save_each
  save_step op done d d' x e f = rw (e, save_each) f

  save_result :
      (op : MutationOp T) (d : D)
      → ((d' : D) × (save op d ≡ ok d')) ⊎ ((e : E) × (save op d ≡ throws e))
  save_result op d = outcome (save op d)

  save_ops-SavesFirst : (ops : List (MutationOp T)) (d : D) → SavesFirst ops d (save_ops save ops d)
  unfolding save_ops save_each
  save_ops-SavesFirst [] d = ([], refl, refl, refl)
  save_ops-SavesFirst (op ∷ ops) d = elim (save_result op d) [
    | inl (d', e) ↦
        let (done, p, q, l) = save_ops-SavesFirst ops d' in
        rw (e, save_ops) (op ∷ done, ap (◌∷◌ op) p, save_step op done d d' _ e q, l)
    | inr (x, e) ↦ rw (e, save_ops) ([], refl, refl, (op, ops, refl, e))
  ]

  -- When the changes of an object are saved, the store takes a first part of the operations that
  -- are not saved, in their order, and the rest stay unsaved; if the store throws the call throws
  -- the same, and the first of the rest is the one that the store does not take; otherwise none
  -- is left, and the call tells whether there were any.
  pub save_all_changes-Left :
      {S : Type 0} (s : MutableObject T S) (d : D)
      → (done : List (MutationOp T)) × (done ++ (save_all_changes save s d).0.unsaved_ops
          ≡ s.unsaved_ops)
        × (save_each done d ≡ ok (save_all_changes save s d).1)
        × ((e : Option E) × Left e
              (save_all_changes save s d).0.unsaved_ops
              (save_all_changes save s d).1
            × ((save_all_changes save s d).2 ≡ elim e [
              | some x ↦ throws x
              | none ↦ ok (if length s.unsaved_ops == 0 then false else true)
            ]))
  unfolding save_all_changes
  save_all_changes-Left s d =
      let (done, p, q, l) = save_ops-SavesFirst s.unsaved_ops d in
      (done, p, q, ((save_ops save s.unsaved_ops d).error, l, refl))
