-- ===== src/Model/MutableObject/Converge.antt =====
-- Replicas of an object of src/data/model/mutable/MutableObject.ts that apply the same operations,
-- each in an order that respects causality. A list of operations has the last one first.
use mathlib.Core.List.{Perm}
use hyperhyperspace_core.Prelude.{
  Hash, String, Bool, true, false, List, [], ◌∷◌, ◌≡◌, ◌↔◌, refl, string_key, any, any-perm, arith,
  sym, ◌∙◌,
}
use hyperhyperspace_core.Js.Map
use hyperhyperspace_core.Js.Set
use hyperhyperspace_core.Js.Set.{JsSet}
use hyperhyperspace_core.Util.MultiMap
use hyperhyperspace_core.Util.MultiMap.Laws
use hyperhyperspace_core.Model.Operation.{MutationOp, get_prev_ops}
use hyperhyperspace_core.Model.MutableObject.{
  MutableObject, new_object, has_all, is_valid_op, can_apply_op, apply,
}
use hyperhyperspace_core.Model.MutableObject.Validity.{
  has_of_valid, valid_of_has, is_valid_op_agree,
}
use hyperhyperspace_core.Model.MutableObject.Log.{
  is_op, follows, undoes, redoes, NamesTarget, Represents, apply-Represents,
}

has_all_of :
    (hs : List Hash) (s : JsSet Hash)
    → ((h : Hash) → Set.has h hs ≡ true → Set.has h s ≡ true)
    → has_all hs s ≡ true
unfolding has_all Set.has
has_all_of [] s f = refl
has_all_of (h ∷ hs) s f =
    ground (arith, f h (Set.has-head h hs), has_all_of hs s (λ g e. f g (ground (arith, e))))

module _ {T S : Type 0} (hash : MutationOp T → Hash)
    (mutate : MutationOp T → Bool → Bool → S → S × Bool) where
  unfoldable pub run : List (MutationOp T) → MutableObject T S → MutableObject T S
  unfolding apply
  run [] s = s
  run (op ∷ ops) s = (apply hash mutate op false (run ops s)).0

module _ {T : Type 0} (hash : MutationOp T → Hash) where
  -- Each operation is a new one, follows operations that were applied before it, and names what it
  -- redoes.
  pub record Comes (op : MutationOp T) (ops : List (MutationOp T)) : Type 0 where
    pub named : NamesTarget hash op
    pub is_new : any (is_op hash (hash op)) ops ≡ false
    pub ready : (h : Hash) → follows hash h op ≡ true → any (is_op hash h) ops ≡ true

  abbrev pub IsCausal : List (MutationOp T) → Type 0
  IsCausal [] = Unit
  IsCausal (op ∷ ops) = Comes op ops × IsCausal ops

module _ {T S : Type 0} (hash : MutationOp T → Hash)
    (mutate : MutationOp T → Bool → Bool → S → S × Bool) (object : Hash) (classes : List String)
    (initial : S) where
  pub new-Represents : Represents hash [] (new_object {T = T} object classes initial)
  unfolding new_object Set.has Map.get
  new-Represents = record {
    applied = λ h. refl;
    terminal = λ h. refl;
    active = λ t u. Laws.has-empty t u;
    closed = λ h e. cc;
    named = λ t u e. cc;
  }

  abbrev pub replica : List (MutationOp T) → MutableObject T S
  replica ops = run hash mutate ops (new_object object classes initial)

  ready_of_Comes :
      (op : MutationOp T) (ops : List (MutationOp T)) (s : MutableObject T S)
      → Represents hash ops s
      → Comes hash op ops
      → can_apply_op op s ≡ true
  unfolding can_apply_op follows
  ready_of_Comes op ops s r c =
      has_all_of (get_prev_ops op) s.all_applied_ops (λ h e. r.applied h ∙ c.ready h e)

  -- After operations each of which is a new one, comes after its predecessors, and names what it
  -- redoes, the applied operations are these, the terminal ones are those that no operation names
  -- as a predecessor, and the active undos are those that no redo targets.
  pub run-Represents :
      (ops : List (MutationOp T)) → IsCausal hash ops → Represents hash ops (replica ops)
  unfolding run
  run-Represents [] c = new-Represents
  run-Represents (op ∷ ops) c =
      let r = run-Represents ops c.1 in
      apply-Represents hash mutate op false ops (replica ops) r (r.applied (hash op) ∙ c.0.is_new)
        (ready_of_Comes op ops (replica ops) r c.0) c.0.named

  -- After operations each of which is a new one, comes after its predecessors, and names what it
  -- redoes, an operation is valid exactly if every undo of it that was applied was redone.
  pub valid_iff :
      (ops : List (MutationOp T)) (t : Hash)
      → IsCausal hash ops
      → (is_valid_op t (replica ops) ≡ true)
        ↔ ((u : Hash) → any (undoes hash t u) ops ≡ true → any (redoes hash t u) ops ≡ true)
  valid_iff ops t c =
      let r = run-Represents ops c in
      (
        (λ v u e. ground (arith, r.active t u, has_of_valid t u (replica ops) v)),
        λ f. valid_of_has t (replica ops) (λ u. ground (arith, r.active t u, f u)),
      )

  module _ (ops ops' : List (MutationOp T)) (p : Perm ops ops') (c : IsCausal hash ops)
      (d : IsCausal hash ops') where
    active_agree :
        (t u : Hash)
        → MultiMap.has t u (replica ops).active_casc_invs_per_op
          ≡ MultiMap.has t u (replica ops').active_casc_invs_per_op
    active_agree t u = ground (
      arith,
      (run-Represents ops c).active t u,
      (run-Represents ops' d).active t u,
      any-perm (undoes hash t u) p,
      any-perm (redoes hash t u) p,
    )

    -- Two replicas of a mutable object that apply the same operations, each in an order in which
    -- every operation is a new one, comes after those it names as predecessors, and is, if it is
    -- a redo, after the undo it redoes as its predecessor, have the same applied operations and
    -- the same terminal ones, and agree on which operations are valid.
    pub replicas_agree :
        (h : Hash)
        → (Set.has h (replica ops).all_applied_ops ≡ Set.has h (replica ops').all_applied_ops)
          × (Map.has h (replica ops).terminal_ops ≡ Map.has h (replica ops').terminal_ops)
          × (is_valid_op h (replica ops) ≡ is_valid_op h (replica ops'))
    replicas_agree h =
        let r = run-Represents ops c in
        let q = run-Represents ops' d in
        (
          r.applied h ∙ any-perm (is_op hash h) p ∙ sym (q.applied h),
          ground (
            arith,
            r.terminal h,
            q.terminal h,
            any-perm (is_op hash h) p,
            any-perm (follows hash h) p,
          ),
          is_valid_op_agree h (replica ops) (replica ops') (active_agree h),
        )
