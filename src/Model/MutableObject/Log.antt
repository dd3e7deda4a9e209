-- ===== src/Model/MutableObject/Log.antt =====
-- What an object of src/data/model/mutable/MutableObject.ts holds after the operations of a log.
use hyperhyperspace_core.Prelude.{
  Hash, Bool, true, false, List, [], ◌∷◌, not, ◌&&◌, ◌||◌, ◌≡◌, ite, same, refl, string_key, any,
  arith, subst, ap,
}
use hyperhyperspace_core.Js.Map
use hyperhyperspace_core.Js.Map.{JsMap}
use hyperhyperspace_core.Js.Set
use hyperhyperspace_core.Js.Set.{JsSet}
use hyperhyperspace_core.Util.MultiMap
use hyperhyperspace_core.Util.MultiMap.{MultiMap}
use hyperhyperspace_core.Util.MultiMap.Laws
use hyperhyperspace_core.Model.Operation.{
  MutationOp, plain_op, invalidate_after_op, cascaded_op, get_prev_ops, final_target,
}
use hyperhyperspace_core.Model.MutableObject.{
  MutableObject, has_all, delete_all, can_apply_op, note_op, change_active, apply_mutation,
  apply_cascaded, apply_effect, apply,
}

module _ {T : Type 0} (hash : MutationOp T → Hash) where
  abbrev pub is_op : Hash → MutationOp T → Bool
  is_op h op = ite (same (hash op) h) true false

  -- The operation names the hash as a predecessor.
  unfoldable pub follows : Hash → MutationOp T → Bool
  unfolding get_prev_ops
  follows h op = Set.has h (get_prev_ops op)

  -- The operation is an undo, with the hash `u`, of an operation with the hash `t`.
  unfoldable pub undoes : Hash → Hash → MutationOp T → Bool
  unfolding final_target
  undoes t u (cascaded_op f true target cause) =
      ite (same (hash (final_target target)) t)
        (ite (same (hash (cascaded_op f true target cause)) u) true false) false
  undoes t u _ = false

  -- The operation redoes that undo.
  unfoldable pub redoes : Hash → Hash → MutationOp T → Bool
  unfolding final_target
  redoes t u (cascaded_op f false target cause) =
      ite (same (hash (final_target target)) t) (ite (same (hash target) u) true false) false
  redoes t u _ = false

  -- A redo names what it redoes as a predecessor.
  abbrev pub NamesTarget : MutationOp T → Type 0
  NamesTarget op = (t u : Hash) → redoes t u op ≡ true → follows u op ≡ true

  pub record Represents {S : Type 0} (log : List (MutationOp T)) (s : MutableObject T S)
      : Type 0 where
    pub applied : (h : Hash) → Set.has h s.all_applied_ops ≡ any (is_op h) log
    pub terminal :
        (h : Hash) → Map.has h s.terminal_ops ≡ (any (is_op h) log && not (any (follows h) log))
    pub active :
        (t u : Hash)
        → MultiMap.has t u s.active_casc_invs_per_op
          ≡ (any (undoes t u) log && not (any (redoes t u) log))
    pub closed : (h : Hash) → any (follows h) log ≡ true → any (is_op h) log ≡ true
    pub named : (t u : Hash) → any (redoes t u) log ≡ true → any (follows u) log ≡ true

pub has-delete_all :
    {V : Type 0} (h : Hash) (hs : List Hash) (m : JsMap Hash V)
    → Map.has h (delete_all hs m) ≡ (Map.has h m && not (Set.has h hs))
unfolding delete_all Set.has
has-delete_all h [] m = ground arith
has-delete_all h (g ∷ hs) m =
    ground (arith, has-delete_all h hs (Map.delete g m), Map.get-delete h g m)

has_of_has_all :
    (h : Hash) (hs : List Hash) (s : JsSet Hash)
    → has_all hs s ≡ true
    → Set.has h hs ≡ true
    → Set.has h s ≡ true
unfolding has_all Set.has
has_of_has_all h [] s a e = cc
has_of_has_all h (g ∷ hs) s a e = elim (same g h) [
  | yes p ↦ subst (λ z. Set.has z s ≡ true) p (ground arith)
  | no p ↦ has_of_has_all h hs s (ground arith) (ground arith)
]

module _ {T S : Type 0} (hash : MutationOp T → Hash)
    (mutate : MutationOp T → Bool → Bool → S → S × Bool) where
  -- The undos that are active after an operation.
  unfoldable pub active_after : MutationOp T → MultiMap Hash Hash → MultiMap Hash Hash
  unfolding change_active final_target
  active_after (cascaded_op f undo target cause) m =
      change_active hash undo (hash (cascaded_op f undo target cause)) target (final_target target)
        m
  active_after op m = m

  -- What the effect of an operation leaves as it was.
  pub record Effect (op : MutationOp T) (s t : MutableObject T S) : Type 0 where
    pub applied : t.all_applied_ops ≡ s.all_applied_ops
    pub terminal : t.terminal_ops ≡ s.terminal_ops
    pub unapplied : t.unapplied_ops ≡ s.unapplied_ops
    pub locked : t.apply_ops_locked ≡ s.apply_ops_locked
    pub active : t.active_casc_invs_per_op ≡ active_after op s.active_casc_invs_per_op

  pub apply_effect-Effect :
      (op : MutationOp T) (s : MutableObject T S) → Effect op s (apply_effect hash mutate op s).0
  unfolding apply_effect apply_mutation apply_cascaded active_after
  apply_effect-Effect (plain_op f x) s = record {
    applied = refl;
    terminal = refl;
    unapplied = refl;
    locked = refl;
    active = refl;
  }
  apply_effect-Effect (invalidate_after_op f x) s = record {
    applied = refl;
    terminal = refl;
    unapplied = refl;
    locked = refl;
    active = refl;
  }
  apply_effect-Effect (cascaded_op f u t c) s = record {
    applied = ground arith;
    terminal = ground arith;
    unapplied = ground arith;
    locked = ground arith;
    active = ground arith;
  }

  active-MultiMap :
      (op : MutationOp T) (m : MultiMap Hash Hash) (t u : Hash)
      → MultiMap.has t u (active_after op m)
        ≡ ((MultiMap.has t u m || undoes hash t u op) && not (redoes hash t u op))
  unfolding active_after change_active undoes redoes
  active-MultiMap (plain_op f x) m t u = ground arith
  active-MultiMap (invalidate_after_op f x) m t u = ground arith
  active-MultiMap (cascaded_op f true target c) m t u =
      ground (
        arith,
        Laws.has-add t (hash (final_target target)) u (hash (cascaded_op f true target c)) m,
      )
  active-MultiMap (cascaded_op f false target c) m t u =
      ground (arith, Laws.has-delete t (hash (final_target target)) u (hash target) m)

  pub apply_fresh :
      (op : MutationOp T) (is_new : Bool) (s : MutableObject T S)
      → Set.has (hash op) s.all_applied_ops ≡ false
      → apply hash mutate op is_new s ≡ (
        (apply_effect hash mutate op (note_op hash op is_new s)).0,
        true,
        (apply_effect hash mutate op (note_op hash op is_new s)).1,
      )
  unfolding apply
  apply_fresh op is_new s n = rw n refl

  pub apply_known :
      (op : MutationOp T) (is_new : Bool) (s : MutableObject T S)
      → Set.has (hash op) s.all_applied_ops ≡ true
      → apply hash mutate op is_new s ≡ (s, false, [])
  unfolding apply
  apply_known op is_new s n = rw n refl

  is_op_of_undoes :
      (op : MutationOp T) (t u : Hash) → undoes hash t u op ≡ true → is_op hash u op ≡ true
  unfolding undoes
  is_op_of_undoes (plain_op f x) t u e = cc
  is_op_of_undoes (invalidate_after_op f x) t u e = cc
  is_op_of_undoes (cascaded_op f true target c) t u e = ground arith
  is_op_of_undoes (cascaded_op f false target c) t u e = cc

  module _ (op : MutationOp T) (is_new : Bool) (log : List (MutationOp T)) (s : MutableObject T S)
      (r : Represents hash log s) (fresh : Set.has (hash op) s.all_applied_ops ≡ false)
      (ready : can_apply_op op s ≡ true) (named : NamesTarget hash op) where
    follows_def : (h : Hash) → follows hash h op ≡ Set.has h (get_prev_ops op)
    unfolding follows
    follows_def h = refl

    abbrev ended : MutableObject T S
    ended = (apply hash mutate op is_new s).0

    applied_eq : ended ≡ (apply_effect hash mutate op (note_op hash op is_new s)).0
    applied_eq = ap (λ z. z.0) (apply_fresh op is_new s fresh)

    follows_applied : (h : Hash) → follows hash h op ≡ true → Set.has h s.all_applied_ops ≡ true
    unfolding follows can_apply_op
    follows_applied h e = has_of_has_all h (get_prev_ops op) s.all_applied_ops ready e

    not_followed :
        (h : Hash)
        → is_op hash h op ≡ true
        → (follows hash h op || any (follows hash h) log) ≡ false
    not_followed h e = elim (same (hash op) h) [
      | yes p ↦
          subst (λ z. (follows hash z op || any (follows hash z) log) ≡ false) p
            (ground
              (arith, fresh, follows_applied (hash op), r.closed (hash op), r.applied (hash op)))
      | no p ↦ ground arith
    ]

    not_redone : (t u : Hash) → undoes hash t u op ≡ true → any (redoes hash t u) log ≡ false
    not_redone t u e = ground (arith, not_followed u (is_op_of_undoes op t u e), r.named t u)

    pub apply-Represents : Represents hash (op ∷ log) ended
    unfolding note_op
    apply-Represents =
        let e = apply_effect-Effect op (note_op hash op is_new s) in
        let q = applied_eq in
        record {
          applied = λ h.
              rw (q, e.applied)
                (ground (arith, Set.has-add h (hash op) s.all_applied_ops, r.applied h));
          terminal = λ h.
              rw (q, e.terminal)
                (ground (
                  arith,
                  Map.get-set h (hash op) op (delete_all (get_prev_ops op) s.terminal_ops),
                  has-delete_all h (get_prev_ops op) s.terminal_ops,
                  r.terminal h,
                  not_followed h,
                  follows_def h,
                ));
          active = λ t u.
              rw (q, e.active)
                (ground (
                  arith,
                  active-MultiMap op s.active_casc_invs_per_op t u,
                  r.active t u,
                  not_redone t u,
                ));
          closed = λ h p. ground (arith, r.closed h, follows_applied h, r.applied h);
          named = λ t u p. ground (arith, r.named t u, named t u);
        }
