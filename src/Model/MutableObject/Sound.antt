-- ===== src/Model/MutableObject/Sound.antt =====
-- While operations reach an object of src/data/model/mutable/MutableObject.ts from its store, it keeps
-- holding what the operations that it applied make of it.
use hyperhyperspace_core.Prelude.{
  Hash, Bool, true, false, List, [], ◌∷◌, Option, none, some, ◌≡◌, refl, string_key, ite, same,
  Bool-cases, inl, inr, subst, sym, All,
}
use hyperhyperspace_core.Js.Map
use hyperhyperspace_core.Js.Map.{JsMap}
use hyperhyperspace_core.Js.Set
use hyperhyperspace_core.Model.Operation.{MutationOp}
use hyperhyperspace_core.Model.MutableObject.{MutableObject, can_apply_op, delete_all, apply}
use hyperhyperspace_core.Model.MutableObject.Log.{
  Represents, NamesTarget, apply-Represents, apply_known,
}
use hyperhyperspace_core.Model.MutableObject.Pending.{
  Loaded, Round, is_known, arrive, arrive_all, next_arrivals, later_arrivals, turn, apply_ready,
  lock, remove_applied,
}
use hyperhyperspace_core.Model.MutableObject.Drain.{apply-unapplied}

module _ {V : Type 0} (P : Hash × V → Type 0) where
  delete-All : (h : Hash) (m : JsMap Hash V) → All P m → All P (Map.delete h m)
  unfolding Map.delete
  delete-All h [] a = a
  delete-All h ((g, v) ∷ m) a =
      elim (same g h) as (λ z. All P (ite z (Map.delete h m) ((g, v) ∷ Map.delete h m))) [
        | yes p ↦ delete-All h m a.1
        | no p ↦ (a.0, delete-All h m a.1)
      ]

  pub set-All : (h : Hash) (v : V) (m : JsMap Hash V) → P (h, v) → All P m → All P (Map.set h v m)
  unfolding Map.set
  set-All h v [] p a = (p, tt)
  set-All h v ((g, w) ∷ m) p a =
      elim (same g h) as (λ z. All P (ite z ((h, v) ∷ m) ((g, w) ∷ Map.set h v m))) [
        | yes q ↦ (p, a.1)
        | no q ↦ (a.0, set-All h v m p a.1)
      ]

  pub delete_all-All : (hs : List Hash) (m : JsMap Hash V) → All P m → All P (delete_all hs m)
  unfolding delete_all
  delete_all-All [] m a = a
  delete_all-All (h ∷ hs) m a = delete_all-All hs (Map.delete h m) (delete-All h m a)

module _ {T : Type 0} (hash : MutationOp T → Hash) where
  -- The store has the operation, under its hash, and a redo names what it redoes.
  abbrev pub IsDeliverable : Loaded T → Type 0
  IsDeliverable (h, none) = ⊥
  IsDeliverable (h, some op) = (hash op ≡ h) × NamesTarget hash op

  abbrev pub AllDeliverable : JsMap Hash (Option (MutationOp T)) → Type 0
  AllDeliverable = All IsDeliverable

module _ {T S : Type 0} (hash : MutationOp T → Hash) where
  -- The object holds what some operations make of it, one after the other, and all that waits can be
  -- delivered.
  pub record IsSound (s : MutableObject T S) : Type 0 where
    pub log : List (MutationOp T)
    pub represents : Represents hash log s
    pub waiting : AllDeliverable hash s.unapplied_ops

  pub with_unapplied :
      (log : List (MutationOp T)) (m : JsMap Hash (Option (MutationOp T))) (b : Bool)
      (s : MutableObject T S)
      → Represents hash log s
      → Represents hash log (record s { unapplied_ops = m; apply_ops_locked = b })
  with_unapplied log m b s r = record {
    applied = r.applied;
    terminal = r.terminal;
    active = r.active;
    closed = r.closed;
    named = r.named;
  }

  arrive-IsSound :
      (l : Loaded T) (s : MutableObject T S)
      → IsDeliverable hash l
      → IsSound s
      → IsSound (arrive l s)
  unfolding arrive
  arrive-IsSound (h, op) s d i = elim (Bool-cases (is_known h s)) [
    | inl e ↦ rw e i
    | inr e ↦ rw e (record {
      log = i.log;
      represents =
          with_unapplied i.log (Map.set h op s.unapplied_ops) s.apply_ops_locked s i.represents;
      waiting = set-All (IsDeliverable hash) h op s.unapplied_ops d i.waiting;
    })
  ]

  arrive_all-IsSound :
      (ls : List (Loaded T)) (s : MutableObject T S)
      → AllDeliverable hash ls
      → IsSound s
      → IsSound (arrive_all ls s)
  unfolding arrive_all
  arrive_all-IsSound [] s d i = i
  arrive_all-IsSound (l ∷ ls) s d i =
      arrive_all-IsSound ls (arrive l s) d.1 (arrive-IsSound l s d.0 i)

module _ {T S : Type 0} (hash : MutationOp T → Hash)
    (mutate : MutationOp T → Bool → Bool → S → S × Bool) where
  apply-IsSound :
      (op : MutationOp T) (b : Bool) (s : MutableObject T S)
      → can_apply_op op s ≡ true
      → NamesTarget hash op
      → IsSound hash s
      → IsSound hash (apply hash mutate op b s).0
  apply-IsSound op b s c n i = elim (Bool-cases (Set.has (hash op) s.all_applied_ops)) [
    | inl e ↦ subst (λ z. IsSound hash z.0) (sym (apply_known hash mutate op b s e)) i
    | inr e ↦ record {
      log = op ∷ i.log;
      represents = apply-Represents hash mutate op b i.log s i.represents e c n;
      waiting = subst (AllDeliverable hash) (sym (apply-unapplied hash mutate op b s)) i.waiting;
    }
  ]

  next_deliverable :
      (arrivals : List (List (Loaded T)))
      → All (AllDeliverable hash) arrivals
      → AllDeliverable hash (next_arrivals arrivals)
  next_deliverable [] d = tt
  next_deliverable (ls ∷ lss) d = d.0

  later_deliverable :
      (arrivals : List (List (Loaded T)))
      → All (AllDeliverable hash) arrivals
      → All (AllDeliverable hash) (later_arrivals arrivals)
  later_deliverable [] d = tt
  later_deliverable (ls ∷ lss) d = d.1

  turn-IsSound :
      (op : MutationOp T) (arrivals : List (List (Loaded T))) (s : MutableObject T S)
      → NamesTarget hash op
      → All (AllDeliverable hash) arrivals
      → IsSound hash s
      → IsSound hash (turn hash mutate op arrivals s).object
        × All (AllDeliverable hash) (turn hash mutate op arrivals s).arrivals
  unfolding turn
  turn-IsSound op arrivals s n d i = elim (Bool-cases (can_apply_op op s)) [
    | inl e ↦ rw e (
      arrive_all-IsSound hash (next_arrivals arrivals) _ (next_deliverable arrivals d)
          (apply-IsSound op false s e n i),
      later_deliverable arrivals d,
    )
    | inr e ↦ rw e (i, d)
  ]

  -- A round that does not fail and ends in a sound object.
  abbrev pub SoundRound : Round T S → Type 0
  SoundRound r = (r.failed ≡ false) × IsSound hash r.object × All (AllDeliverable hash) r.arrivals

  pub ready-SoundRound :
      (ps : JsMap Hash (Option (MutationOp T))) (arrivals : List (List (Loaded T)))
      (s : MutableObject T S)
      → AllDeliverable hash ps
      → All (AllDeliverable hash) arrivals
      → IsSound hash s
      → SoundRound (apply_ready hash mutate ps arrivals s)
  unfolding apply_ready
  ready-SoundRound [] arrivals s p d i = (refl, i, d)
  ready-SoundRound ((h, none) ∷ ps) arrivals s p d i = absurd p.0
  ready-SoundRound ((h, some op) ∷ ps) arrivals s p d i =
      let t = turn hash mutate op arrivals s in
      let (j, e) = turn-IsSound op arrivals s p.0.1 d i in
      let r = ready-SoundRound ps t.arrivals t.object p.1 e j in
      elim (Bool-cases t.did_apply) [ inl e ↦ rw e r | inr e ↦ rw e r ]

  -- The operations that a round applied do not wait any more.
  pub removed-IsSound : (r : Round T S) → IsSound hash r.object → IsSound hash (remove_applied r)
  removed-IsSound r i =
      let m = delete_all r.to_remove r.object.unapplied_ops in
      record {
        log = i.log;
        represents = with_unapplied hash i.log m false r.object i.represents;
        waiting = delete_all-All (IsDeliverable hash) r.to_remove r.object.unapplied_ops i.waiting;
      }

  pub lock-IsSound : (s : MutableObject T S) → IsSound hash s → IsSound hash (lock s)
  lock-IsSound s i = record {
    log = i.log;
    represents = with_unapplied hash i.log s.unapplied_ops true s i.represents;
    waiting = i.waiting;
  }
