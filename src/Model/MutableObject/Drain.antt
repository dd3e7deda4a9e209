-- ===== src/Model/MutableObject/Drain.antt =====
-- The loop of src/data/model/mutable/MutableObject.ts over the operations that wait for their
-- predecessors comes to its end, and leaves none that can be applied.
use hyperhyperspace_core.Prelude.{
  ℕ, zero, suc, ◌+◌, ◌≤◌, ◌<◌, Hash, Bool, true, false, List, [], ◌∷◌, Option, none, some, ◌≡◌,
  refl, string_key, length, ltb, arith, same, Bool-cases, inl, inr, ap, subst, sym, ◌∙◌,
}
use hyperhyperspace_core.Js.Map
use hyperhyperspace_core.Js.Map.{JsMap}
use hyperhyperspace_core.Js.Set
use hyperhyperspace_core.Model.Operation.{MutationOp}
use hyperhyperspace_core.Model.MutableObject.{
  MutableObject, can_apply_op, delete_all, apply, note_op,
}
use hyperhyperspace_core.Model.MutableObject.Log.{apply_effect-Effect, apply_fresh, apply_known}
use hyperhyperspace_core.Model.MutableObject.Pending.{
  Loaded, Round, Turn, Pass, arrive, arrive_all, next_arrivals, later_arrivals, turn, apply_ready,
  apply_pending, lock, remove_applied, count, enough,
}

module _ {V : Type 0} where
  length-delete_le : (h : Hash) (m : JsMap Hash V) → length (Map.delete h m) ≤ length m
  unfolding Map.delete
  length-delete_le h [] = omega arith
  length-delete_le h ((g, v) ∷ m) = ground (arith, length-delete_le h m)

  length-delete_lt :
      (h : Hash) (m : JsMap Hash V) → Map.has h m ≡ true → length (Map.delete h m) < length m
  unfolding Map.delete Map.get
  length-delete_lt h [] e = cc
  length-delete_lt h ((g, v) ∷ m) e = ground (arith, length-delete_le h m, length-delete_lt h m)

  length-delete_all : (hs : List Hash) (m : JsMap Hash V) → length (delete_all hs m) ≤ length m
  unfolding delete_all
  length-delete_all [] m = omega arith
  length-delete_all (h ∷ hs) m =
      omega (arith, length-delete_all hs (Map.delete h m), length-delete_le h m)

module _ {T S : Type 0} where
  -- What arrives is added at most once, and nothing that waits is lost.
  record Grown (n : ℕ) (s t : MutableObject T S) : Type 0 where
    bounded : length t.unapplied_ops ≤ n + length s.unapplied_ops
    kept : (h : Hash) → Map.has h s.unapplied_ops ≡ true → Map.has h t.unapplied_ops ≡ true

  arrive-Grown : (l : Loaded T) (s : MutableObject T S) → Grown 1 s (arrive l s)
  unfolding arrive
  arrive-Grown (h, op) s = record {
    bounded = ground (arith, Map.length-set h op s.unapplied_ops);
    kept = λ g e. ground (arith, Map.get-set g h op s.unapplied_ops);
  }

  arrive_all-Grown :
      (ls : List (Loaded T)) (s : MutableObject T S) → Grown (length ls) s (arrive_all ls s)
  unfolding arrive_all
  arrive_all-Grown [] s = record { bounded = omega arith; kept = λ h e. e }
  arrive_all-Grown (l ∷ ls) s =
      let a = arrive-Grown l s in
      let b = arrive_all-Grown ls (arrive l s) in
      record { bounded = omega (arith, a.bounded, b.bounded); kept = λ h e. b.kept h (a.kept h e) }

module _ {T S : Type 0} (hash : MutationOp T → Hash)
    (mutate : MutationOp T → Bool → Bool → S → S × Bool) where
  pub apply-unapplied :
      (op : MutationOp T) (b : Bool) (s : MutableObject T S)
      → (apply hash mutate op b s).0.unapplied_ops ≡ s.unapplied_ops
  unfolding note_op
  apply-unapplied op b s = elim (Bool-cases (Set.has (hash op) s.all_applied_ops)) [
    | inl e ↦ ap (λ z. z.0.unapplied_ops) (apply_known hash mutate op b s e)
    | inr e ↦
        rw (apply_fresh hash mutate op b s e)
          (apply_effect-Effect hash mutate op (note_op hash op b s)).unapplied
  ]

  -- A round that did apply something, the first of them `h`.
  abbrev Started : JsMap Hash (Option (MutationOp T)) → Round T S → Type 0
  Started ps r = (h : Hash) × (hs : List Hash) × (r.to_remove ≡ h ∷ hs) × (Map.has h ps ≡ true)

  record Progress (ps : JsMap Hash (Option (MutationOp T))) (arrivals : List (List (Loaded T)))
      (s : MutableObject T S) (r : Round T S) : Type 0 where
    bounded :
        length r.object.unapplied_ops + count r.arrivals ≤ length s.unapplied_ops + count arrivals
    kept : (h : Hash) → Map.has h s.unapplied_ops ≡ true → Map.has h r.object.unapplied_ops ≡ true
    started : r.go ≡ true → Started ps r

  count-later :
      (arrivals : List (List (Loaded T)))
      → length (next_arrivals arrivals) + count (later_arrivals arrivals) ≡ count arrivals
  unfolding count
  count-later [] = refl
  count-later (ls ∷ lss) = refl

  record Moved (arrivals : List (List (Loaded T))) (s : MutableObject T S) (t : Turn T S)
      : Type 0 where
    bounded :
        length t.object.unapplied_ops + count t.arrivals ≤ length s.unapplied_ops + count arrivals
    kept : (h : Hash) → Map.has h s.unapplied_ops ≡ true → Map.has h t.object.unapplied_ops ≡ true

  turn-Moved :
      (op : MutationOp T) (arrivals : List (List (Loaded T))) (s : MutableObject T S)
      → Moved arrivals s (turn hash mutate op arrivals s)
  unfolding turn
  turn-Moved op arrivals s = elim (Bool-cases (can_apply_op op s)) [
    | inl e ↦
        let a = apply-unapplied op false s in
        let g = arrive_all-Grown (next_arrivals arrivals) (apply hash mutate op false s).0 in
        record {
          bounded = ground (arith, e, ap length a, g.bounded, count-later arrivals);
          kept = λ h k. ground (arith, e, ap (Map.has h) a, g.kept h);
        }
    | inr e ↦ record { bounded = ground (arith, e); kept = λ h k. ground (arith, e) }
  ]

  has-tail :
      (h g : Hash) (v : Option (MutationOp T)) (ps : JsMap Hash (Option (MutationOp T)))
      → Map.has h ps ≡ true
      → Map.has h ((g, v) ∷ ps) ≡ true
  unfolding Map.get
  has-tail h g v ps e = ground arith

  has-head :
      (g : Hash) (v : Option (MutationOp T)) (ps : JsMap Hash (Option (MutationOp T)))
      → Map.has g ((g, v) ∷ ps) ≡ true
  unfolding Map.get
  has-head g v ps = ground arith

  ready-Progress :
      (ps : JsMap Hash (Option (MutationOp T))) (arrivals : List (List (Loaded T)))
      (s : MutableObject T S)
      → Progress ps arrivals s (apply_ready hash mutate ps arrivals s)
  unfolding apply_ready
  ready-Progress [] arrivals s = record {
    bounded = omega arith;
    kept = λ h e. e;
    started = λ e. cc;
  }
  ready-Progress ((h, none) ∷ ps) arrivals s = record {
    bounded = omega arith;
    kept = λ h e. e;
    started = λ e. cc;
  }
  ready-Progress ((h, some op) ∷ ps) arrivals s =
      let t = turn hash mutate op arrivals s in
      let m = turn-Moved op arrivals s in
      let p = ready-Progress ps t.arrivals t.object in
      elim (Bool-cases t.did_apply) [
        | inl e ↦ rw e (record {
          bounded = omega (arith, m.bounded, p.bounded);
          kept = λ h e. p.kept h (m.kept h e);
          started = λ e. (h, _, refl, has-head h (some op) ps);
        })
        | inr e ↦ rw e (record {
          bounded = omega (arith, m.bounded, p.bounded);
          kept = λ h e. p.kept h (m.kept h e);
          started = λ e. let (g, gs, q, k) = p.started e in (g, gs, q, has-tail g h (some op) ps k);
        })
      ]

  -- A round that applied nothing changed nothing, and found nothing that can be applied.
  record Quiet (ps : JsMap Hash (Option (MutationOp T))) (s : MutableObject T S) (r : Round T S)
      : Type 0 where
    unchanged : r.object ≡ s
    none_removed : r.to_remove ≡ []
    none_ready :
        (h : Hash) (op : MutationOp T) → Map.get h ps ≡ some (some op) → can_apply_op op s ≡ false

  not_ready_cons :
      (g : Hash) (v : MutationOp T) (ps : JsMap Hash (Option (MutationOp T)))
      (s : MutableObject T S)
      → can_apply_op v s ≡ false
      → ((h : Hash) (op : MutationOp T) → Map.get h ps ≡ some (some op) → can_apply_op op s ≡ false)
      → (h : Hash) (op : MutationOp T) → Map.get h ((g, some v) ∷ ps) ≡ some (some op)
      → can_apply_op op s ≡ false
  unfolding Map.get
  not_ready_cons g v ps s n rest h op e = elim (same g h) [
    | yes p ↦ ground (arith, n)
    | no p ↦ rest h op (ground arith)
  ]

  turn_idle :
      (op : MutationOp T) (arrivals : List (List (Loaded T))) (s : MutableObject T S)
      → (turn hash mutate op arrivals s).did_apply ≡ false
      → ((turn hash mutate op arrivals s).object ≡ s) × (can_apply_op op s ≡ false)
  unfolding turn
  turn_idle op arrivals s e = ground arith

  ready-Quiet :
      (ps : JsMap Hash (Option (MutationOp T))) (arrivals : List (List (Loaded T)))
      (s : MutableObject T S)
      → (apply_ready hash mutate ps arrivals s).go ≡ false
      → (apply_ready hash mutate ps arrivals s).failed ≡ false
      → Quiet ps s (apply_ready hash mutate ps arrivals s)
  unfolding apply_ready Map.get
  ready-Quiet [] arrivals s g f = record {
    unchanged = refl;
    none_removed = refl;
    none_ready = λ h op e. cc;
  }
  ready-Quiet ((h, none) ∷ ps) arrivals s g f = cc
  ready-Quiet ((h, some op) ∷ ps) arrivals s g f =
      let t = turn hash mutate op arrivals s in
      elim (Bool-cases t.did_apply) [
        | inl e ↦ cc
        | inr e ↦
            let (same_object, unready) = turn_idle op arrivals s e in
            let q = ready-Quiet ps t.arrivals t.object (ground arith) (ground arith) in
            rw e (record {
              unchanged = q.unchanged ∙ same_object;
              none_removed = q.none_removed;
              none_ready =
                  not_ready_cons h op ps s unready (λ j o k.
                    subst (λ z. can_apply_op o z ≡ false) same_object (q.none_ready j o k));
            })
      ]

  can_apply_op_unlocked :
      (op : MutationOp T) (r : Round T S)
      → can_apply_op op (remove_applied r) ≡ can_apply_op op r.object
  unfolding can_apply_op
  can_apply_op_unlocked op r = refl

  shrinks :
      (hs : List Hash) (h : Hash) (rest : List Hash) (m : JsMap Hash (Option (MutationOp T)))
      → hs ≡ h ∷ rest
      → Map.has h m ≡ true
      → length (delete_all hs m) < length m
  unfolding delete_all
  shrinks hs h rest m e k =
      rw e (omega (arith, length-delete_all rest (Map.delete h m), length-delete_lt h m k))

  -- A round that goes on leaves less to do.
  round_shrinks :
      (arrivals : List (List (Loaded T))) (s : MutableObject T S) (r : Round T S)
      → Progress s.unapplied_ops arrivals s r
      → r.go ≡ true
      → length (remove_applied r).unapplied_ops + count r.arrivals
        < length s.unapplied_ops + count arrivals
  round_shrinks arrivals s r p g =
      let (h, hs, e, k) = p.started g in
      omega (arith, p.bounded, shrinks r.to_remove h hs r.object.unapplied_ops e (p.kept h k))

  -- What the loop ends in: the lock is free, and unless it failed nothing that waits can be applied.
  pub record Drained (p : Pass T S) : Type 0 where
    pub unlocked : p.object.apply_ops_locked ≡ false
    pub none_ready :
        p.failed ≡ false
        → (h : Hash) (op : MutationOp T) → Map.get h p.object.unapplied_ops ≡ some (some op)
        → can_apply_op op p.object ≡ false

  abbrev pub EndsDrained : Option (Pass T S) → Type 0
  EndsDrained o = (p : Pass T S) × (o ≡ some p) × Drained p

  lock-Progress :
      (arrivals : List (List (Loaded T))) (s : MutableObject T S) (r : Round T S)
      → Progress s.unapplied_ops arrivals (lock s) r
      → Progress s.unapplied_ops arrivals s r
  lock-Progress arrivals s r p = record { bounded = p.bounded; kept = p.kept; started = p.started }

  not_larger :
      (s : MutableObject T S) (r : Round T S)
      → r.object ≡ lock s
      → ltb (length s.unapplied_ops) (length r.object.unapplied_ops) ≡ false
  not_larger s r e = rw (ap (λ z. length z.unapplied_ops) e) (ground arith)

  none_ready_of_Quiet :
      (s : MutableObject T S) (r : Round T S)
      → Quiet s.unapplied_ops (lock s) r
      → (h : Hash) (op : MutationOp T) → Map.get h (remove_applied r).unapplied_ops ≡ some (some op)
      → can_apply_op op (remove_applied r) ≡ false
  unfolding delete_all
  none_ready_of_Quiet s r q h op e =
      can_apply_op_unlocked op r
      ∙ ap (can_apply_op op) q.unchanged
      ∙ q.none_ready h op (
          ap (Map.get h) (
            sym (
              ap (λ hs. delete_all hs r.object.unapplied_ops) q.none_removed
              ∙ ap (λ z. z.unapplied_ops) q.unchanged))
          ∙ e)

  pub apply_pending-EndsDrained :
      (n : ℕ) (arrivals : List (List (Loaded T))) (s : MutableObject T S)
      → s.apply_ops_locked ≡ false
      → enough arrivals s ≤ n
      → EndsDrained (apply_pending hash mutate n arrivals s)
  unfolding apply_pending enough
  apply_pending-EndsDrained zero arrivals s u b = absurd (omega (arith, b))
  apply_pending-EndsDrained (suc n) arrivals s u b =
      let r = apply_ready hash mutate s.unapplied_ops arrivals (lock s) in
      let p = lock-Progress arrivals s r (ready-Progress s.unapplied_ops arrivals (lock s)) in
      elim (Bool-cases r.failed) [
        | inl f ↦ rw (u, f) (_, refl, record { unlocked = refl; none_ready = λ e. cc })
        | inr f ↦ elim (Bool-cases r.go) [
          | inl g ↦
              rw (u, f, g)
                (apply_pending-EndsDrained n r.arrivals (remove_applied r) refl
                  (omega (arith, round_shrinks arrivals s r p g, b)))
          | inr g ↦
              let q = ready-Quiet s.unapplied_ops arrivals (lock s) g f in
              rw (u, f, g, not_larger s r q.unchanged)
                (_, refl, record { unlocked = refl; none_ready = λ e. none_ready_of_Quiet s r q })
        ]
      ]
