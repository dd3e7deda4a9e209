-- ===== src/Model/MutableObject/Deliver.antt =====
-- Operations that reach an object of src/data/model/mutable/MutableObject.ts from its store: the
-- object keeps representing those that it applied, and none that is ready is left waiting.
use hyperhyperspace_core.Prelude.{
  ℕ, zero, suc, Hash, Bool, true, false, List, [], ◌∷◌, Option, none, some, ◌||◌, ◌≡◌, refl,
  string_key, length, ltb, arith, Bool-cases, inl, inr, ap, subst, ◌∙◌, All, ◌⊎◌,
}
use hyperhyperspace_core.Js.Map
use hyperhyperspace_core.Js.Map.{JsMap}
use hyperhyperspace_core.Js.Set
use hyperhyperspace_core.Model.Operation.{MutationOp}
use hyperhyperspace_core.Model.MutableObject.{MutableObject, can_apply_op}
use hyperhyperspace_core.Model.MutableObject.Pending.{
  Loaded, Pass, is_known, apply_ready, apply_pending, lock, unlock, remove_applied, enough,
  apply_op_from_store,
}
use hyperhyperspace_core.Model.MutableObject.Drain.{EndsDrained, apply_pending-EndsDrained}
use hyperhyperspace_core.Model.MutableObject.Sound.{
  IsDeliverable, AllDeliverable, IsSound, with_unapplied, set-All, ready-SoundRound,
  removed-IsSound, lock-IsSound,
}
use hyperhyperspace_core.Model.MutableObject.Arrived.{
  Accepts, Accepts-none, Accepts-trans, ready-Accepts,
}
use hyperhyperspace_core.Model.MutableObject.Carried.{
  Carries, Carries-refl, Carries-trans, can_apply_op-Carries, remove-Carries, IsKeyed,
  ready-Carries,
}

module _ {T S : Type 0} (hash : MutationOp T → Hash)
    (mutate : MutationOp T → Bool → Bool → S → S × Bool) where
  abbrev SoundEnd : List (List (Loaded T)) → MutableObject T S → Option (Pass T S) → Type 0
  SoundEnd arrivals s none = Unit
  SoundEnd arrivals s (some p) =
      (p.failed ≡ false)
      × IsSound hash p.object
      × Carries s p.object
      × Accepts arrivals p.arrivals p.object

  Carries-SoundEnd :
      (ls ms : List (List (Loaded T))) (s t : MutableObject T S) (o : Option (Pass T S))
      → Carries s t
      → Accepts ls ms t
      → SoundEnd ms t o
      → SoundEnd ls s o
  Carries-SoundEnd ls ms s t none c a e = tt
  Carries-SoundEnd ls ms s t (some p) c a (f, i, d, b) =
      (f, i, Carries-trans s t p.object c d, Accepts-trans ls ms p.arrivals t p.object d a b)

  keyed : (m : JsMap Hash (Option (MutationOp T))) → AllDeliverable hash m → All (IsKeyed hash) m
  keyed [] a = tt
  keyed ((h, none) ∷ m) a = absurd a.0
  keyed ((h, some op) ∷ m) a = (a.0.0, keyed m a.1)

  round-Carries :
      (arrivals : List (List (Loaded T))) (s : MutableObject T S)
      → IsSound hash s
      → Carries s (remove_applied (apply_ready hash mutate s.unapplied_ops arrivals (lock s)))
        × Accepts arrivals
            (apply_ready hash mutate s.unapplied_ops arrivals (lock s)).arrivals
            (remove_applied (apply_ready hash mutate s.unapplied_ops arrivals (lock s)))
  round-Carries arrivals s i =
      let k = keyed s.unapplied_ops i.waiting in
      let r = apply_ready hash mutate s.unapplied_ops arrivals (lock s) in
      let (c, a) = ready-Carries hash mutate s.unapplied_ops arrivals (lock s) k in
      let removed = remove-Carries r a in
      (
        Carries-trans s r.object (remove_applied r)
            (record { applied = c.applied; waits = c.waits }) removed,
        Accepts-trans arrivals r.arrivals r.arrivals r.object (remove_applied r) removed
            (ready-Accepts hash mutate s.unapplied_ops arrivals (lock s) k)
            (Accepts-none r.arrivals (remove_applied r)),
      )

  pending-SoundEnd :
      (n : ℕ) (arrivals : List (List (Loaded T))) (s : MutableObject T S)
      → All (AllDeliverable hash) arrivals
      → IsSound hash s
      → SoundEnd arrivals s (apply_pending hash mutate n arrivals s)
  unfolding apply_pending
  pending-SoundEnd zero arrivals s d i = tt
  pending-SoundEnd (suc n) arrivals s d i =
      let r = apply_ready hash mutate s.unapplied_ops arrivals (lock s) in
      let (f, j, a) =
        ready-SoundRound hash mutate s.unapplied_ops arrivals (lock s) i.waiting d
          (lock-IsSound hash mutate s i) in
      let (carried, accepted) = round-Carries arrivals s i in
      elim (Bool-cases s.apply_ops_locked) [
        | inl u ↦ simp u (refl, i, Carries-refl s, Accepts-none arrivals s)
        | inr u ↦
            elim (Bool-cases
              (r.go || ltb (length s.unapplied_ops) (length r.object.unapplied_ops))) [
                | inl g ↦
                    simp (u, f, g)
                      (Carries-SoundEnd arrivals r.arrivals s (remove_applied r) _ carried accepted
                        (pending-SoundEnd n r.arrivals (remove_applied r) a
                          (removed-IsSound hash mutate r j)))
                | inr g ↦ simp (u, f, g) (refl, removed-IsSound hash mutate r j, carried, accepted)
              ]
      ]

  -- The object is sound and free, and no operation that waits can be applied.
  pub record IsSettled (s : MutableObject T S) : Type 0 where
    pub sound : IsSound hash s
    pub unlocked : s.apply_ops_locked ≡ false
    pub none_ready :
        (h : Hash) (op : MutationOp T)
        → Map.get h s.unapplied_ops ≡ some (some op)
        → can_apply_op op s ≡ false

  settled :
      (arrivals : List (List (Loaded T))) (s : MutableObject T S) (o : Option (Pass T S))
      → SoundEnd arrivals s o
      → EndsDrained hash mutate o
      → (p : Pass T S) × (o ≡ some p)
        × (p.failed ≡ false)
        × IsSettled p.object
        × Carries s p.object
        × Accepts arrivals p.arrivals p.object
  settled arrivals s o k (p, e, d) =
      let (f, i, c, a) = subst (SoundEnd arrivals s) e k in
      (p, e, f, record { sound = i; unlocked = d.unlocked; none_ready = d.none_ready f }, c, a)

  -- What the delivery of an operation under a hash leaves: nothing that was applied or waits is lost,
  -- and an operation that was not known is applied or waits; it is applied if it was ready.
  pub record IsDelivered (l : Loaded T) (s t : MutableObject T S) : Type 0 where
    pub carries : Carries s t
    pub accepted :
        is_known l.0 s ≡ false
        → (Set.has l.0 t.all_applied_ops ≡ true) ⊎ (Map.get l.0 t.unapplied_ops ≡ some l.1)
    pub applied :
        is_known l.0 s ≡ false
        → (op : MutationOp T) → l.1 ≡ some op
        → can_apply_op op s ≡ true
        → Set.has l.0 t.all_applied_ops ≡ true

  abbrev enqueued : Loaded T → MutableObject T S → MutableObject T S
  enqueued l s = record s { unapplied_ops = Map.set l.0 l.1 s.unapplied_ops }

  enqueued-Carries :
      (l : Loaded T) (s : MutableObject T S) → is_known l.0 s ≡ false → Carries s (enqueued l s)
  enqueued-Carries l s n = record {
    applied = λ g e. e;
    waits = λ g v e. inr (
        ground (
          arith,
          n,
          e,
          Map.get-set g l.0 l.1 s.unapplied_ops,
          ap (λ z. Map.get z s.unapplied_ops) {x = l.0} {y = g},
        ));
  }

  delivered :
      (l : Loaded T) (s t : MutableObject T S)
      → is_known l.0 s ≡ false
      → IsSettled t
      → Carries (enqueued l s) t
      → IsDelivered l s t
  delivered l s t n i c =
      let first = enqueued-Carries l s n in
      let carried = Carries-trans s (enqueued l s) t first c in
      let accepted = c.waits l.0 l.1 (ground (arith, Map.get-set l.0 l.0 l.1 s.unapplied_ops)) in
      record {
        carries = carried;
        accepted = λ e. accepted;
        applied = λ e op q ready. elim accepted [
          | inl h ↦ h
          | inr h ↦
              cc (i.none_ready l.0 op (h ∙ ap some q), can_apply_op-Carries op s t carried ready)
        ];
      }

  -- If an object whose lock is free holds what some operations make of it, and none that waits is
  -- ready, then the delivery of an operation from the store, and the pass that it starts, end
  -- without a failure in such an object again, whatever arrives while operations are applied, if
  -- mutate never throws, the store has each operation under its hash, and a redo names the undo
  -- it redoes as a predecessor. What was applied stays applied, and what waited is applied or
  -- waits. An operation that was not known is then applied or waits, and it is applied if its
  -- predecessors were; each that arrived meanwhile is applied or waits too.
  pub apply_op_from_store-IsSettled :
      (l : Loaded T) (arrivals : List (List (Loaded T))) (s : MutableObject T S)
      → IsDeliverable hash l
      → All (AllDeliverable hash) arrivals
      → IsSettled s
      → (p : Pass T S) × (apply_op_from_store hash mutate l arrivals s ≡ some p)
        × (p.failed ≡ false)
        × IsSettled p.object
        × IsDelivered l s p.object
        × Accepts arrivals p.arrivals p.object
  unfolding apply_op_from_store
  apply_op_from_store-IsSettled (h, op) arrivals s x d i = elim (Bool-cases (is_known h s)) [
    | inl e ↦ rw e (
      _,
      refl,
      refl,
      i,
      record { carries = Carries-refl s; accepted = λ n. cc (e, n); applied = λ n. cc (e, n) },
      Accepts-none arrivals s,
    )
    | inr e ↦
        let t = enqueued (h, op) s in
        let j : IsSound hash t = record {
          log = i.sound.log;
          represents =
              with_unapplied hash i.sound.log t.unapplied_ops s.apply_ops_locked s
                i.sound.represents;
          waiting = set-All (IsDeliverable hash) h op s.unapplied_ops x i.sound.waiting;
        } in
        let (p, ends, unfailed, settles, carries, accepts) =
          settled arrivals t _ (pending-SoundEnd (enough arrivals t) arrivals t d j) (
            apply_pending-EndsDrained hash mutate (enough arrivals t) arrivals t i.unlocked
              (omega arith)) in
        rw e (p, ends, unfailed, settles, delivered (h, op) s p.object e settles carries, accepts)
  ]

  -- What a pass ends in that comes to a missing operation first.
  abbrev pub stuck : List (List (Loaded T)) → MutableObject T S → Pass T S
  stuck arrivals s = record { object = unlock s; arrivals = arrivals; failed = true }

  pending_stuck :
      (n : ℕ) (h : Hash) (arrivals : List (List (Loaded T)))
      (ps : JsMap Hash (Option (MutationOp T))) (s : MutableObject T S)
      → s.unapplied_ops ≡ (h, none) ∷ ps
      → s.apply_ops_locked ≡ false
      → apply_pending hash mutate (suc n) arrivals s ≡ some (stuck arrivals s)
  unfolding apply_pending apply_ready
  pending_stuck n h arrivals ps s e u =
      let r = ap (λ m. apply_ready hash mutate m arrivals (lock s)) e in
      simp (u, ap (λ z. z.failed) r, ap (λ z. z.object) r, ap (λ z. z.arrivals) r) refl

  kept_first :
      (h g : Hash) (op : Option (MutationOp T)) (m ps : JsMap Hash (Option (MutationOp T)))
      → m ≡ (h, none) ∷ ps
      → Map.has g m ≡ false
      → Map.set g op m ≡ (h, none) ∷ Map.set g op ps
  unfolding Map.set Map.get
  kept_first h g op m ps e n = rw e (ground (arith, ap (Map.has g) e, n))

  -- If the first operation that waits is one that the store does not have, and the lock is free,
  -- then the pass that the delivery of an operation that was not known starts fails before any
  -- operation is applied, and the missing one stays the first.
  pub missing_op_blocks :
      (h g : Hash) (op : Option (MutationOp T)) (arrivals : List (List (Loaded T)))
      (ps : JsMap Hash (Option (MutationOp T))) (s : MutableObject T S)
      → s.unapplied_ops ≡ (h, none) ∷ ps
      → s.apply_ops_locked ≡ false
      → is_known g s ≡ false
      → apply_op_from_store hash mutate (g, op) arrivals s
        ≡ some (stuck arrivals (record s { unapplied_ops = (h, none) ∷ Map.set g op ps }))
  unfolding apply_op_from_store enough
  missing_op_blocks h g op arrivals ps s e u k =
      let q = kept_first h g op s.unapplied_ops ps e (ground arith) in
      let t : MutableObject T S = record s { unapplied_ops = Map.set g op s.unapplied_ops } in
      rw k (
        pending_stuck _ h arrivals (Map.set g op ps) t q u
        ∙ ap (λ m. some (stuck arrivals (record s { unapplied_ops = m }))) q)
