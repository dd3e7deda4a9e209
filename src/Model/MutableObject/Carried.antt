-- ===== src/Model/MutableObject/Carried.antt =====
-- What an object of src/data/model/mutable/MutableObject.ts has applied stays applied while others
-- arrive from its store, and what waits is applied or goes on waiting.
use hyperhyperspace_core.Prelude.{
  Hash, Bool, true, false, List, [], ◌∷◌, Option, none, some, ◌≡◌, ◌⊎◌, refl, string_key, arith,
  ite, same, Bool-cases, inl, inr, ap, subst, ◌∙◌, All, if◌then◌else◌,
}
use hyperhyperspace_core.Js.Map
use hyperhyperspace_core.Js.Map.{JsMap}
use hyperhyperspace_core.Js.Set
use hyperhyperspace_core.Js.Set.{JsSet}
use hyperhyperspace_core.Model.Operation.{MutationOp, get_prev_ops}
use hyperhyperspace_core.Model.MutableObject.{
  MutableObject, can_apply_op, delete_all, apply, note_op, has_all,
}
use hyperhyperspace_core.Model.MutableObject.Log.{apply_effect-Effect, apply_fresh, apply_known}
use hyperhyperspace_core.Model.MutableObject.Pending.{
  Loaded, Round, is_known, arrive, arrive_all, next_arrivals, turn, apply_ready, remove_applied,
}
use hyperhyperspace_core.Model.MutableObject.Drain.{apply-unapplied}

has_all_grows :
    (hs : List Hash) (a b : JsSet Hash)
    → ((g : Hash) → Set.has g a ≡ true → Set.has g b ≡ true)
    → has_all hs a ≡ true
    → has_all hs b ≡ true
unfolding has_all
has_all_grows [] a b k e = refl
has_all_grows (h ∷ hs) a b k e = ground (arith, k h, has_all_grows hs a b k, e)

get-delete_all :
    {V : Type 0} (g : Hash) (hs : List Hash) (m : JsMap Hash V)
    → Map.get g (delete_all hs m) ≡ (if Set.has g hs then none else Map.get g m)
unfolding delete_all Set.has
get-delete_all g [] m = ground arith
get-delete_all g (h ∷ hs) m =
    ground (arith, get-delete_all g hs (Map.delete h m), Map.get-delete g h m)

module _ {T S : Type 0} where
  -- What was applied is applied, and what waited is applied or waits.
  pub record Carries (s t : MutableObject T S) : Type 0 where
    pub applied :
        (g : Hash) → Set.has g s.all_applied_ops ≡ true → Set.has g t.all_applied_ops ≡ true
    pub waits :
        (g : Hash) (v : Option (MutationOp T))
        → Map.get g s.unapplied_ops ≡ some v
        → (Set.has g t.all_applied_ops ≡ true) ⊎ (Map.get g t.unapplied_ops ≡ some v)

  pub Carries-refl : (s : MutableObject T S) → Carries s s
  Carries-refl s = record { applied = λ g e. e; waits = λ g v e. inr e }

  pub Carries-trans : (s t u : MutableObject T S) → Carries s t → Carries t u → Carries s u
  Carries-trans s t u a b = record {
    applied = λ g e. b.applied g (a.applied g e);
    waits = λ g v e. elim (a.waits g v e) [ inl h ↦ inl (b.applied g h) | inr h ↦ b.waits g v h ];
  }

  pub can_apply_op-Carries :
      (op : MutationOp T) (s t : MutableObject T S)
      → Carries s t
      → can_apply_op op s ≡ true
      → can_apply_op op t ≡ true
  unfolding can_apply_op
  can_apply_op-Carries op s t c e =
      has_all_grows (get_prev_ops op) s.all_applied_ops t.all_applied_ops c.applied e

  arrive-Carries : (l : Loaded T) (s : MutableObject T S) → Carries s (arrive l s)
  unfolding arrive
  arrive-Carries (h, op) s = elim (Bool-cases (is_known h s)) [
    | inl e ↦ rw e (Carries-refl s)
    | inr e ↦ rw e (record {
      applied = λ g k. k;
      waits = λ g v k. inr (
          ground (
            arith,
            e,
            k,
            Map.get-set g h op s.unapplied_ops,
            ap (λ z. Map.get z s.unapplied_ops) {x = h} {y = g},
          ));
    })
  ]

  pub arrive_all-Carries :
      (ls : List (Loaded T)) (s : MutableObject T S) → Carries s (arrive_all ls s)
  unfolding arrive_all
  arrive_all-Carries [] s = Carries-refl s
  arrive_all-Carries (l ∷ ls) s =
      Carries-trans s (arrive l s) _ (arrive-Carries l s) (arrive_all-Carries ls (arrive l s))

  -- The operations that are removed were applied.
  abbrev pub AreApplied : List Hash → MutableObject T S → Type 0
  AreApplied hs s = (g : Hash) → Set.has g hs ≡ true → Set.has g s.all_applied_ops ≡ true

  pub remove-Carries :
      (r : Round T S) → AreApplied r.to_remove r.object → Carries r.object (remove_applied r)
  remove-Carries r a = record {
    applied = λ g e. e;
    waits = λ g v e. elim (Bool-cases (Set.has g r.to_remove)) [
      | inl k ↦ inl (a g k)
      | inr k ↦ inr (get-delete_all g r.to_remove r.object.unapplied_ops ∙ ground (arith, k, e))
    ];
  }

-- What waits does so under its hash.
abbrev pub IsKeyed : {T : Type 0} → (MutationOp T → Hash) → Loaded T → Type 0
IsKeyed hash (h, none) = Unit
IsKeyed hash (h, some op) = hash op ≡ h

module _ {T S : Type 0} (hash : MutationOp T → Hash)
    (mutate : MutationOp T → Bool → Bool → S → S × Bool) where
  applied_after :
      (op : MutationOp T) (b : Bool) (s : MutableObject T S) (g : Hash)
      → Set.has g (apply hash mutate op b s).0.all_applied_ops
        ≡ ite (same (hash op) g) true (Set.has g s.all_applied_ops)
  unfolding note_op
  applied_after op b s g = elim (Bool-cases (Set.has (hash op) s.all_applied_ops)) [
    | inl e ↦
        rw (apply_known hash mutate op b s e)
          (ground (arith, e, ap (λ z. Set.has z s.all_applied_ops) {x = hash op} {y = g}))
    | inr e ↦
        rw
          (
            apply_fresh hash mutate op b s e,
            (apply_effect-Effect hash mutate op (note_op hash op b s)).applied,
          )
          (ground (arith, Set.has-add g (hash op) s.all_applied_ops))
  ]

  apply-Carries :
      (op : MutationOp T) (s : MutableObject T S) → Carries s (apply hash mutate op false s).0
  apply-Carries op s = record {
    applied = λ g e. ground (arith, applied_after op false s g, e);
    waits = λ g v e. inr (ap (Map.get g) (apply-unapplied hash mutate op false s) ∙ e);
  }

  pub turn-Carries :
      (op : MutationOp T) (arrivals : List (List (Loaded T))) (s : MutableObject T S)
      → Carries s (turn hash mutate op arrivals s).object
        × ((turn hash mutate op arrivals s).did_apply ≡ true
            → Set.has (hash op) (turn hash mutate op arrivals s).object.all_applied_ops ≡ true)
  unfolding turn
  turn-Carries op arrivals s = elim (Bool-cases (can_apply_op op s)) [
    | inl e ↦
        let t = (apply hash mutate op false s).0 in
        let c = arrive_all-Carries (next_arrivals arrivals) t in
        rw e (
          Carries-trans s t _ (apply-Carries op s) c,
          λ d. c.applied (hash op) (ground (arith, applied_after op false s (hash op))),
        )
    | inr e ↦ rw e (Carries-refl s, λ d. cc)
  ]

  pub ready-Carries :
      (ps : JsMap Hash (Option (MutationOp T))) (arrivals : List (List (Loaded T)))
      (s : MutableObject T S)
      → All (IsKeyed hash) ps
      → Carries s (apply_ready hash mutate ps arrivals s).object
        × AreApplied
            (apply_ready hash mutate ps arrivals s).to_remove
            (apply_ready hash mutate ps arrivals s).object
  unfolding apply_ready Set.has
  ready-Carries [] arrivals s k = (Carries-refl s, λ g e. cc)
  ready-Carries ((h, none) ∷ ps) arrivals s k = (Carries-refl s, λ g e. cc)
  ready-Carries ((h, some op) ∷ ps) arrivals s k =
      let t = turn hash mutate op arrivals s in
      let (c, d) = turn-Carries op arrivals s in
      let r = apply_ready hash mutate ps t.arrivals t.object in
      let (rest, removed) = ready-Carries ps t.arrivals t.object k.1 in
      let carried = Carries-trans s t.object r.object c rest in
      elim (Bool-cases t.did_apply) [
        | inl e ↦ rw e (
          carried,
          λ g m. elim (same h g) [
            | yes q ↦
                subst (λ z. Set.has z r.object.all_applied_ops ≡ true) (k.0 ∙ q)
                  (rest.applied (hash op) (d e))
            | no q ↦ removed g (ground (arith, m))
          ],
        )
        | inr e ↦ rw e (carried, removed)
      ]
