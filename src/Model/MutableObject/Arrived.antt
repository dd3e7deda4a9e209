-- ===== src/Model/MutableObject/Arrived.antt =====
-- The operations that reach an object of src/data/model/mutable/MutableObject.ts while it applies
-- others are applied or wait.
use mathlib.Core.List.{append_assoc}
use hyperhyperspace_core.Prelude.{
  Hash, Bool, true, false, List, [], ◌∷◌, ◌++◌, Option, none, some, ◌≡◌, refl, string_key, arith,
  Bool-cases, Option-cases, inl, inr, ap, ◌∙◌, All,
}
use hyperhyperspace_core.Js.Map
use hyperhyperspace_core.Js.Map.{JsMap}
use hyperhyperspace_core.Js.Set
use hyperhyperspace_core.Model.Operation.{MutationOp}
use hyperhyperspace_core.Model.MutableObject.{MutableObject, can_apply_op, apply}
use hyperhyperspace_core.Model.MutableObject.Pending.{
  Loaded, is_known, arrive, arrive_all, next_arrivals, later_arrivals, turn, apply_ready,
}
use hyperhyperspace_core.Model.MutableObject.Carried.{
  Carries, arrive_all-Carries, IsKeyed, ready-Carries,
}

module _ {A : Type 0} {P Q : A → Type 0} (f : (x : A) → P x → Q x) where
  map-All : (xs : List A) → All P xs → All Q xs
  map-All [] a = tt
  map-All (x ∷ xs) a = (f x a.0, map-All xs a.1)

append-All : {A : Type 0} (P : A → Type 0) (xs ys : List A) → All P xs → All P ys → All P (xs ++ ys)
append-All P [] ys a b = b
append-All P (x ∷ xs) ys a b = (a.0, append-All P xs ys a.1 b)

module _ {T S : Type 0} where
  abbrev Knows : MutableObject T S → Loaded T → Type 0
  Knows s l = is_known l.0 s ≡ true

  Knows-Carries : (s t : MutableObject T S) (l : Loaded T) → Carries s t → Knows s l → Knows t l
  Knows-Carries s t l c k = elim (Bool-cases (Set.has l.0 s.all_applied_ops)) [
    | inl e ↦ ground (arith, c.applied l.0 e)
    | inr e ↦ elim (Option-cases (Map.get l.0 s.unapplied_ops)) [
      | inl n ↦ absurd (ground (arith, k, e, n))
      | inr (v, n) ↦ elim (c.waits l.0 v n) [
        | inl h ↦ ground (arith, h)
        | inr h ↦ ground (arith, h)
      ]
    ]
  ]

  Knows-arrive : (l : Loaded T) (s : MutableObject T S) → Knows (arrive l s) l
  unfolding arrive
  Knows-arrive (h, op) s = ground (arith, Map.get-set h h op s.unapplied_ops)

  arrive_all-Knows :
      (ls : List (Loaded T)) (s : MutableObject T S) → All (Knows (arrive_all ls s)) ls
  unfolding arrive_all
  arrive_all-Knows [] s = tt
  arrive_all-Knows (l ∷ ls) s = (
    Knows-Carries (arrive l s) (arrive_all ls (arrive l s)) l (arrive_all-Carries ls (arrive l s))
        (Knows-arrive l s),
    arrive_all-Knows ls (arrive l s),
  )

  -- What arrived so far is known; the rest is still to arrive.
  pub record Accepts (arrivals rest : List (List (Loaded T))) (t : MutableObject T S) : Type 0 where
    pub arrived : List (List (Loaded T))
    pub split : arrived ++ rest ≡ arrivals
    pub known : All (All (λ l. is_known l.0 t ≡ true)) arrived

  pub Accepts-none : (ls : List (List (Loaded T))) (t : MutableObject T S) → Accepts ls ls t
  Accepts-none ls t = record { arrived = []; split = refl; known = tt }

  pub Accepts-trans :
      (ls ms ns : List (List (Loaded T))) (t u : MutableObject T S)
      → Carries t u
      → Accepts ls ms t
      → Accepts ms ns u
      → Accepts ls ns u
  Accepts-trans ls ms ns t u c a b = record {
    arrived = a.arrived ++ b.arrived;
    split = append_assoc a.arrived b.arrived ns ∙ ap (λ z. a.arrived ++ z) b.split ∙ a.split;
    known =
        append-All (All (Knows u)) a.arrived b.arrived
          (map-All (λ xs. map-All (λ l. Knows-Carries t u l c) xs) a.arrived a.known) b.known;
  }

  arrive_all-Accepts :
      (arrivals : List (List (Loaded T))) (s : MutableObject T S)
      → Accepts arrivals (later_arrivals arrivals) (arrive_all (next_arrivals arrivals) s)
  arrive_all-Accepts [] s = Accepts-none [] _
  arrive_all-Accepts (ls ∷ lss) s = record {
    arrived = ls ∷ [];
    split = refl;
    known = (arrive_all-Knows ls s, tt);
  }

module _ {T S : Type 0} (hash : MutationOp T → Hash)
    (mutate : MutationOp T → Bool → Bool → S → S × Bool) where
  turn-Accepts :
      (op : MutationOp T) (arrivals : List (List (Loaded T))) (s : MutableObject T S)
      → Accepts arrivals
          (turn hash mutate op arrivals s).arrivals
          (turn hash mutate op arrivals s).object
  unfolding turn
  turn-Accepts op arrivals s = elim (Bool-cases (can_apply_op op s)) [
    | inl e ↦ rw e (arrive_all-Accepts arrivals (apply hash mutate op false s).0)
    | inr e ↦ rw e (Accepts-none arrivals s)
  ]

  pub ready-Accepts :
      (ps : JsMap Hash (Option (MutationOp T))) (arrivals : List (List (Loaded T)))
      (s : MutableObject T S)
      → All (IsKeyed hash) ps
      → Accepts arrivals
          (apply_ready hash mutate ps arrivals s).arrivals
          (apply_ready hash mutate ps arrivals s).object
  unfolding apply_ready
  ready-Accepts [] arrivals s k = Accepts-none arrivals s
  ready-Accepts ((h, none) ∷ ps) arrivals s k = Accepts-none arrivals s
  ready-Accepts ((h, some op) ∷ ps) arrivals s k =
      let t = turn hash mutate op arrivals s in
      let r = apply_ready hash mutate ps t.arrivals t.object in
      let (c, removed) = ready-Carries hash mutate ps t.arrivals t.object k.1 in
      let a =
        Accepts-trans arrivals t.arrivals r.arrivals t.object r.object c
          (turn-Accepts op arrivals s) (ready-Accepts ps t.arrivals t.object k.1) in
      elim (Bool-cases t.did_apply) [ inl e ↦ rw e a | inr e ↦ rw e a ]
