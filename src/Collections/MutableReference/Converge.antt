-- ===== src/Collections/MutableReference/Converge.antt =====
-- Replicas of a reference of src/data/collections/mutable/MutableReference.ts that apply updates in any order.
use mathlib.Core.Path.{ap₂}
use mathlib.Core.List.{Permᴰ}
use hyperhyperspace_core.Prelude.{
  ℕ, ◌<◌, String, Bool, true, false, List, none, some, ◌≡◌, ◌≢◌, ◌⊎◌, inl, inr, refl, arith, ◌&&◌,
  Bool-cases, All, subst, ◌∙◌, ap,
}
use hyperhyperspace_core.Collections.MutableReference.{
  RefUpdateOp, MutableReference, empty, mutate, run, set_value, update_op, wins,
}

-- What is relied on of the order of timestamps: it is a strict linear order.
pub record IsLinear (after : String → String → Bool) : Type 0 where
  pub irreflexive : (s : String) → after s s ≡ false
  pub transitive : (s t u : String) → after s t ≡ true → after t u ≡ true → after s u ≡ true
  pub total : (s t : String) → s ≢ t → (after s t ≡ true) ⊎ (after t s ≡ true)

module _ {T : Type 0} (after : String → String → Bool) where
  -- Two updates that differ in sequence or in timestamp, as those of different calls do.
  abbrev pub AreDistinct : RefUpdateOp T → RefUpdateOp T → Type 0
  AreDistinct a b = (a.sequence ≢ b.sequence) ⊎ (a.timestamp ≢ b.timestamp)

  abbrev step : RefUpdateOp T → MutableReference T → MutableReference T
  step op r = (mutate after op r).0

  -- A reference with nothing set, or with a sequence, a timestamp and a value.
  pub data IsStamped : MutableReference T → Type 0 where
    unset : IsStamped (record { sequence = none; timestamp = none; value = none })
    stamped :
        (n : ℕ) (t : String) (v : T)
        → IsStamped (record { sequence = some n; timestamp = some t; value = some v })

  pub empty-IsStamped : IsStamped empty
  unfolding empty
  empty-IsStamped = unset

  IsStamped-by :
      (op : RefUpdateOp T)
      → IsStamped (record {
        sequence = some op.sequence;
        timestamp = some op.timestamp;
        value = some op.value;
      })
  IsStamped-by op = stamped op.sequence op.timestamp op.value

  step-IsStamped :
      (op : RefUpdateOp T) (r : MutableReference T) → IsStamped r → IsStamped (step op r)
  unfolding mutate
  step-IsStamped op r s = elim (Bool-cases (op.targets_this && wins after op r)) [
    | inl e ↦ rw (e, step, mutate) (IsStamped-by op)
    | inr e ↦ rw (e, step, mutate) s
  ]

  module _ (lin : IsLinear after) (a b : RefUpdateOp T) (d : AreDistinct a b) where
    step_comm : (r : MutableReference T) → IsStamped r → step a (step b r) ≡ step b (step a r)
    unfolding mutate
    step_comm r unset = ground (
      arith,
      d,
      lin.total a.timestamp b.timestamp,
      lin.transitive a.timestamp b.timestamp a.timestamp,
      lin.irreflexive a.timestamp,
    )
    step_comm r (stamped n t v) = ground (
      arith,
      d,
      lin.total a.timestamp b.timestamp,
      lin.total a.timestamp t,
      lin.total b.timestamp t,
      lin.transitive a.timestamp b.timestamp a.timestamp,
      lin.transitive a.timestamp b.timestamp t,
      lin.transitive b.timestamp a.timestamp t,
      lin.transitive t a.timestamp t,
      lin.irreflexive a.timestamp,
      lin.irreflexive t,
    )

  module _ (lin : IsLinear after) {P : RefUpdateOp T → Type 0}
      (told_apart : (a b : RefUpdateOp T) → P a → P b → (a ≡ b) ⊎ AreDistinct a b) where
    swapped :
        (a b : RefUpdateOp T) (r : MutableReference T)
        → P a
        → P b
        → IsStamped r
        → step a (step b r) ≡ step b (step a r)
    swapped a b r p q s = elim (told_apart a b p q) [
      | inl e ↦ rw e
      | inr d ↦ step_comm lin a b d r s
    ]

    All-permᴰ : {ops ops' : List (RefUpdateOp T)} → Permᴰ ops ops' → All P ops → All P ops'
    All-permᴰ Permᴰ.nil h = tt
    All-permᴰ (Permᴰ.cons e p) h = (subst P e h.0, All-permᴰ p h.1)
    All-permᴰ (Permᴰ.swap e f) h = (subst P f h.1.0, (subst P e h.0, h.1.1))
    All-permᴰ (Permᴰ.trans p q) h = All-permᴰ q (All-permᴰ p h)

    run-perm :
        {ops ops' : List (RefUpdateOp T)} (r : MutableReference T)
        → Permᴰ ops ops'
        → All P ops
        → IsStamped r
        → run after ops r ≡ run after ops' r
    unfolding run
    run-perm r Permᴰ.nil h s = refl
    run-perm r (Permᴰ.cons {a = a} {b = b} {l₂ = l} e p) h s =
        run-perm (step a r) p h.1 (step-IsStamped a r s) ∙ ap (λ o. run after l (step o r)) e
    run-perm r (Permᴰ.swap {a = a} {b = b} {l = l} e f) h s =
        ap (run after l) (swapped b a r h.1.0 h.0 s)
        ∙ ap₂ (λ x y. run after l (step y (step x r))) f e
    run-perm r (Permᴰ.trans p q) h s = run-perm r p h s ∙ run-perm r q (All-permᴰ p h) s

    -- If timestamps are ordered linearly and any two different updates differ in their sequence or in
    -- their timestamp, replicas that apply the same updates, in any two orders, end in the same
    -- state: the same sequence, timestamp and value.
    pub references_converge :
        (ops ops' : List (RefUpdateOp T))
        → Permᴰ ops ops'
        → All P ops
        → run after ops empty ≡ run after ops' empty
    references_converge ops ops' p h = run-perm empty p h empty-IsStamped

  -- On a reference with nothing set or with a sequence, a timestamp and a value, setting a value
  -- makes it the one held, and a later update with an earlier sequence than that of the call
  -- changes nothing.
  pub set_value_wins :
      (v : T) (t : String) (r : MutableReference T) (late : RefUpdateOp T)
      → IsStamped r
      → late.sequence < (update_op after v t r).sequence
      → ((set_value after v t r).value ≡ some v)
        × (step late (set_value after v t r) ≡ set_value after v t r)
  unfolding set_value mutate
  set_value_wins v t r late unset h = ground arith
  set_value_wins v t r late (stamped n u w) h = ground arith
