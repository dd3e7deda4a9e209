-- ===== src/Collections/MutableReference.antt =====
-- src/data/collections/mutable/MutableReference.ts: a reference that the last update wins. The order
-- of timestamps, `Timestamps.after`, rests on the locale and is a parameter. The events that `mutate`
-- emits are left out.
pub mod Converge
use hyperhyperspace_core.Prelude.{
  ℕ, ◌+◌, Hash, String, Bool, true, false, List, [], ◌∷◌, ◌++◌, Option, none, some, if◌then◌else◌,
  ltb, ◌==◌, ◌&&◌, ◌||◌,
}

-- An update, with whether its target is this reference.
pub record RefUpdateOp (T : Type 0) : Type 0 where
  pub targets_this : Bool
  pub sequence : ℕ
  pub timestamp : String
  pub value : T

pub record MutableReference (T : Type 0) : Type 0 where
  pub sequence : Option ℕ
  pub timestamp : Option String
  pub value : Option T

unfoldable pub empty : {T : Type 0} → MutableReference T
empty = record { sequence = none; timestamp = none; value = none }

-- The state has a timestamp wherever it has a sequence; one that is not there comes after none.
abbrev pub after_current : (String → String → Bool) → String → Option String → Bool
after_current after t none = false
after_current after t (some u) = after t u

-- The sequence of the operation that `setValue` makes.
abbrev pub next_sequence : Option ℕ → ℕ
next_sequence none = 0
next_sequence (some n) = n + 1

module _ {T : Type 0} (after : String → String → Bool) where
  unfoldable pub wins : RefUpdateOp T → MutableReference T → Bool
  wins op r = elim r.sequence [
    | none ↦ true
    | some n ↦
        ltb n op.sequence || ((n == op.sequence) && after_current after op.timestamp r.timestamp)
  ]

  -- The state after the update and whether it changed.
  unfoldable pub mutate : RefUpdateOp T → MutableReference T → MutableReference T × Bool
  unfolding wins
  mutate op r =
      if op.targets_this && wins op r
      then (
        record {
          sequence = some op.sequence;
          timestamp = some op.timestamp;
          value = some op.value;
        },
        true,
      )
      else (r, false)

  unfoldable pub run : List (RefUpdateOp T) → MutableReference T → MutableReference T
  unfolding mutate
  run [] r = r
  run (op ∷ ops) r = run ops (mutate op r).0

  unfoldable pub update_op : T → String → MutableReference T → RefUpdateOp T
  update_op value timestamp r = record {
    targets_this = true;
    sequence = next_sequence r.sequence;
    timestamp = timestamp;
    value = value;
  }

  unfoldable pub set_value : T → String → MutableReference T → MutableReference T
  unfolding update_op mutate
  set_value value timestamp r = (mutate (update_op value timestamp r) r).0
