-- ===== src/History/Header/Sizes.antt =====
-- The height and the size that the constructor of src/data/history/OpHeader.ts computes.
use hyperhyperspace_core.Prelude.{
  ℕ, ◌+◌, ◌≤◌, ◌<◌, ◌≡◌, Hash, List, [], ◌∷◌, some, arith, All, ok, string_key, ltb, if◌then◌else◌,
}
use hyperhyperspace_core.Js.Map
use hyperhyperspace_core.Js.Map.{JsMap}
use hyperhyperspace_core.History.Header.{
  OpHeader, Digest, MutationOp, compute_from, compute_props, from_op,
}

abbrev pub sum_of_sizes : List OpHeader → ℕ
sum_of_sizes [] = 0
sum_of_sizes (h ∷ hs) = h.size + sum_of_sizes hs

-- The greatest height, 0 if there is none.
abbrev pub greatest_height : List OpHeader → ℕ
greatest_height [] = 0
greatest_height (h ∷ hs) =
    if ltb (greatest_height hs) h.height then h.height else greatest_height hs

compute_from-size :
    (height size : ℕ) (hs : List OpHeader)
    → (compute_from height size hs).1 ≡ size + sum_of_sizes hs
unfolding compute_from
compute_from-size height size [] = omega arith
compute_from-size height size (h ∷ hs) = omega (
  arith,
  compute_from-size (if ltb height (h.height + 1) then h.height + 1 else height) (size + h.size) hs,
)

compute_from-height :
    (height size : ℕ) (hs : List OpHeader)
    → 0 < height
    → (compute_from height size hs).0
      ≡ (if ltb height (greatest_height hs + 1) then greatest_height hs + 1 else height)
unfolding compute_from
compute_from-height height size [] h = ground arith
compute_from-height height size (x ∷ hs) h = ground (
  arith,
  compute_from-height (if ltb height (x.height + 1) then x.height + 1 else height) (size + x.size)
      hs,
)

height-le : (hs : List OpHeader) → All (λ h. h.height ≤ greatest_height hs) hs
height-le [] = tt
height-le (h ∷ hs) = (ground arith, weaken hs (height-le hs))
  where
    weaken :
        (xs : List OpHeader)
        → All (λ x. x.height ≤ greatest_height hs) xs
        → All (λ x. x.height ≤ greatest_height (h ∷ hs)) xs
    weaken [] a = tt
    weaken (x ∷ xs) a = (ground (arith, a.0), weaken xs a.1)

pub computed :
    (prev : JsMap Hash OpHeader)
    → compute_props prev
      ≡ (greatest_height (Map.values prev) + 1, sum_of_sizes (Map.values prev) + 1)
unfolding compute_props
computed prev = ground (
  arith,
  compute_from-height 1 1 (Map.values prev) (omega arith),
  compute_from-size 1 1 (Map.values prev),
)

module _ (hash_value : Digest → Hash) (sort : List Hash → List Hash) where
  -- A header that is made for an operation without an error has the operation's hash; its height
  -- is one more than the greatest height of the headers that it is given, and its size one more
  -- than the sum of their sizes.
  pub from_op_sizes :
      (op : MutationOp) (prev : JsMap Hash OpHeader) (h : OpHeader)
      → from_op hash_value sort op (some prev) ≡ ok h
      → (h.op_hash ≡ op.last_hash)
        × (h.height ≡ greatest_height (Map.values prev) + 1)
        × (h.size ≡ sum_of_sizes (Map.values prev) + 1)
  unfolding from_op
  from_op_sizes op prev h e = ground (arith, computed prev)

  raise :
      (bound height : ℕ) (xs : List OpHeader)
      → bound < height
      → All (λ x. x.height ≤ bound) xs
      → All (λ x. x.height < height) xs
  raise bound height [] lt a = tt
  raise bound height (x ∷ xs) lt a = (omega (arith, a.0), raise bound height xs lt a.1)

  -- A header that is made for an operation without an error is higher than every header that it
  -- is given.
  pub from_op_above :
      (op : MutationOp) (prev : JsMap Hash OpHeader) (h : OpHeader)
      → from_op hash_value sort op (some prev) ≡ ok h
      → All (λ p. p.height < h.height) (Map.values prev)
  from_op_above op prev h e =
      raise (greatest_height (Map.values prev)) h.height (Map.values prev)
        (omega (arith, (from_op_sizes op prev h e).1)) (height-le (Map.values prev))
