-- ===== src/History/Outside.antt =====
-- How many of some hashes a growing set does not have, the measure of loops that load what is missing.
use hyperhyperspace_core.Prelude.{
  ℕ, suc, ◌≤◌, ◌<◌, ◌≡◌, ◌∙◌, ap, Hash, Bool, true, false, List, [], ◌∷◌, if◌then◌else◌, string_key,
  arith, same, length,
}
use hyperhyperspace_core.Js.Set

unfoldable pub outside : (Hash → Bool) → List Hash → ℕ
outside test [] = 0
outside test (x ∷ xs) = if test x then outside test xs else suc (outside test xs)

pub outside-length : (test : Hash → Bool) (xs : List Hash) → outside test xs ≤ length xs
unfolding outside
outside-length test [] = omega arith
outside-length test (x ∷ xs) = ground (arith, outside-length test xs)

pub outside_pos :
    (test : Hash → Bool) (y : Hash) (xs : List Hash)
    → Set.has y xs ≡ true
    → test y ≡ false
    → 1 ≤ outside test xs
unfolding outside Set.has
outside_pos test y [] m a = cc
outside_pos test y (x ∷ xs) m a = elim (same x y) [
  | yes p ↦ let c : test x ≡ false = ap test p ∙ a in ground (arith, c)
  | no p ↦ ground (arith, outside_pos test y xs, m, a)
]

module _ (test next : Hash → Bool) (grows : (x : Hash) → test x ≡ true → next x ≡ true) where
  pub outside_le : (xs : List Hash) → outside next xs ≤ outside test xs
  unfolding outside
  outside_le [] = omega arith
  outside_le (x ∷ xs) = ground (arith, grows x, outside_le xs)

  pub outside_lt :
      (y : Hash) (xs : List Hash)
      → Set.has y xs ≡ true
      → test y ≡ false
      → next y ≡ true
      → outside next xs < outside test xs
  unfolding outside Set.has
  outside_lt y [] m a b = cc
  outside_lt y (x ∷ xs) m a b = elim (same x y) [
    | yes p ↦
        let c : test x ≡ false = ap test p ∙ a in
        let d : next x ≡ true = ap next p ∙ b in ground (arith, outside_le xs, c, d)
    | no p ↦ ground (arith, outside_lt y xs, grows x, m, a, b)
  ]
