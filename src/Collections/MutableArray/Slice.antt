-- ===== src/Collections/MutableArray/Slice.antt =====
-- The part of what an array of src/data/collections/mutable/MutableArray.ts shows that is deleted by
-- index.
use hyperhyperspace_core.Prelude.{
  ℕ, zero, suc, ◌<◌, ◌≡◌, refl, false, List, [], ◌∷◌, none, some, ltb, length, get_elem?, arith,
}

-- The entries from an index on, as many as are wanted.
abbrev pub slice : {A : Type 0} → ℕ → ℕ → List A → List A
slice i n [] = []
slice (suc i) n (x ∷ xs) = slice i n xs
slice zero zero (x ∷ xs) = []
slice zero (suc n) (x ∷ xs) = x ∷ slice zero n xs

pub slice-some :
    {A : Type 0} (i n : ℕ) (x : A) (xs : List A)
    → get_elem? xs i ≡ some x
    → slice i (suc n) xs ≡ x ∷ slice (suc i) n xs
slice-some i n x [] e = cc
slice-some zero n x (y ∷ xs) e = cc
slice-some (suc i) n x (y ∷ xs) e = slice-some i n x xs e

pub slice-none : {A : Type 0} (i n : ℕ) (xs : List A) → get_elem? xs i ≡ none → slice i n xs ≡ []
slice-none i n [] e = refl
slice-none zero n (y ∷ xs) e = cc
slice-none (suc i) n (y ∷ xs) e = slice-none i n xs e

pub in_range : {A : Type 0} (i : ℕ) (x : A) (xs : List A) → get_elem? xs i ≡ some x → i < length xs
in_range i x [] e = cc
in_range zero x (y ∷ xs) e = omega arith
in_range (suc i) x (y ∷ xs) e = omega (arith, in_range i x xs e)

pub out_of_range :
    {A : Type 0} (i : ℕ) (xs : List A) → get_elem? xs i ≡ none → ltb i (length xs) ≡ false
out_of_range i [] e = ground arith
out_of_range zero (y ∷ xs) e = cc
out_of_range (suc i) (y ∷ xs) e = ground (arith, out_of_range i xs e)

pub slice-zero : {A : Type 0} (i : ℕ) (xs : List A) → slice i zero xs ≡ []
slice-zero i [] = refl
slice-zero zero (x ∷ xs) = refl
slice-zero (suc i) (x ∷ xs) = slice-zero i xs
