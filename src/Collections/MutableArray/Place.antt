-- ===== src/Collections/MutableArray/Place.antt =====
-- The place at which insertManyAt of src/data/collections/mutable/MutableArray.ts inserts.
use hyperhyperspace_core.Prelude.{
  ℕ, zero, suc, ◌+◌, ◌≤◌, ◌≡◌, refl, ap, Hash, Bool, false, List, [], ◌∷◌, Option, none, some, same,
  arith, string_key, if◌then◌else◌, leb, length, get_elem?,
}
use hyperhyperspace_core.Js.Set
use hyperhyperspace_core.Model.Reference.{HashReference}
use hyperhyperspace_core.Collections.MutableArray.{MutableArray, Ordinal}
use hyperhyperspace_core.Collections.MutableArray.Slice.{slice, slice-zero}
use hyperhyperspace_core.Collections.MutableArray.Edits.{
  index_of, moved_before, bound_after, bound_before,
}

-- The ordinal before an index, if there is one.
abbrev pub get_before : ℕ → List Ordinal → Option Ordinal
get_before zero os = none
get_before (suc i) os = get_elem? os i

-- Whether an index is found, up to this one.
abbrev is_up_to : ℕ → Option ℕ → Bool
is_up_to n none = false
is_up_to n (some i) = leb i n

is_up_to-suc :
    (n : ℕ) (i : Option ℕ)
    → is_up_to (suc n) (elim i [ none ↦ none | some j ↦ some (suc j) ]) ≡ is_up_to n i
is_up_to-suc n none = refl
is_up_to-suc n (some i) = ground arith

not_up_to : (i : Option ℕ) → is_up_to 0 (elim i [ none ↦ none | some j ↦ some (suc j) ]) ≡ false
not_up_to none = refl
not_up_to (some i) = ground arith

index_of_iff :
    (x : Hash) (n : ℕ) (ys : List Hash)
    → is_up_to n (index_of x ys) ≡ Set.has x (slice 0 (suc n) ys)
unfolding index_of Set.has
index_of_iff x n [] = refl
index_of_iff x zero (y ∷ ys) = elim (same y x) [
  | yes p ↦ ground arith
  | no p ↦
      ground (arith, p, not_up_to (index_of x ys), ap (Set.has x) (slice-zero 0 ys), Set.has-nil x)
]
index_of_iff x (suc n) (y ∷ ys) = elim (same y x) [
  | yes p ↦ ground arith
  | no p ↦ ground (arith, p, is_up_to-suc n (index_of x ys), index_of_iff x n ys)
]

none_beyond : {A : Type 0} (i : ℕ) (xs : List A) → length xs ≤ i → get_elem? xs i ≡ none
none_beyond i [] l = refl
none_beyond zero (x ∷ xs) l = absurd (omega (arith, l))
none_beyond (suc i) (x ∷ xs) l = none_beyond i xs (omega (arith, l))

module _ {T : Type 0} (hash_element : T → Hash) (hash_ref : HashReference → Hash)
    (is_object : T → Bool) (sort_hashes : List Hash → List Hash)
    (sort_ordinals : List Ordinal → List Ordinal) where
  -- How many of the elements are in a list.
  abbrev pub count_in : List (Hash × T) → List Hash → ℕ
  count_in [] xs = 0
  count_in ((h, e) ∷ es) xs =
      if Set.has (hash_element e) xs then suc (count_in es xs) else count_in es xs

  moved_before-count_in :
      (es : List (Hash × T)) (n : ℕ) (shown : List Hash)
      → moved_before hash_element hash_ref is_object sort_hashes sort_ordinals es n shown
        ≡ count_in es (slice 0 (suc n) shown)
  unfolding moved_before
  moved_before-count_in [] n shown = refl
  moved_before-count_in ((h, e) ∷ es) n shown =
      ground (arith, index_of_iff (hash_element e) n shown, moved_before-count_in es n shown)

  -- The index to which the elements go: without duplicates, those of them that are shown up to it
  -- will disappear there.
  abbrev pub place : List (Hash × T) → ℕ → MutableArray T → ℕ
  place es n t = if t.duplicates then n else n + count_in es (slice 0 (suc n) t.hashes)

  pub place_lem :
      (es : List (Hash × T)) (n : ℕ) (t : MutableArray T)
      → (if t.duplicates
          then n
          else n
            + moved_before hash_element hash_ref is_object sort_hashes sort_ordinals es n t.hashes)
        ≡ place es n t
  place_lem es n t =
      ap (λ m. if t.duplicates then n else n + m) (moved_before-count_in es n t.hashes)

  pub bound_after_lem :
      (i : ℕ) (t : MutableArray T)
      → length t.ordinals ≡ length t.hashes
      → bound_after hash_element hash_ref is_object sort_hashes sort_ordinals i t
        ≡ get_before i t.ordinals
  unfolding bound_after
  bound_after_lem zero t l = refl
  bound_after_lem (suc i) t l = ground (arith, l, none_beyond i t.ordinals)

  pub bound_before_lem :
      (i : ℕ) (t : MutableArray T)
      → length t.ordinals ≡ length t.hashes
      → bound_before hash_element hash_ref is_object sort_hashes sort_ordinals i t
        ≡ get_elem? t.ordinals i
  unfolding bound_before
  bound_before_lem i t l = ground (arith, l, none_beyond i t.ordinals)
