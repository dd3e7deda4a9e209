-- ===== src/Util/Ordinals.antt =====
-- src/util/ordinals.ts: the dense order of ordinals. A text is the list of its UTF-16 code units.
-- The `while` loop of `between` runs on fuel, `none` when it has run out; one turn of the loop is
-- `turn`, by which of the two characters at `i` are there.
pub mod Order
pub mod Suffix
pub mod Between
use hyperhyperspace_core.Prelude.{
  ℕ, zero, suc, ◌+◌, ◌-◌, Bool, true, false, ◌&&◌, ◌||◌, not, List, [], ◌∷◌, ◌++◌, Option, none,
  some, length, get_elem?, ltb, leb, if◌then◌else◌, Result, ok, throws,
}

abbrev pub min_char_code : ℕ
min_char_code = b'a'

abbrev pub max_char_code : ℕ
max_char_code = b'z'

abbrev pub midpoint : ℕ
midpoint = b'm'

-- `/^[a-z]*[b-z]$/`, which the empty text does not match.
unfoldable pub is_ordinal : List ℕ → Bool
is_ordinal [] = false
is_ordinal (c ∷ []) = leb b'b' c && leb c b'z'
is_ordinal (c ∷ d ∷ s) = (leb b'a' c && leb c b'z') && is_ordinal (d ∷ s)

pub data OrderError : Type 0 where
  larger_first_char larger_prefix : OrderError

pub data Turn : Type 0 where
  finish : List ℕ → Turn
  more : Bool → ℕ → List ℕ → Turn
  fail : OrderError → Turn

abbrev pub code_at : Option (List ℕ) → ℕ → Option ℕ
code_at none i = none
code_at (some s) i = get_elem? s i

abbrev pub length_of : Option (List ℕ) → ℕ
length_of none = 0
length_of (some s) = length s

abbrev pub defined : Option (List ℕ) → Bool
defined none = false
defined (some s) = true

module _ (before : Option (List ℕ)) (smaller : Bool) (i : ℕ) (o : List ℕ) where
  unfoldable pub turn : Option ℕ → Option ℕ → Turn
  turn (some a) (some b) =
      if not smaller && ltb b a
      then fail larger_first_char
      else if (smaller && ltb a max_char_code) || ltb (a + 1) b
      then finish (o ++ ((a + 1) ∷ []))
      else more (if ltb a b then true else smaller) (i + 1) (o ++ (a ∷ []))
  turn (some a) none =
      if defined before && not smaller
      then fail larger_prefix
      else if ltb a max_char_code
      then finish (o ++ ((a + 1) ∷ []))
      else more smaller (i + 1) (o ++ (a ∷ []))
  turn none (some b) =
      if smaller
      then finish (o ++ (midpoint ∷ []))
      else if ltb min_char_code b
      then (if ltb min_char_code (b - 1)
          then finish (o ++ ((b - 1) ∷ []))
          else more true i (o ++ ((b - 1) ∷ [])))
      else more smaller (i + 1) (o ++ (b ∷ []))
  turn none none = finish (o ++ (midpoint ∷ []))

unfoldable pub loop :
    ℕ → Option (List ℕ) → Option (List ℕ) → Bool → ℕ → List ℕ → Option (Result OrderError (List ℕ))
loop zero after before smaller i o = none
loop (suc fuel) after before smaller i o =
    elim (turn before smaller i o (code_at after i) (code_at before i)) [
      | finish s ↦ some (ok s)
      | more smaller' i' s ↦ loop fuel after before smaller' i' s
      | fail e ↦ some (throws e)
    ]

-- A turn for each character of both texts, one more at an 'a' that is put in, and the last.
unfoldable pub between : Option (List ℕ) → Option (List ℕ) → Option (Result OrderError (List ℕ))
unfolding turn loop
between after before = loop (length_of after + length_of before + 3) after before false 0 []
