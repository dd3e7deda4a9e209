-- ===== src/Util/Ordinals/Order.antt =====
-- The order in which the language compares texts, and the ordinals described by a predicate.
use hyperhyperspace_core.Prelude.{ℕ, ◌≤◌, ◌<◌, ◌≡◌, true, List, [], ◌∷◌, ◌⊎◌, arith, ◌↔◌}
use hyperhyperspace_core.Util.Ordinals.{is_ordinal}

-- Lexicographic, by code units; a proper prefix is smaller.
abbrev pub Lt : List ℕ → List ℕ → Type 0
Lt [] [] = ⊥
Lt [] (b ∷ bs) = Unit
Lt (a ∷ xs) [] = ⊥
Lt (a ∷ xs) (b ∷ bs) = (a < b) ⊎ ((a ≡ b) × Lt xs bs)

-- A text in the alphabet a-z, not empty, whose last character is not an 'a'.
abbrev pub IsOrdinal : List ℕ → Type 0
IsOrdinal [] = ⊥
IsOrdinal (c ∷ []) = (b'b' ≤ c) × (c ≤ b'z')
IsOrdinal (c ∷ d ∷ s) = (b'a' ≤ c) × (c ≤ b'z') × IsOrdinal (d ∷ s)

abbrev pub IsWord : List ℕ → Type 0
IsWord [] = Unit
IsWord (c ∷ s) = (b'a' ≤ c) × (c ≤ b'z') × IsWord s

pub IsWord-of_ordinal : (s : List ℕ) → IsOrdinal s → IsWord s
IsWord-of_ordinal [] h = tt
IsWord-of_ordinal (c ∷ []) h = (omega arith, h.1, tt)
IsWord-of_ordinal (c ∷ d ∷ s) h = (h.0, h.1, IsWord-of_ordinal (d ∷ s) h.2)

pub IsOrdinal-cons : (c : ℕ) (s : List ℕ) → b'a' ≤ c → c ≤ b'z' → IsOrdinal s → IsOrdinal (c ∷ s)
IsOrdinal-cons c [] l u h = absurd h
IsOrdinal-cons c (d ∷ s) l u h = (l, u, h)

IsOrdinal-sound : (s : List ℕ) → is_ordinal s ≡ true → IsOrdinal s
unfolding is_ordinal
IsOrdinal-sound [] h = cc
IsOrdinal-sound (c ∷ []) h = ground arith
IsOrdinal-sound (c ∷ d ∷ s) h = ground (arith, IsOrdinal-sound (d ∷ s))

ordinal_complete : (s : List ℕ) → IsOrdinal s → is_ordinal s ≡ true
unfolding is_ordinal
ordinal_complete [] h = absurd h
ordinal_complete (c ∷ []) h = ground arith
ordinal_complete (c ∷ d ∷ s) h = ground (arith, ordinal_complete (d ∷ s))

pub is_ordinal_iff : (s : List ℕ) → (is_ordinal s ≡ true) ↔ IsOrdinal s
is_ordinal_iff s = (IsOrdinal-sound s, ordinal_complete s)
