-- ===== src/Util/Strings.antt =====
-- src/util/strings.ts: cutting a text into chunks. A text is the list of its code units. The loop
-- ends for a positive chunk length only, and runs on fuel, `none` when it has run out.
use mathlib.Core.List.{append-nil}
use hyperhyperspace_core.Prelude.{
  ℕ, zero, suc, ◌+◌, ◌≤◌, ◌<◌, ◌≡◌, refl, true, false, List, [], ◌∷◌, ◌++◌, Option, none, some,
  length, take, drop, ltb, arith, take-append-drop, length-drop, length-take_of_le, All, Bool-cases,
  inl, inr,
}

module _ {A : Type 0} where
  -- What the loop pushes, in order, and the last chunk.
  unfoldable pub chunk_loop : ℕ → ℕ → List A → Option (List (List A))
  chunk_loop zero len text = none
  chunk_loop (suc fuel) len text = elim (ltb len (length text)) [
    | false ↦ some (text ∷ [])
    | true ↦ elim (chunk_loop fuel len (drop len text)) [
      | none ↦ none
      | some chunks ↦ some (take len text ∷ chunks)
    ]
  ]

  -- Every turn takes a character at least.
  unfoldable pub chunk : List A → ℕ → Option (List (List A))
  unfolding chunk_loop
  chunk text len = chunk_loop (length text + 1) len text

  unfoldable pub unchunk : List (List A) → List A
  unchunk [] = []
  unchunk (c ∷ cs) = c ++ unchunk cs

  abbrev Splits : ℕ → List A → Option (List (List A)) → Type 0
  Splits len text none = ⊥
  Splits len text (some cs) = (unchunk cs ≡ text) × All (λ c. length c ≤ len) cs

  Splits-cons :
      (len : ℕ) (text : List A) (r : Option (List (List A)))
      → len ≤ length text
      → Splits len (drop len text) r
      → Splits len text (elim r [ none ↦ none | some cs ↦ some (take len text ∷ cs) ])
  unfolding unchunk
  Splits-cons len text none h s = s
  Splits-cons len text (some cs) h s =
      (rw (s.0) (take-append-drop len text), (omega (arith, length-take_of_le len text h), s.1))

  chunk_loop-Splits :
      (fuel len : ℕ) (text : List A)
      → 0 < len
      → length text < fuel
      → Splits len text (chunk_loop fuel len text)
  unfolding chunk_loop unchunk
  chunk_loop-Splits zero len text p h = absurd (omega arith)
  chunk_loop-Splits (suc fuel) len text p h = elim (Bool-cases (ltb len (length text))) [
    | inl e ↦
        rw (e, chunk_loop)
          (Splits-cons len text _ (ground arith)
            (chunk_loop-Splits fuel len (drop len text) p (ground (arith, length-drop len text))))
    | inr e ↦ rw (e, chunk_loop) (append-nil text, (ground arith, tt))
  ]

  Splits-some :
      (len : ℕ) (text : List A) (r : Option (List (List A)))
      → Splits len text r
      → (cs : List (List A)) × (r ≡ some cs) × (unchunk cs ≡ text) × All (λ c. length c ≤ len) cs
  Splits-some len text none s = absurd s
  Splits-some len text (some cs) s = (cs, refl, s.0, s.1)

  -- For a positive length chunk ends, no chunk is longer than the length, and unchunk puts the
  -- text together again.
  pub unchunk-chunk :
      (text : List A) (len : ℕ)
      → 0 < len
      → (cs : List (List A)) × (chunk text len ≡ some cs)
        × (unchunk cs ≡ text)
        × All (λ c. length c ≤ len) cs
  unfolding chunk
  unchunk-chunk text len p =
      Splits-some len text _ (chunk_loop-Splits (length text + 1) len text p (omega arith))
