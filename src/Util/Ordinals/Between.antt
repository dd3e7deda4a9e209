-- ===== src/Util/Ordinals/Between.antt =====
-- What `between` of src/util/ordinals.ts promises.
use hyperhyperspace_core.Prelude.{
  ℕ, zero, suc, ◌+◌, ◌-◌, ◌≤◌, ◌<◌, ◌≡◌, refl, Bool, true, false, List, [], ◌∷◌, ◌++◌, ◌∙◌, Option,
  none, some, length, ok, throws, arith, inl, inr, ◌⊎◌,
}
use hyperhyperspace_core.Util.Ordinals.{
  OrderError, larger_first_char, larger_prefix, between, length_of, midpoint,
}
use hyperhyperspace_core.Util.Ordinals.Order.{
  Lt, IsOrdinal, IsWord, IsWord-of_ordinal, IsOrdinal-cons,
}
use hyperhyperspace_core.Util.Ordinals.Suffix.{Outcome, put_front, suffix, loop-suffix, text, keep}

put_front-nil : (r : Outcome) → put_front [] r ≡ r
put_front-nil none = refl
put_front-nil (some (ok s)) = refl
put_front-nil (some (throws e)) = refl

-- A bound that is absent, or not there any more, is no bound.
abbrev pub Below : List ℕ → Option (List ℕ) → Type 0
Below s none = Unit
Below s (some t) = Lt s t

abbrev IsWordBound : Option (List ℕ) → Type 0
IsWordBound none = Unit
IsWordBound (some s) = IsWord s

-- The outcome is an ordinal after `xs`.
abbrev After : List ℕ → Outcome → Type 0
After xs none = ⊥
After xs (some (throws e)) = ⊥
After xs (some (ok s)) = Lt xs s × IsOrdinal s

-- The outcome is an ordinal between `xs` and `ys`.
abbrev Within : List ℕ → Option (List ℕ) → Outcome → Type 0
Within xs ys none = ⊥
Within xs ys (some (throws e)) = ⊥
Within xs ys (some (ok s)) = Lt xs s × Below s ys × IsOrdinal s

After-put_front :
    (a : ℕ) (xs : List ℕ) (r : Outcome)
    → b'a' ≤ a
    → a ≤ b'z'
    → After xs r
    → After (a ∷ xs) (put_front (a ∷ []) r)
After-put_front a xs none l u h = h
After-put_front a xs (some (throws e)) l u h = h
After-put_front a xs (some (ok s)) l u h = (inr (refl, h.0), IsOrdinal-cons a s l u h.1)

Within-put_front :
    (a : ℕ) (xs ys : List ℕ) (r : Outcome)
    → b'a' ≤ a
    → a ≤ b'z'
    → Within xs (some ys) r
    → Within (a ∷ xs) (some (a ∷ ys)) (put_front (a ∷ []) r)
Within-put_front a xs ys none l u h = h
Within-put_front a xs ys (some (throws e)) l u h = h
Within-put_front a xs ys (some (ok s)) l u h =
    (inr (refl, h.0), inr (refl, h.1), IsOrdinal-cons a s l u h.2)

-- The prefix is already smaller: whatever is left of `before` is no bound.
suffix_smaller :
    (f : ℕ) (xs : List ℕ) (ys : Option (List ℕ))
    → length xs < f
    → IsWord xs
    → IsWordBound ys
    → After xs (suffix f xs ys true)
unfolding suffix
suffix_smaller zero xs ys h w v = absurd (omega arith)
suffix_smaller (suc f) (a ∷ xs) (some (b ∷ bs)) h w v =
    ground (arith, After-put_front a xs (suffix f xs (some bs) true), suffix_smaller f xs (some bs))
suffix_smaller (suc f) (a ∷ xs) (some []) h w v =
    ground (arith, After-put_front a xs (suffix f xs (some []) true), suffix_smaller f xs (some []))
suffix_smaller (suc f) (a ∷ xs) none h w v =
    ground (arith, After-put_front a xs (suffix f xs none true), suffix_smaller f xs none)
suffix_smaller (suc f) [] (some (b ∷ bs)) h w v = ground arith
suffix_smaller (suc f) [] (some []) h w v = ground arith
suffix_smaller (suc f) [] none h w v = ground arith

-- With no upper bound.
suffix_unbounded :
    (f : ℕ) (xs : List ℕ) (sm : Bool) → length xs < f → IsWord xs → After xs (suffix f xs none sm)
unfolding suffix
suffix_unbounded zero xs sm h w = absurd (omega arith)
suffix_unbounded (suc f) (a ∷ xs) sm h w =
    ground (arith, After-put_front a xs (suffix f xs none sm), suffix_unbounded f xs sm)
suffix_unbounded (suc f) [] sm h w = ground arith

IsOrdinal-tail : (b : ℕ) (bs : List ℕ) → IsOrdinal (b ∷ bs) → (bs ≡ []) ⊎ IsOrdinal bs
IsOrdinal-tail b [] h = inl refl
IsOrdinal-tail b (c ∷ bs) h = inr h.2

IsOrdinal-tail_lt : (b : ℕ) (xs bs : List ℕ) → IsOrdinal (b ∷ bs) → Lt xs bs → IsOrdinal bs
IsOrdinal-tail_lt b [] [] h lt = absurd lt
IsOrdinal-tail_lt b (x ∷ xs) [] h lt = absurd lt
IsOrdinal-tail_lt b xs (c ∷ bs) h lt = h.2

-- A result after `xs`, behind a smaller character.
Within-of_smaller :
    (a b : ℕ) (xs ys : List ℕ) (r : Outcome)
    → a < b
    → b'a' ≤ a
    → a ≤ b'z'
    → After xs r
    → Within (a ∷ xs) (some (b ∷ ys)) (put_front (a ∷ []) r)
Within-of_smaller a b xs ys none lt l u h = h
Within-of_smaller a b xs ys (some (throws e)) lt l u h = h
Within-of_smaller a b xs ys (some (ok s)) lt l u h =
    (inr (refl, h.0), inl lt, IsOrdinal-cons a s l u h.1)

Within-wedge :
    (a b : ℕ) (ys : List ℕ) (r : Outcome)
    → a < b
    → b'a' ≤ a
    → a ≤ b'z'
    → After [] r
    → Within [] (some (b ∷ ys)) (put_front (a ∷ []) r)
Within-wedge a b ys none lt l u h = h
Within-wedge a b ys (some (throws e)) lt l u h = h
Within-wedge a b ys (some (ok s)) lt l u h = (tt, inl lt, IsOrdinal-cons a s l u h.1)

Within-copy :
    (b : ℕ) (ys : List ℕ) (r : Outcome)
    → b'a' ≤ b
    → b ≤ b'z'
    → Within [] (some ys) r
    → Within [] (some (b ∷ ys)) (put_front (b ∷ []) r)
Within-copy b ys none l u h = h
Within-copy b ys (some (throws e)) l u h = h
Within-copy b ys (some (ok s)) l u h = (tt, inr (refl, h.1), IsOrdinal-cons b s l u h.2)

-- Both bounds are in force.
suffix_bounded :
    (f : ℕ) (xs ys : List ℕ)
    → length xs + length ys + 1 < f
    → IsWord xs
    → IsOrdinal ys
    → Lt xs ys
    → Within xs (some ys) (suffix f xs (some ys) false)
unfolding suffix
suffix_bounded zero xs ys h w o lt = absurd (omega arith)
suffix_bounded (suc f) (a ∷ xs) [] h w o lt = absurd lt
suffix_bounded (suc f) [] [] h w o lt = absurd lt
suffix_bounded (suc f) (a ∷ xs) (b ∷ bs) h w o (inl lt) =
    let v = IsWord-of_ordinal (b ∷ bs) o in
    ground (
      arith,
      v,
      Within-of_smaller a b xs bs (suffix f xs (some bs) true),
      suffix_smaller f xs (some bs),
    )
suffix_bounded (suc f) (a ∷ xs) (b ∷ bs) h w o (inr (e, lt)) = ground (
  arith,
  IsWord-of_ordinal (b ∷ bs) o,
  IsOrdinal-tail_lt b xs bs o lt,
  Within-put_front a xs bs (suffix f xs (some bs) false),
  suffix_bounded f xs bs,
)
suffix_bounded (suc f) [] (b ∷ bs) h w o lt =
    let v = IsWord-of_ordinal (b ∷ bs) o in
    ground (
      arith,
      v,
      IsOrdinal-tail b bs o,
      Within-wedge (b - 1) b bs (suffix f [] (some (b ∷ bs)) true),
      suffix_smaller f [] (some (b ∷ bs)),
      Within-copy b bs (suffix f [] (some bs) false),
      suffix_bounded f [] bs,
    )

-- `suffix` decides the outcome of `between`.
between-suffix :
    (after before : Option (List ℕ))
    → between after before
      ≡ suffix
          (length_of after + length_of before + 3)
          (text after)
          (keep before (text before))
          false
unfolding between
between-suffix after before =
    loop-suffix (length_of after + length_of before + 3) after before false 0 [] (text after)
      (text before) refl refl
    ∙ put_front-nil _

Within-of_After : (xs : List ℕ) (r : Outcome) → After xs r → Within xs none r
Within-of_After xs none h = h
Within-of_After xs (some (throws e)) h = h
Within-of_After xs (some (ok s)) h = (h.0, tt, h.1)

Lt-nil : (s : List ℕ) → IsOrdinal s → Lt [] s
Lt-nil [] h = h
Lt-nil (c ∷ s) h = tt

-- The bounds that are given are ordinals, the lower one first.
abbrev pub IsInterval : Option (List ℕ) → Option (List ℕ) → Type 0
IsInterval none none = Unit
IsInterval (some a) none = IsOrdinal a
IsInterval none (some b) = IsOrdinal b
IsInterval (some a) (some b) = IsOrdinal a × IsOrdinal b × Lt a b

between_outcome :
    (after before : Option (List ℕ))
    → IsInterval after before
    → Within (text after) before (between after before)
between_outcome none none h =
    rw (between-suffix none none)
      (Within-of_After [] _ (suffix_unbounded _ [] false (omega arith) tt))
between_outcome (some a) none h =
    rw (between-suffix (some a) none)
      (Within-of_After a _ (suffix_unbounded _ a false (omega arith) (IsWord-of_ordinal a h)))
between_outcome none (some b) h =
    rw (between-suffix none (some b)) (suffix_bounded _ [] b (omega arith) tt h (Lt-nil b h))
between_outcome (some a) (some b) h =
    rw (between-suffix (some a) (some b))
      (suffix_bounded _ a b (omega arith) (IsWord-of_ordinal a h.0) h.1 h.2)

Within-ok :
    (xs : List ℕ) (ys : Option (List ℕ)) (r : Outcome)
    → Within xs ys r
    → (s : List ℕ) × (r ≡ some (ok s)) × Lt xs s × Below s ys × IsOrdinal s
Within-ok xs ys none h = absurd h
Within-ok xs ys (some (throws e)) h = absurd h
Within-ok xs ys (some (ok s)) h = (s, refl, h.0, h.1, h.2)

-- If the bounds that are given are ordinals, and the lower is below the upper where both are,
-- then between ends without an error in an ordinal above the lower bound and below the upper one.
pub between_within :
    (after before : Option (List ℕ))
    → IsInterval after before
    → (s : List ℕ) × (between after before ≡ some (ok s))
      × Lt (text after) s
      × Below s before
      × IsOrdinal s
between_within after before h = Within-ok (text after) before _ (between_outcome after before h)

suffix_throws :
    (f : ℕ) (xs ys : List ℕ)
    → length xs < f
    → Lt ys xs
    → (e : OrderError) × (suffix f xs (some ys) false ≡ some (throws e))
unfolding suffix
suffix_throws zero xs ys h lt = absurd (omega arith)
suffix_throws (suc f) [] [] h lt = absurd lt
suffix_throws (suc f) [] (b ∷ ys) h lt = absurd lt
suffix_throws (suc f) (a ∷ xs) [] h lt = (larger_prefix, refl)
suffix_throws (suc f) (a ∷ xs) (b ∷ ys) h (inl lt) = (larger_first_char, ground arith)
suffix_throws (suc f) (a ∷ xs) (b ∷ ys) h (inr (p, lt)) =
    let (e, thrown) = suffix_throws f xs ys (omega arith) lt in (e, ground (arith, thrown))

-- If both bounds are given and the lower is above the upper, between throws.
pub between_throws :
    (a b : List ℕ) → Lt b a → (e : OrderError) × (between (some a) (some b) ≡ some (throws e))
between_throws a b lt = rw (between-suffix (some a) (some b)) (suffix_throws _ a b (omega arith) lt)

suffix_equal :
    (f : ℕ) (xs : List ℕ)
    → length xs < f
    → suffix f xs (some xs) false ≡ some (ok (xs ++ (midpoint ∷ [])))
unfolding suffix
suffix_equal zero xs h = absurd (omega arith)
suffix_equal (suc f) [] h = refl
suffix_equal (suc f) (a ∷ xs) h = ground (arith, suffix_equal f xs)

not-Lt-append : (a s : List ℕ) → ¬ Lt (a ++ s) a
not-Lt-append [] [] h = h
not-Lt-append [] (c ∷ s) h = h
not-Lt-append (x ∷ a) s (inl h) = omega arith
not-Lt-append (x ∷ a) s (inr (e, h)) = not-Lt-append a s h

-- If the two bounds are the same text, between does not throw: it returns the text with a
-- character behind it, which is not below the upper bound.
pub between_equal :
    (a : List ℕ)
    → (between (some a) (some a) ≡ some (ok (a ++ (midpoint ∷ []))))
      × (¬ Lt (a ++ (midpoint ∷ [])) a)
between_equal a =
    (between-suffix (some a) (some a) ∙ suffix_equal _ a (omega arith), not-Lt-append a _)
