-- ===== src/Util/Ordinals/Suffix.antt =====
-- The loop of `between` over what is left of the two texts, without the index and the prefix.
use mathlib.Core.List.{append_assoc}
use native.Mathlib.Numerals.{add-one}
use hyperhyperspace_core.Prelude.{
  ℕ, zero, suc, ◌+◌, ◌-◌, ◌≡◌, refl, Bool, true, ◌&&◌, ◌||◌, not, List, [], ◌∷◌, ◌++◌, Option, none,
  some, drop, get_elem?, ltb, if◌then◌else◌, Result, ok, throws, arith, ◌∙◌,
}
use hyperhyperspace_core.Util.Ordinals.{
  OrderError, larger_first_char, larger_prefix, turn, loop, code_at, min_char_code, max_char_code,
  midpoint,
}

abbrev pub Outcome : Type 0
Outcome = Option (Result OrderError (List ℕ))

-- The text `p` in front of the result.
abbrev pub put_front : List ℕ → Outcome → Outcome
put_front p none = none
put_front p (some (ok s)) = some (ok (p ++ s))
put_front p (some (throws e)) = some (throws e)

unfoldable pub suffix : ℕ → List ℕ → Option (List ℕ) → Bool → Outcome
suffix zero xs ys sm = none
suffix (suc f) (a ∷ xs) (some (b ∷ bs)) sm =
    let rest = put_front (a ∷ []) (suffix f xs (some bs) (if ltb a b then true else sm)) in
    if not sm && ltb b a
    then some (throws larger_first_char)
    else if (sm && ltb a max_char_code) || ltb (a + 1) b
    then some (ok ((a + 1) ∷ []))
    else rest
suffix (suc f) (a ∷ xs) (some []) sm =
    let rest = put_front (a ∷ []) (suffix f xs (some []) sm) in
    if not sm
    then some (throws larger_prefix)
    else if ltb a max_char_code
    then some (ok ((a + 1) ∷ []))
    else rest
suffix (suc f) (a ∷ xs) none sm =
    let rest = put_front (a ∷ []) (suffix f xs none sm) in
    if ltb a max_char_code then some (ok ((a + 1) ∷ [])) else rest
suffix (suc f) [] (some (b ∷ bs)) sm =
    let wedge = put_front ((b - 1) ∷ []) (suffix f [] (some (b ∷ bs)) true) in
    let rest = put_front (b ∷ []) (suffix f [] (some bs) sm) in
    if sm
    then some (ok (midpoint ∷ []))
    else if ltb min_char_code b
    then (if ltb min_char_code (b - 1) then some (ok ((b - 1) ∷ [])) else wedge)
    else rest
suffix (suc f) [] (some []) sm = some (ok (midpoint ∷ []))
suffix (suc f) [] none sm = some (ok (midpoint ∷ []))

put_front-put_front :
    (p q : List ℕ) (r : Outcome) → put_front (p ++ q) r ≡ put_front p (put_front q r)
put_front-put_front p q none = refl
put_front-put_front p q (some (ok s)) = rw append_assoc
put_front-put_front p q (some (throws e)) = refl

module _ {A : Type 0} where
  get_elem?-drop_nil : (i : ℕ) (s : List A) → drop i s ≡ [] → get_elem? s i ≡ none
  get_elem?-drop_nil zero [] e = refl
  get_elem?-drop_nil zero (x ∷ s) e = cc
  get_elem?-drop_nil (suc i) [] e = refl
  get_elem?-drop_nil (suc i) (x ∷ s) e = get_elem?-drop_nil i s e

  get_elem?-drop_cons :
      (i : ℕ) (s : List A) (x : A) (t : List A)
      → drop i s ≡ x ∷ t
      → (get_elem? s i ≡ some x) × (drop (i + 1) s ≡ t)
  get_elem?-drop_cons zero [] x t e = cc
  get_elem?-drop_cons zero (y ∷ s) x t e = ground arith
  get_elem?-drop_cons (suc i) [] x t e = cc
  get_elem?-drop_cons (suc i) (y ∷ s) x t e =
      let (got, left) = get_elem?-drop_cons i s x t e in
      (got, rw (add-one (suc i)) (rw (add-one i) at left))

  drop_past : (i : ℕ) (s : List A) → drop i s ≡ [] → drop (i + 1) s ≡ []
  drop_past zero [] e = refl
  drop_past zero (x ∷ s) e = cc
  drop_past (suc i) [] e = rw (add-one (suc i)) refl
  drop_past (suc i) (x ∷ s) e = rw (add-one (suc i)) (rw (add-one i) at (drop_past i s e))

abbrev pub text : Option (List ℕ) → List ℕ
text none = []
text (some s) = s

-- The suffix of a bound that is there.
abbrev pub keep : Option (List ℕ) → List ℕ → Option (List ℕ)
keep none s = none
keep (some t) s = some s

code_at-text : (s : Option (List ℕ)) (i : ℕ) → code_at s i ≡ get_elem? (text s) i
code_at-text none i = refl
code_at-text (some s) i = refl

module _ (s : Option (List ℕ)) (i : ℕ) where
  at_end : drop i (text s) ≡ [] → code_at s i ≡ none
  at_end e = code_at-text s i ∙ get_elem?-drop_nil i (text s) e

  at_char :
      (x : ℕ) (t : List ℕ)
      → drop i (text s) ≡ x ∷ t
      → (code_at s i ≡ some x) × (drop (i + 1) (text s) ≡ t)
  at_char x t e =
      let (got, left) = get_elem?-drop_cons i (text s) x t e in (code_at-text s i ∙ got, left)

drop-nil : (i : ℕ) → drop {A = ℕ} i [] ≡ []
drop-nil zero = refl
drop-nil (suc i) = refl

-- What the loop returns is what it has built, followed by what the suffixes yield.
pub loop-suffix :
    (f : ℕ) (after before : Option (List ℕ)) (sm : Bool) (i : ℕ) (o xs ys : List ℕ)
    → drop i (text after) ≡ xs
    → drop i (text before) ≡ ys
    → loop f after before sm i o ≡ put_front o (suffix f xs (keep before ys) sm)
unfolding loop turn suffix
loop-suffix zero after before sm i o xs ys ex ey = refl
loop-suffix (suc f) after (some t) sm i o (a ∷ xs) (b ∷ ys) ex ey =
    let (fa, ra) = at_char after i a xs ex in
    let (fb, rb) = at_char (some t) i b ys ey in
    let sm' : Bool = (if ltb a b then true else sm) in
    let ih = loop-suffix f after (some t) sm' (i + 1) (o ++ (a ∷ [])) xs ys ra rb in
    rw (fa, fb, loop)
      (ground (arith, ih, put_front-put_front o (a ∷ []) (suffix f xs (some ys) sm')))
loop-suffix (suc f) after none sm i o (a ∷ xs) (b ∷ ys) ex ey = cc (drop-nil i)
loop-suffix (suc f) after (some t) sm i o (a ∷ xs) [] ex ey =
    let (fa, ra) = at_char after i a xs ex in
    let rb = drop_past i t ey in
    let ih = loop-suffix f after (some t) sm (i + 1) (o ++ (a ∷ [])) xs [] ra rb in
    rw (fa, at_end (some t) i ey, loop)
      (ground (arith, ih, put_front-put_front o (a ∷ []) (suffix f xs (some []) sm)))
loop-suffix (suc f) after none sm i o (a ∷ xs) [] ex ey =
    let (fa, ra) = at_char after i a xs ex in
    let ih = loop-suffix f after none sm (i + 1) (o ++ (a ∷ [])) xs [] ra (drop-nil (i + 1)) in
    rw (fa, loop) (ground (arith, ih, put_front-put_front o (a ∷ []) (suffix f xs none sm)))
loop-suffix (suc f) after (some t) sm i o [] (b ∷ ys) ex ey =
    let (fb, rb) = at_char (some t) i b ys ey in
    let ih =
      loop-suffix f after (some t) sm (i + 1) (o ++ (b ∷ [])) [] ys (drop_past i (text after) ex)
        rb in
    let wedge = loop-suffix f after (some t) true i (o ++ ((b - 1) ∷ [])) [] (b ∷ ys) ex ey in
    rw (at_end after i ex, fb, loop)
      (ground (
        arith,
        ih,
        wedge,
        put_front-put_front o (b ∷ []) (suffix f [] (some ys) sm),
        put_front-put_front o ((b - 1) ∷ []) (suffix f [] (some (b ∷ ys)) true),
      ))
loop-suffix (suc f) after none sm i o [] (b ∷ ys) ex ey = cc (drop-nil i)
loop-suffix (suc f) after (some t) sm i o [] [] ex ey =
    ground (arith, at_end after i ex, at_end (some t) i ey)
loop-suffix (suc f) after none sm i o [] [] ex ey = ground (arith, at_end after i ex)
