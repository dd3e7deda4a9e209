-- ===== src/Collections/MutableArray/Shown.antt =====
-- What an array of src/data/collections/mutable/MutableArray.ts shows once it was rebuilt.
use mathlib.Core.List.{Perm}
use hyperhyperspace_core.Prelude.{
  ◌≡◌, ◌≢◌, refl, sym, ap, ◌∙◌, Hash, Bool, true, false, List, [], ◌∷◌, ◌++◌, some, not, ◌||◌, ite,
  same, arith, string_key, if◌then◌else◌, ◌==◌, Option-cases, Bool-cases, inl, inr, subst, All, any,
  any-perm,
}
use hyperhyperspace_core.Js.Map
use hyperhyperspace_core.Js.Map.{JsMap}
use hyperhyperspace_core.Js.Set
use hyperhyperspace_core.Util.ArrayMap
use hyperhyperspace_core.Model.HashedSet
use hyperhyperspace_core.Model.Reference.{HashReference}
use hyperhyperspace_core.Collections.MutableArray.{
  MutableArray, Ordinal, ordinal_key, refs_of, Rebuilt, show_elements, show_ordinals, rebuild,
}
use hyperhyperspace_core.Collections.MutableArray.Counts.{occurrences}
use hyperhyperspace_core.Collections.MutableArray.Standing.{standing, Refs, Ords}
use hyperhyperspace_core.Collections.MutableArray.InStep.{IsPlaced, IsInStep}

has-snoc :
    (x y : Hash) (a : List Hash)
    → Set.has x (a ++ (y ∷ [])) ≡ (Set.has x a || ite (same y x) true false)
unfolding Set.has
has-snoc x y [] = ground arith
has-snoc x y (z ∷ a) = ground (arith, has-snoc x y a)

-- A value stands in a list exactly if it occurs there.
has-occurrences : (x : Hash) (a : List Hash) → Set.has x a ≡ not (occurrences x a == 0)
unfolding Set.has occurrences
has-occurrences x [] = refl
has-occurrences x (y ∷ a) = ground (arith, has-occurrences x a)

module _ {T : Type 0} (s : MutableArray T) where
  -- The hashes that were seen are those that are shown, and none is shown twice, if duplicates are
  -- not wanted.
  record Tracks (r : Rebuilt T) : Type 0 where
    seen : s.duplicates ≡ false → (x : Hash) → Set.has x r.seen ≡ Set.has x r.hashes
    once : s.duplicates ≡ false → Set.IsDistinct r.hashes

  abbrev shown : Ordinal → Hash → Rebuilt T → Rebuilt T
  shown o x r =
      if s.duplicates || not (Set.has x r.seen)
      then record {
        contents = r.contents ++ (Map.get x s.elements ∷ []);
        hashes = r.hashes ++ (x ∷ []);
        ordinals = r.ordinals ++ (o ∷ []);
        seen = if s.duplicates then r.seen else Set.add x r.seen;
      }
      else r

  shown-Tracks : (o : Ordinal) (x : Hash) (r : Rebuilt T) → Tracks r → Tracks (shown o x r)
  shown-Tracks o x r t = record {
    seen = λ d y. ground (arith, d, t.seen d y, Set.has-add y x r.seen, has-snoc y x r.hashes);
    once = λ d. elim (Bool-cases (Set.has x r.seen)) [
      | inl h ↦ rw (d, h) (t.once d)
      | inr h ↦
          rw (d, h)
            (subst Set.IsDistinct (Set.add_absent x r.hashes (sym (t.seen d x) ∙ h))
              (Set.add-IsDistinct x r.hashes (t.once d)))
    ];
  }

  has-shown :
      (o : Ordinal) (x y : Hash) (r : Rebuilt T)
      → Tracks r
      → Set.has y (shown o x r).hashes ≡ (Set.has y r.hashes || ite (same x y) true false)
  has-shown o x y r t = elim (Bool-cases s.duplicates) [
    | inl d ↦ rw d (has-snoc y x r.hashes)
    | inr d ↦ elim (Bool-cases (Set.has x r.seen)) [
      | inr h ↦ rw (d, h) (has-snoc y x r.hashes)
      | inl h ↦
          rw (d, h) (ground (arith, t.seen d x, h, ap (λ z. Set.has z r.hashes) {x = x} {y = y}))
    ]
  ]

  elements-Tracks :
      (o : Ordinal) (xs : List Hash) (r : Rebuilt T) → Tracks r → Tracks (show_elements s o xs r)
  unfolding show_elements
  elements-Tracks o [] r t = t
  elements-Tracks o (x ∷ xs) r t = elements-Tracks o xs (shown o x r) (shown-Tracks o x r t)

  has-elements :
      (o : Ordinal) (xs : List Hash) (y : Hash) (r : Rebuilt T)
      → Tracks r
      → Set.has y (show_elements s o xs r).hashes ≡ (Set.has y r.hashes || Set.has y xs)
  unfolding show_elements Set.has
  has-elements o [] y r t = ground arith
  has-elements o (x ∷ xs) y r t =
      has-elements o xs y (shown o x r) (shown-Tracks o x r t) ∙ ground (arith, has-shown o x y r t)

  abbrev at : Ordinal → List Hash
  at o = ArrayMap.get o s.elements_per_ordinal

  ordinals-Tracks : (os : List Ordinal) (r : Rebuilt T) → Tracks r → Tracks (show_ordinals s os r)
  unfolding show_ordinals
  ordinals-Tracks [] r t = t
  ordinals-Tracks (o ∷ os) r t =
      ordinals-Tracks os (show_elements s o (at o) r) (elements-Tracks o (at o) r t)

  has-ordinals :
      (os : List Ordinal) (y : Hash) (r : Rebuilt T)
      → Tracks r
      → Set.has y (show_ordinals s os r).hashes
        ≡ (Set.has y r.hashes || any (λ o. Set.has y (at o)) os)
  unfolding show_ordinals
  has-ordinals [] y r t = ground arith
  has-ordinals (o ∷ os) y r t =
      has-ordinals os y (show_elements s o (at o) r) (elements-Tracks o (at o) r t)
      ∙ ground (arith, has-elements o (at o) y r t)

any_none :
    (f : Ordinal → Bool) (os : List Ordinal) → ((o : Ordinal) → f o ≡ false) → any f os ≡ false
any_none f [] n = refl
any_none f (o ∷ os) n = ground (arith, n o, any_none f os n)

any-keys :
    {V : Type 0} (f : Ordinal → Bool) (p : Ordinal) (m : JsMap Ordinal V)
    → Map.has p m ≡ true
    → f p ≡ true
    → any f (Map.keys m) ≡ true
unfolding Map.get
any-keys f p [] h e = cc
any-keys f p ((o, v) ∷ m) h e = elim (same o p) [
  | yes q ↦ ground (arith, ap f q, e)
  | no q ↦ ground (arith, any-keys f p m (ground (arith, h)) e)
]

standing-nil : (o : Ordinal) (ords : Ords) → standing o [] ords ≡ 0
unfolding standing
standing-nil o ords = refl

-- The first insertion stands at its ordinal.
standing_first :
    (p : Ordinal) (k : Hash) (q : HashReference) (m : Refs) (ords : Ords)
    → Map.get q.hash ords ≡ some p
    → standing p ((k, q) ∷ m) ords ≢ 0
unfolding standing
standing_first p k q m ords e n = ground (arith, e, n)

module _ {T : Type 0} (hash_ref : HashReference → Hash) (sort : List Ordinal → List Ordinal)
    (sorts : (os : List Ordinal) → Perm (sort os) os) (s : MutableArray T)
    (i : IsInStep hash_ref s) where
  abbrev is_at : Hash → Ordinal → Bool
  is_at x o = Set.has x (at s o)

  is_at_of_standing :
      (x : Hash) (o : Ordinal)
      → is_at x o ≡ not (standing o (refs_of x s) s.current_insert_op_ords == 0)
  is_at_of_standing x o = has-occurrences x (at s o) ∙ ap (λ n. not (n == 0)) (i.counted o x)

  has_key_of_at :
      (x : Hash) (o : Ordinal) → is_at x o ≡ true → Map.has o s.elements_per_ordinal.inner ≡ true
  unfolding ArrayMap.get
  has_key_of_at x o h = elim (Option-cases (Map.get o s.elements_per_ordinal.inner)) [
    | inl e ↦ absurd (ground (arith, h, e, Set.has-nil x))
    | inr (a, e) ↦ ground (arith, e)
  ]

  any_at :
      (x : Hash) (m : Refs)
      → refs_of x s ≡ m
      → any (is_at x) (Map.keys s.elements_per_ordinal.inner) ≡ not (HashedSet.size m == 0)
  unfolding HashedSet.size
  any_at x [] e = any_none (is_at x) (Map.keys s.elements_per_ordinal.inner) (λ o.
      is_at_of_standing x o
      ∙ ap (λ n. not (n == 0))
          (ap (λ m. standing o m s.current_insert_op_ords) e
            ∙ standing-nil o s.current_insert_op_ords))
  any_at x ((k, q) ∷ m) e =
      let placed = (subst (All (IsPlaced hash_ref s.current_insert_op_ords)) e (i.placed x)).0 in
      elim (Option-cases (Map.get q.hash s.current_insert_op_ords)) [
        | inl n ↦ absurd (ground (arith, n, placed.has_ordinal))
        | inr (p, n) ↦
            let stands = standing_first p k q m s.current_insert_op_ords n in
            let here : is_at x p ≡ true =
              is_at_of_standing x p
              ∙ ap (λ m. not (standing p m s.current_insert_op_ords == 0)) e
              ∙ ground (arith, stands) in
            any-keys (is_at x) p s.elements_per_ordinal.inner (has_key_of_at x p here) here
            ∙ ground arith
      ]

  pub rebuild_shows :
      s.need_to_rebuild ≡ true
      → ((x : Hash) → Set.has x (rebuild sort s).hashes ≡ not (HashedSet.size (refs_of x s) == 0))
        × (s.duplicates ≡ false → Set.IsDistinct (rebuild sort s).hashes)
  unfolding rebuild
  rebuild_shows need =
      let keys = Map.keys s.elements_per_ordinal.inner in
      let r : Rebuilt T = record { contents = []; hashes = []; ordinals = []; seen = [] } in
      let t : Tracks s r = record { seen = λ d x. refl; once = λ d. tt } in
      (
        (λ x. rw need (
            has-ordinals s (sort keys) x r t
            ∙ ground (
              arith,
              Set.has-nil x,
              any-perm (is_at x) (sorts keys),
              any_at x (refs_of x s) refl,
            ))),
        λ d. rw need ((ordinals-Tracks s (sort keys) r t).once d),
      )
