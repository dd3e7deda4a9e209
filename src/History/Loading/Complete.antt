-- ===== src/History/Loading/Complete.antt =====
-- The loading of a history by loadFromTerminalOpHeaders of src/data/history/HistoryFragment.ts ends
-- where the store is complete, and what is loaded is complete.
use hyperhyperspace_core.Prelude.{
  ℕ, zero, suc, ◌≤◌, Hash, Bool, true, false, List, [], ◌∷◌, Option, some, ◌||◌, ◌≡◌, refl, ◌∙◌, ap,
  if◌then◌else◌, string_key, Result, ok, arith, same, Bool-cases, inl, inr, subst,
}
use hyperhyperspace_core.History.Outside.{outside, outside_le, outside_lt, outside_pos}
use hyperhyperspace_core.Js.Map
use hyperhyperspace_core.Js.Set
use hyperhyperspace_core.Js.Set.{JsSet}
use hyperhyperspace_core.History.Header.{OpHeader}
use hyperhyperspace_core.History.Fragment.{Fragment, add, is_empty}
use hyperhyperspace_core.History.Fragment.Invariant.{IsConsistent, follows}
use hyperhyperspace_core.History.Fragment.Add.{add-IsConsistent}
use hyperhyperspace_core.History.Fragment.Spec.{missing_iff}
use hyperhyperspace_core.History.Queries.Copies.{contents-add}
use hyperhyperspace_core.History.Loading.{
  LoadError, is_forbidden, allowed, is_full, load_next, following, rounds,
  load_from_terminal_op_headers,
}

abbrev pub held : Hash → Fragment → Bool
held x f = Map.has x f.contents

-- How many of the hashes are not held.
abbrev pub unheld : List Hash → Fragment → ℕ
unheld xs f = outside (λ x. held x f) xs

-- Everything that `f` holds is held by `g`.
abbrev Grows : Fragment → Fragment → Type 0
Grows f g = (x : Hash) → held x f ≡ true → held x g ≡ true

some_member : (s : List Hash) → is_empty s ≡ false → (y : Hash) × (Set.has y s ≡ true)
some_member [] e = cc
some_member (y ∷ s) e = (y, Set.has-head y s)

has-allowed :
    (forbidden : Option (JsSet Hash)) (x : Hash) (xs : List Hash)
    → Set.has x (allowed forbidden xs) ≡ (if is_forbidden forbidden x then false else Set.has x xs)
unfolding allowed Set.has
has-allowed forbidden x [] = ground arith
has-allowed forbidden x (y ∷ ys) =
    ground (arith, has-allowed forbidden x ys, ap (is_forbidden forbidden) {x = y} {y = x})

-- The store has the header of every hash of the list, under this hash, and the list has the hashes
-- of its predecessors.
pub record IsComplete (load : Hash → Option OpHeader) (all : List Hash) : Type 0 where
  pub loads :
      (x : Hash)
      → Set.has x all ≡ true
      → (h : OpHeader) × (load x ≡ some h)
        × (h.header_hash ≡ x)
        × ((p : Hash) → Set.has p h.prev_op_headers ≡ true → Set.has p all ≡ true)

-- The predecessors of the headers that are held are among the hashes.
abbrev pub IsWithin : List Hash → Fragment → Type 0
IsWithin all f = (x p : Hash) → follows (Map.get x f.contents) p ≡ true → Set.has p all ≡ true

module _ (load : Hash → Option OpHeader) (max_op_headers : Option ℕ)
    (forbidden : Option (JsSet Hash)) (all : List Hash) (complete : IsComplete load all) where
  record Sound (f : Fragment) : Type 0 where
    consistent : IsConsistent f
    within : IsWithin all f

  add-Sound :
      (h : OpHeader) (f : Fragment)
      → ((p : Hash) → Set.has p h.prev_op_headers ≡ true → Set.has p all ≡ true)
      → Sound f
      → Sound (add h f)
  add-Sound h f w s = record {
    consistent = add-IsConsistent h f s.consistent;
    within = λ x p e. ground (arith, contents-add x h f, s.within x p, w p);
  }

  add-Grows : (h : OpHeader) (f : Fragment) → Grows f (add h f)
  add-Grows h f x e = ground (arith, contents-add x h f, e)

  add-held : (h : OpHeader) (f : Fragment) → held h.header_hash (add h f) ≡ true
  add-held h f = ground (arith, contents-add h.header_hash h f)

  -- What a turn over some hashes ends in: unless the fragment is full, it holds all of them.
  record Loaded (xs : List Hash) (f g : Fragment) : Type 0 where
    sound : Sound g
    grows : Grows f g
    holds :
        is_full load max_op_headers forbidden g ≡ false
        → (x : Hash) → Set.has x xs ≡ true
        → held x g ≡ true

  load_next-Loaded :
      (xs : List Hash) (f : Fragment)
      → ((x : Hash) → Set.has x xs ≡ true → Set.has x all ≡ true)
      → Sound f
      → (g : Fragment) × (load_next load max_op_headers forbidden xs f ≡ ok g) × Loaded xs f g
  unfolding load_next Set.has
  load_next-Loaded [] f a s = (f, refl, record { sound = s; grows = λ x e. e; holds = λ u x e. cc })
  load_next-Loaded (x ∷ xs) f a s =
      let (h, e, k, w) = complete.loads x (a x (Set.has-head x xs)) in
      let s' = add-Sound h f w s in
      elim (Bool-cases (is_full load max_op_headers forbidden (add h f))) [
        | inl full ↦ (
          add h f,
          rw (e, load_next, full) refl,
          record { sound = s'; grows = add-Grows h f; holds = λ u y m. cc },
        )
        | inr free ↦
            let (g, q, l) = load_next-Loaded xs (add h f) (λ y m. a y (ground (arith, m))) s' in
            (
              g,
              rw (e, load_next, free) q,
              record {
                sound = l.sound;
                grows = λ y m. l.grows y (add-Grows h f y m);
                holds = λ u y m. elim (same x y) [
                  | yes p ↦
                      subst (λ z. held z g ≡ true) (k ∙ p) (l.grows h.header_hash (add-held h f))
                  | no p ↦ l.holds u y (ground (arith, m))
                ];
              },
            )
      ]

  -- What is loaded next is in the list, and not held.
  following_fresh :
      (f : Fragment) (x : Hash)
      → Sound f
      → Set.has x (following load max_op_headers forbidden f) ≡ true
      → (Set.has x all ≡ true) × (held x f ≡ false)
  following_fresh f x s m =
      let (n, (y, e)) =
        (missing_iff f s.consistent x).0
          (ground (arith, has-allowed forbidden x f.missing_prev_op_headers, m)) in
      (s.within y x e, n)

  -- The loaded fragment: full, or complete with the given hashes, up to those that are forbidden.
  pub record IsLoaded (terminal : List Hash) (f g : Fragment) : Type 0 where
    pub consistent : IsConsistent g
    pub grows : (x : Hash) → held x f ≡ true → held x g ≡ true
    pub holds :
        is_full load max_op_headers forbidden g ≡ false
        → (x : Hash) → Set.has x terminal ≡ true
        → is_forbidden forbidden x ≡ false
        → held x g ≡ true
    pub missing_forbidden :
        is_full load max_op_headers forbidden g ≡ false
        → (x : Hash) → Set.has x g.missing_prev_op_headers ≡ true
        → is_forbidden forbidden x ≡ true

  record Done (xs : List Hash) (f g : Fragment) : Type 0 where
    sound : Sound g
    grows : Grows f g
    holds :
        is_full load max_op_headers forbidden g ≡ false
        → (x : Hash) → Set.has x xs ≡ true
        → held x g ≡ true
    none_following :
        is_full load max_op_headers forbidden g ≡ false
        → (x : Hash) → Set.has x (following load max_op_headers forbidden g) ≡ false

  abbrev EndsDone : List Hash → Fragment → Option (Result LoadError Fragment) → Type 0
  EndsDone xs f o = (g : Fragment) × (o ≡ some (ok g)) × Done xs f g

  -- What a round that stops, or goes on, ends in.
  rounds_stop :
      (n : ℕ) (xs : List Hash) (f g : Fragment)
      → load_next load max_op_headers forbidden xs f ≡ ok g
      → (is_empty (following load max_op_headers forbidden g)
          || is_full load max_op_headers forbidden g)
        ≡ true
      → rounds load max_op_headers forbidden (suc n) xs f ≡ some (ok g)
  unfolding rounds
  rounds_stop n xs f g e stop = rw (e, stop, rounds) refl

  rounds_go :
      (n : ℕ) (xs : List Hash) (f g : Fragment)
      → load_next load max_op_headers forbidden xs f ≡ ok g
      → (is_empty (following load max_op_headers forbidden g)
          || is_full load max_op_headers forbidden g)
        ≡ false
      → rounds load max_op_headers forbidden (suc n) xs f
        ≡ rounds load max_op_headers forbidden n (following load max_op_headers forbidden g) g
  unfolding rounds
  rounds_go n xs f g e go = rw (e, go, rounds) refl

  loaded-EndsDone :
      (n : ℕ) (xs : List Hash) (f g : Fragment)
      → load_next load max_op_headers forbidden xs f ≡ ok g
      → Loaded xs f g
      → ((y : Hash)
          → Set.has y (following load max_op_headers forbidden g) ≡ true
          → is_full load max_op_headers forbidden g ≡ false
          → EndsDone (following load max_op_headers forbidden g) g (
              rounds load max_op_headers forbidden n (following load max_op_headers forbidden g) g))
      → EndsDone xs f (rounds load max_op_headers forbidden (suc n) xs f)
  loaded-EndsDone n xs f g e l rest =
      elim (Bool-cases (
        is_empty (following load max_op_headers forbidden g)
        || is_full load max_op_headers forbidden g)) [
          | inl stop ↦ (
            g,
            rounds_stop n xs f g e stop,
            record {
              sound = l.sound;
              grows = l.grows;
              holds = l.holds;
              none_following = λ u x.
                  Set.has_of_empty x (following load max_op_headers forbidden g)
                    (ground (arith, stop, u));
            },
          )
          | inr go ↦
              let (y, m) =
                some_member (following load max_op_headers forbidden g) (ground (arith, go)) in
              let (g', e', d) = rest y m (ground (arith, go)) in
              (
                g',
                rounds_go n xs f g e go ∙ e',
                record {
                  sound = d.sound;
                  grows = λ x h. d.grows x (l.grows x h);
                  holds = λ u x h. d.grows x (l.holds (ground (arith, go)) x h);
                  none_following = d.none_following;
                },
              )
        ]

  fresh-EndsDone :
      (n : ℕ) (xs : List Hash) (f : Fragment) (y : Hash)
      → ((x : Hash) → Set.has x xs ≡ true → Set.has x all ≡ true)
      → Sound f
      → Set.has y xs ≡ true
      → held y f ≡ false
      → unheld all f ≤ n
      → (g : Fragment) × (rounds load max_op_headers forbidden n xs f ≡ some (ok g)) × Done xs f g
  fresh-EndsDone zero xs f y a s m u b =
      absurd (omega (arith, outside_pos (λ z. held z f) y all (a y m) u, b))
  fresh-EndsDone (suc n) xs f y a s m u b =
      let (g, e, l) = load_next-Loaded xs f a s in
      loaded-EndsDone n xs f g e l (λ z k free.
        let (i, v) = following_fresh g z l.sound k in
        fresh-EndsDone n (following load max_op_headers forbidden g) g z
          (λ x j. (following_fresh g x l.sound j).0) l.sound k v
          (omega (
            arith,
            b,
            outside_lt (λ z. held z f) (λ z. held z g) l.grows y all (a y m) u (l.holds free y m),
          )))

  -- If a list has, with each hash, those of the predecessors of its header, the store has these
  -- headers under their hashes, and the given terminal hashes and the predecessors in a
  -- consistent fragment are in the list, then loading ends without an error within one round more
  -- than there are hashes in the list that the fragment does not hold, in a consistent fragment
  -- that holds all that it held; unless it is full, it holds the terminal hashes that are not
  -- forbidden and misses only forbidden ones.
  pub load_from_terminal_op_headers-IsLoaded :
      (terminal : List Hash) (f : Fragment)
      → IsConsistent f
      → IsWithin all f
      → ((x : Hash) → Set.has x terminal ≡ true → Set.has x all ≡ true)
      → (g : Fragment) × (load_from_terminal_op_headers load max_op_headers forbidden
            (suc (unheld all f))
            terminal
            f
          ≡ some (ok g))
        × IsLoaded terminal f g
  unfolding load_from_terminal_op_headers
  load_from_terminal_op_headers-IsLoaded terminal f c w a =
      let s : Sound f = record { consistent = c; within = w } in
      let a' : (x : Hash) → Set.has x (allowed forbidden terminal) ≡ true → Set.has x all ≡ true =
        λ x m. a x (ground (arith, has-allowed forbidden x terminal, m)) in
      let (g, e, l) = load_next-Loaded (allowed forbidden terminal) f a' s in
      let (g', e', d) =
        loaded-EndsDone (unheld all f) (allowed forbidden terminal) f g e l (λ y m free.
          let (i, n) = following_fresh g y l.sound m in
          fresh-EndsDone (unheld all f) (following load max_op_headers forbidden g) g y
            (λ x k. (following_fresh g x l.sound k).0) l.sound m n
            (outside_le (λ z. held z f) (λ z. held z g) l.grows all)) in
      (
        g',
        e',
        record {
          consistent = d.sound.consistent;
          grows = d.grows;
          holds = λ u x m n. d.holds u x (ground (arith, has-allowed forbidden x terminal, m, n));
          missing_forbidden = λ u x m.
              ground (
                arith,
                has-allowed forbidden x g'.missing_prev_op_headers,
                d.none_following u x,
                m,
              );
        },
      )
