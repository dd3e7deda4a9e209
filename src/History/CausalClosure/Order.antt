-- ===== src/History/CausalClosure/Order.antt =====
-- The order and the length of the causal closure of src/data/history/HistoryFragment.ts.
use hyperhyperspace_core.Prelude.{
  ℕ, ◌≡◌, refl, sym, ◌∙◌, ap, subst, Hash, true, List, [], ◌∷◌, ◌++◌, Option, none, some, ◌==◌,
  if◌then◌else◌, ok, length, string_key, arith, ◌||◌, ◌&&◌, not, Bool-cases, Option-cases, inl, inr,
  All, length-append, ite, same, ◌≤◌, ◌+◌,
}
use hyperhyperspace_core.Js.Map
use hyperhyperspace_core.Js.Map.{JsMap}
use hyperhyperspace_core.Js.Set
use hyperhyperspace_core.Js.Set.{JsSet}
use hyperhyperspace_core.Util.MultiMap
use hyperhyperspace_core.History.Header.{OpHeader}
use hyperhyperspace_core.History.Fragment.{Fragment, is_empty}
use hyperhyperspace_core.History.Fragment.Invariant.{IsConsistent}
use hyperhyperspace_core.History.Walk.{forward, full, Filter, passes}
use hyperhyperspace_core.History.Walk.Closure.{walk_iff, walk_held}
use hyperhyperspace_core.History.CausalClosure.{
  Progress, reached, unprovided, load_missing_prev_op_headers, fulfil, fulfil_all, include, visit,
  visit_all, causal_closure_from,
}

module _ (provided : JsSet Hash) (filter : Filter) (f : Fragment) where
  -- Each hash stands after the predecessors of its header that are not provided.
  abbrev pub IsOrdered : List Hash → List Hash → Type 0
  IsOrdered before [] = Unit
  IsOrdered before (x ∷ xs) =
      ((h : OpHeader) (p : Hash)
        → Map.get x f.contents ≡ some h
        → Set.has p h.prev_op_headers ≡ true
        → (Set.has p provided || Set.has p before) ≡ true)
      × IsOrdered (x ∷ before) xs

  abbrev IsReady : Hash → List Hash → Type 0
  IsReady x seen =
      (h : OpHeader) (p : Hash)
      → Map.get x f.contents ≡ some h
      → Set.has p h.prev_op_headers ≡ true
      → (Set.has p provided || Set.has p seen) ≡ true

  has-append :
      (p : Hash) (xs ys : List Hash) → Set.has p (xs ++ ys) ≡ (Set.has p xs || Set.has p ys)
  unfolding Set.has
  has-append p [] ys = refl
  has-append p (x ∷ xs) ys = ground (arith, has-append p xs ys)

  IsOrdered-snoc :
      (before xs : List Hash) (y : Hash)
      → IsOrdered before xs
      → IsReady y (xs ++ before)
      → IsOrdered before (xs ++ (y ∷ []))
  unfolding Set.has
  IsOrdered-snoc before [] y o r = (r, tt)
  IsOrdered-snoc before (x ∷ xs) y o r = (
    o.0,
    IsOrdered-snoc (x ∷ before) xs y o.1 (λ h p g k.
        ground (arith, r h p g k, has-append p xs before, has-append p xs (x ∷ before))),
  )

  -- What a header with an entry waits for is missing, provided or among the hashes seen.
  abbrev IsWaiting : JsMap Hash (JsSet Hash) → JsSet Hash → Type 0
  IsWaiting m seen =
      (x : Hash) (s : JsSet Hash) (h : OpHeader) (p : Hash)
      → Map.get x m ≡ some s
      → Map.get x f.contents ≡ some h
      → Set.has p h.prev_op_headers ≡ true
      → (Set.has p s || (Set.has p provided || Set.has p seen)) ≡ true

  has-unprovided :
      (p : Hash) (ps : List Hash) (s : JsSet Hash)
      → Set.has p (unprovided provided none filter f ps s)
        ≡ (Set.has p s || (Set.has p ps && not (Set.has p provided)))
  unfolding unprovided Set.has
  has-unprovided p [] s = ground arith
  has-unprovided p (q ∷ ps) s = ground (
    arith,
    has-unprovided p ps s,
    has-unprovided p ps (Set.add q s),
    Set.has-add p q s,
    ap (λ z. Set.has z provided) {x = q} {y = p},
  )

  abbrev load : OpHeader → JsMap Hash (JsSet Hash) → JsMap Hash (JsSet Hash)
  load h m = load_missing_prev_op_headers provided none filter f h m

  get-load :
      (x : Hash) (h : OpHeader) (m : JsMap Hash (JsSet Hash))
      → Map.get x (load h m) ≡ (
          if Map.has h.header_hash m
          then Map.get x m
          else ite
              (same h.header_hash x)
              (some (unprovided provided none filter f h.prev_op_headers []))
              (Map.get x m))
  unfolding load_missing_prev_op_headers
  get-load x h m = elim (Option-cases (Map.get h.header_hash m)) [
    | inl e ↦ ground (
      arith,
      e,
      Map.get-set x h.header_hash (unprovided provided none filter f h.prev_op_headers []) m,
    )
    | inr (s, e) ↦ ground (arith, e)
  ]

  load-IsWaiting :
      (h : OpHeader) (m : JsMap Hash (JsSet Hash)) (seen : JsSet Hash)
      → Map.get h.header_hash f.contents ≡ some h
      → IsWaiting m seen
      → IsWaiting (load h m) seen
  load-IsWaiting h m seen held w x s g p e k i = ground (
    arith,
    e,
    get-load x h m,
    w x s g p,
    k,
    held,
    i,
    has-unprovided p h.prev_op_headers [],
    Set.has-nil p,
    ap (λ z. Map.get z f.contents) {x = h.header_hash} {y = x},
  )

  fulfil-IsWaiting :
      (hash next : Hash) (m : JsMap Hash (JsSet Hash)) (seen : JsSet Hash)
      → Set.has hash seen ≡ true
      → IsWaiting m seen
      → IsWaiting (fulfil provided none filter f hash next m) seen
  unfolding fulfil
  fulfil-IsWaiting hash next m seen held w x s g p e k i = elim (Option-cases (Map.get next m)) [
    | inl n ↦ ground (arith, n, e, w x s g p)
    | inr (t, n) ↦ ground (
      arith,
      n,
      e,
      Map.get-set x next (Set.delete hash t) m,
      Set.has-delete p hash t,
      w x s g p,
      w x t g p,
      ap (λ z. Map.get z m) {x = next} {y = x},
      ap (λ z. Set.has z seen) {x = hash} {y = p},
    )
  ]

  fulfil_all-IsWaiting :
      (hash : Hash) (ns : List Hash) (m : JsMap Hash (JsSet Hash)) (seen : JsSet Hash)
      → ((x : Hash) (h : OpHeader) → Map.get x f.contents ≡ some h → h.header_hash ≡ x)
      → Set.has hash seen ≡ true
      → IsWaiting m seen
      → IsWaiting (fulfil_all provided none filter f hash ns m) seen
  unfolding fulfil_all
  fulfil_all-IsWaiting hash [] m seen keyed held w = w
  fulfil_all-IsWaiting hash (n ∷ ns) m seen keyed held w =
      fulfil_all-IsWaiting hash ns _ seen keyed held (elim (Bool-cases (passes filter n)) [
        | inr e ↦ rw e w
        | inl e ↦ elim (Option-cases (Map.get n f.contents)) [
          | inl k ↦ rw (e, k) w
          | inr (h, k) ↦
              rw (e, k)
                (fulfil-IsWaiting hash n (load h m) seen held
                  (load-IsWaiting h m seen (ap (λ z. Map.get z f.contents) (keyed n h k) ∙ k) w))
        ]
      ])

  -- What the loop keeps.
  pub record IsCausal (st : Progress) : Type 0 where
    pub waiting : IsWaiting st.missing_prev_op_headers st.closure
    pub ordered : IsOrdered [] st.closure
    pub whole : st.result ≡ st.closure

  grown :
      (m : JsMap Hash (JsSet Hash)) (seen : JsSet Hash) (x : Hash)
      → IsWaiting m seen
      → IsWaiting m (Set.add x seen)
  grown m seen x w y s h p e k i = ground (arith, w y s h p e k i, Set.has-add p x seen)

  abbrev turn : OpHeader → Progress → Progress
  turn h st = visit provided none filter f h st

  include-IsCausal :
      (x : Hash) (s : JsSet Hash) (m : JsMap Hash (JsSet Hash)) (st : Progress)
      → ((y : Hash) (h : OpHeader) → Map.get y f.contents ≡ some h → h.header_hash ≡ y)
      → Map.get x m ≡ some s
      → is_empty s ≡ true
      → IsWaiting m st.closure
      → IsCausal st
      → IsCausal (include provided none filter f x m st)
  unfolding include
  include-IsCausal x s m st keyed e z w c =
      let ready : IsReady x st.closure =
        λ h p k i. ground (arith, w x s h p e k i, Set.has_of_empty p s (ground (arith, z))) in
      record {
        waiting =
            fulfil_all-IsWaiting x (MultiMap.get x f.next_op_headers) m (Set.add x st.closure) keyed
              (ground (arith, Set.has-add x x st.closure)) (grown m st.closure x w);
        ordered = elim (Bool-cases (Set.has x st.closure)) [
          | inl i ↦ rw (Set.add_present x st.closure i) c.ordered
          | inr i ↦ rw (Set.add_absent x st.closure i) (
              IsOrdered-snoc [] st.closure x c.ordered (λ h p k j.
                ground (arith, ready h p k j, has-append p st.closure [], Set.has-nil p)))
        ];
        whole = elim (Bool-cases (Set.has x st.closure)) [
          | inl i ↦ rw (Set.add_present x st.closure i, i) c.whole
          | inr i ↦ rw (Set.add_absent x st.closure i, i) (ap (λ l. l ++ (x ∷ [])) c.whole)
        ];
      }

  visit-IsCausal :
      (h : OpHeader) (st : Progress)
      → ((y : Hash) (g : OpHeader) → Map.get y f.contents ≡ some g → g.header_hash ≡ y)
      → Map.get h.header_hash f.contents ≡ some h
      → IsCausal st
      → IsCausal (turn h st)
  unfolding visit
  visit-IsCausal h st keyed held c =
      let m = load h st.missing_prev_op_headers in
      let w = load-IsWaiting h st.missing_prev_op_headers st.closure held c.waiting in
      elim (Bool-cases (passes filter h.header_hash)) [
        | inr e ↦ rw (e, turn, visit) c
        | inl e ↦ elim (Option-cases (Map.get h.header_hash m)) [
          | inl k ↦
              rw (e, k, turn, visit) (record { waiting = w; ordered = c.ordered; whole = c.whole })
          | inr (s, k) ↦ elim (Bool-cases (is_empty s)) [
            | inl z ↦
                rw (e, k, z, turn, visit) (include-IsCausal h.header_hash s m st keyed k z w c)
            | inr z ↦
                rw (e, k, z, turn, visit)
                  (record { waiting = w; ordered = c.ordered; whole = c.whole })
          ]
        ]
      ]

  visit_all-IsCausal :
      (max_ops : Option ℕ) (hs : List OpHeader) (st : Progress)
      → ((y : Hash) (g : OpHeader) → Map.get y f.contents ≡ some g → g.header_hash ≡ y)
      → All (λ h. Map.get h.header_hash f.contents ≡ some h) hs
      → IsCausal st
      → IsCausal (visit_all provided none filter f max_ops hs st)
  unfolding visit_all
  visit_all-IsCausal max_ops [] st keyed held c = c
  visit_all-IsCausal max_ops (h ∷ hs) st keyed held c =
      elim (Bool-cases (reached max_ops (length st.result))) [
        | inl e ↦ rw e c
        | inr e ↦ rw e (
            visit_all-IsCausal max_ops hs (turn h st) keyed held.1
              (visit-IsCausal h st keyed held.0 c))
      ]

  -- No more than the limit, where there is one.
  abbrev pub IsWithin : Option ℕ → ℕ → Type 0
  IsWithin none n = Unit
  IsWithin (some m) n = n ≤ m

  length-visit : (h : OpHeader) (st : Progress) → length (turn h st).result ≤ length st.result + 1
  unfolding visit include
  length-visit h st = ground (
    arith,
    length-append st.result (h.header_hash ∷ []),
    Option-cases (Map.get h.header_hash (load h st.missing_prev_op_headers)),
  )

  visit_all-IsWithin :
      (max_ops : Option ℕ) (hs : List OpHeader) (st : Progress)
      → IsWithin max_ops (length st.result)
      → IsWithin max_ops (length (visit_all provided none filter f max_ops hs st).result)
  unfolding visit_all
  visit_all-IsWithin none hs st b = tt
  visit_all-IsWithin (some m) [] st b = b
  visit_all-IsWithin (some m) (h ∷ hs) st b = elim (Bool-cases (m == length st.result)) [
    | inl e ↦ rw e b
    | inr e ↦ rw e (visit_all-IsWithin (some m) hs (turn h st) (ground (arith, length-visit h st)))
  ]

  begins-IsCausal : IsCausal (record { missing_prev_op_headers = []; closure = []; result = [] })
  unfolding Map.get
  begins-IsCausal = record { waiting = λ x s h p e. cc; ordered = tt; whole = refl }

  begins-IsWithin : (max_ops : Option ℕ) → IsWithin max_ops 0
  begins-IsWithin none = tt
  begins-IsWithin (some m) = omega arith

  -- In a consistent fragment, where no header is ignored, the causal closure of any hashes is
  -- computed without an error, is within the limit, and puts each hash after the predecessors of
  -- its header that are not provided.
  pub causal_closure-IsOrdered :
      (starting : JsSet Hash) (max_ops : Option ℕ)
      → IsConsistent f
      → (r : List Hash) × (causal_closure_from provided none filter f starting max_ops ≡ ok r)
        × IsOrdered [] r
        × IsWithin max_ops (length r)
  unfolding causal_closure_from
  causal_closure-IsOrdered starting max_ops c =
      let (hs, e, iff) = walk_iff full forward none f c.keyed starting in
      let start : Progress = record { missing_prev_op_headers = []; closure = []; result = [] } in
      let st = visit_all provided none filter f max_ops hs start in
      let held = walk_held full forward none f c.keyed starting hs e in
      let causal = visit_all-IsCausal max_ops hs start c.keyed held begins-IsCausal in
      (
        st.result,
        rw (e, causal_closure_from) refl,
        subst (IsOrdered []) (sym causal.whole) causal.ordered,
        visit_all-IsWithin max_ops hs start (begins-IsWithin max_ops),
      )
