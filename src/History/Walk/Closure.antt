-- ===== src/History/Walk/Closure.antt =====
-- Which headers a walk of src/data/history over a fragment sees, and which can be reached.
use hyperhyperspace_core.Prelude.{
  ℕ, zero, suc, ◌+◌, ◌≡◌, refl, ◌∙◌, sym, Hash, Bool, true, false, List, [], ◌∷◌, some, string_key,
  arith, ite, same, ◌&&◌, ◌||◌, Option-cases, Bool-cases, inl, inr, Result, All, ok, throws, ap,
  ◌⊎◌, ◌↔◌, subst,
}
use hyperhyperspace_core.Js.Map
use hyperhyperspace_core.Js.Map.{JsMap}
use hyperhyperspace_core.Js.Set
use hyperhyperspace_core.Js.Set.{JsSet}
use hyperhyperspace_core.History.Header.{OpHeader}
use hyperhyperspace_core.History.Fragment.{Fragment}
use hyperhyperspace_core.History.Walk.{
  Walk, Direction, Method, Filter, dequeue, go, filtered, go_from, iterate, cons_header, begin,
  measure, passes, WalkError, iterate_from,
}
use hyperhyperspace_core.History.Walk.Queue.{
  visited-enqueue_all, visited-begin_with, begins, has-begin_with,
}
use hyperhyperspace_core.History.Walk.Ends.{
  go_on, next-cons, next-nil, IsSound, queue-go_on, go_on-IsSound, begin-IsSound, walk_ends,
}

-- One of the headers has the hash.
abbrev pub seen : Hash → List OpHeader → Bool
seen x [] = false
seen x (h ∷ hs) = ite (same h.header_hash x) true (seen x hs)

module _ (method : Method) (direction : Direction) (filter : Filter) (f : Fragment) where
  -- A hash on which a walk that gets to `x` goes on.
  abbrev pub leads : Hash → Hash → Bool
  leads x y = (Set.has y (go direction x f) && passes filter y) && Map.has y f.contents

  -- The hashes that can be reached from the initial ones over headers held that pass the filter.
  pub data Reaches (initial : JsSet Hash) : Hash → Type 0 where
    starts :
        (x : Hash)
        → Set.has x initial ≡ true
        → (Map.has x f.contents && passes filter x) ≡ true
        → Reaches initial x
    follows : (x y : Hash) → Reaches initial x → leads x y ≡ true → Reaches initial y

  abbrev run : ℕ → Walk → Result (WalkError method direction filter f) (List OpHeader)
  run n w = iterate method direction filter f n w

  abbrev after : Hash → List Hash → Walk → Walk
  after h rest w = go_on method direction filter f h rest w

  uncons :
      (r : Result (WalkError method direction filter f) (List OpHeader)) (header : OpHeader)
      (hs : List OpHeader)
      → cons_header method direction filter f header r ≡ ok hs
      → (hs' : List OpHeader) × (r ≡ ok hs') × (hs ≡ header ∷ hs')
  uncons (ok hs') header hs e = (hs', refl, cc)
  uncons (throws x) header hs e = cc

  run_cases :
      (n : ℕ) (w : Walk) (hs : List OpHeader)
      → IsSound method direction filter f w
      → run (suc n) w ≡ ok hs
      → ((w.queue ≡ []) × (hs ≡ []))
        ⊎ ((h : Hash) × (rest : List Hash) × (header : OpHeader) × (hs' : List OpHeader) × (w.queue
              ≡ h ∷ rest)
            × (Map.get h f.contents ≡ some header)
            × (run n (after h rest w) ≡ ok hs')
            × (hs ≡ header ∷ hs'))
  unfolding iterate
  run_cases n w hs s e = by_queue w.queue refl
    where
      by_queue :
          (q : List Hash)
          → w.queue ≡ q
          → ((w.queue ≡ []) × (hs ≡ []))
            ⊎ ((h : Hash) × (rest : List Hash) × (header : OpHeader) × (hs' : List OpHeader)
                × (w.queue ≡ h ∷ rest)
                × (Map.get h f.contents ≡ some header)
                × (run n (after h rest w) ≡ ok hs')
                × (hs ≡ header ∷ hs'))
      by_queue [] k = inl (k, cc (next-nil method direction filter f w k, e))
      by_queue (h ∷ rest) k = elim (Option-cases (Map.get h f.contents)) [
        | inl g ↦ cc (s.held h (ap (Set.has h) k ∙ Set.has-head h rest), ap Map.is_some g)
        | inr (header, g) ↦
            let step : run (suc n) w
                ≡ cons_header method direction filter f header (run n (after h rest w)) =
              rw (iterate, next-cons method direction filter f w h rest header k g) refl in
            let (hs', r, c) = uncons (run n (after h rest w)) header hs (sym step ∙ e) in
            inr (h, rest, header, hs', k, g, r, c)
      ]

  visited-after :
      (x h : Hash) (rest : List Hash) (w : Walk)
      → Set.has x (after h rest w).visited ≡ ite (same h x) true (Set.has x w.visited)
  unfolding go_from dequeue
  visited-after x h rest w = elim (Bool-cases (Set.has h w.visited)) [
    | inl v ↦ rw v (
        ap (Set.has x) (visited-enqueue_all method direction filter f [] (dequeue h rest w))
        ∙ ground (arith, v, ap (λ y. Set.has y w.visited) {x = h} {y = x}))
    | inr v ↦
        let ss = filtered filter (go direction h f) in
        let w1 : Walk = record (dequeue h rest w) { visited = Set.add h w.visited } in
        rw v (
          ap (Set.has x) (visited-enqueue_all method direction filter f ss w1)
          ∙ Set.has-add x h w.visited)
  ]

  -- The successors of what was visited were visited or wait in the queue.
  abbrev IsClosed : Walk → Type 0
  IsClosed w =
      (x y : Hash)
      → Set.has x w.visited ≡ true
      → leads x y ≡ true
      → (Set.has y w.visited || Set.has y w.queue) ≡ true

  module _
      (keyed : (x : Hash) (h : OpHeader) → Map.get x f.contents ≡ some h → h.header_hash ≡ x) where
    queue_seen :
        (n : ℕ) (w : Walk) (hs : List OpHeader) (x : Hash)
        → IsSound method direction filter f w
        → run n w ≡ ok hs
        → Set.has x w.queue ≡ true
        → seen x hs ≡ true
    unfolding iterate Set.has
    queue_seen zero w hs x s e k = cc
    queue_seen (suc n) w hs x s e k = elim (run_cases n w hs s e) [
      | inl (q, z) ↦ cc (ap (Set.has x) q, Set.has-nil x)
      | inr (h, rest, header, hs', q, g, r, z) ↦ rw z (
          ground (
            arith,
            queue_seen n (after h rest w) hs' x
                (go_on-IsSound method direction filter f h rest w q s) r,
            queue-go_on method direction filter f x h rest w q s.counted,
            ap (Set.has x) q,
            keyed h header g,
          ))
    ]

    after-IsClosed :
        (h : Hash) (rest : List Hash) (w : Walk)
        → IsSound method direction filter f w
        → w.queue ≡ h ∷ rest
        → IsClosed w
        → IsClosed (after h rest w)
    unfolding Set.has
    after-IsClosed h rest w s q c x y v l = ground (
      arith,
      c x y,
      visited-after x h rest w,
      visited-after y h rest w,
      queue-go_on method direction filter f y h rest w q s.counted,
      ap (Set.has y) q,
      ap (λ z. leads z y) {x = h} {y = x},
      ap (λ z. Set.has z w.visited) {x = h} {y = x},
    )

    closed_seen :
        (n : ℕ) (w : Walk) (hs : List OpHeader) (x y : Hash)
        → IsSound method direction filter f w
        → IsClosed w
        → run n w ≡ ok hs
        → (Set.has x w.visited || seen x hs) ≡ true
        → leads x y ≡ true
        → (Set.has y w.visited || seen y hs) ≡ true
    unfolding iterate
    closed_seen zero w hs x y s c e k l = cc
    closed_seen (suc n) w hs x y s c e k l = elim (run_cases n w hs s e) [
      | inl (q, z) ↦
          ground (arith, z, c x y, ap (Set.has y) q, Set.has-nil y, ap (seen x) z, ap (seen y) z)
      | inr (h, rest, header, hs', q, g, r, z) ↦ ground (
        arith,
        closed_seen n (after h rest w) hs' x y
            (go_on-IsSound method direction filter f h rest w q s) (after-IsClosed h rest w s q c)
            r,
        visited-after x h rest w,
        visited-after y h rest w,
        keyed h header g,
        ap (seen x) z,
        ap (seen y) z,
      )
    ]

    seen_reached :
        (initial : JsSet Hash) (n : ℕ) (w : Walk) (hs : List OpHeader)
        → IsSound method direction filter f w
        → ((x : Hash) → Set.has x w.queue ≡ true → Reaches initial x)
        → run n w ≡ ok hs
        → (x : Hash) → seen x hs ≡ true
        → Reaches initial x
    unfolding iterate Set.has
    seen_reached initial zero w hs s reach e x k = cc
    seen_reached initial (suc n) w hs s reach e x k = elim (run_cases n w hs s e) [
      | inl (q, z) ↦ cc (ap (seen x) z, k)
      | inr (h, rest, header, hs', q, g, r, z) ↦
          let front = reach h (ap (Set.has h) q ∙ Set.has-head h rest) in
          let later : (y : Hash) → Set.has y (after h rest w).queue ≡ true → Reaches initial y =
            λ y m. elim (Bool-cases (Set.has y w.queue)) [
              | inl i ↦ reach y i
              | inr i ↦ follows h y front (
                  ground (
                    arith,
                    queue-go_on method direction filter f y h rest w q s.counted,
                    ap (Set.has y) q,
                  ))
            ] in
          elim (same h x) [
            | yes p ↦ subst (Reaches initial) p front
            | no p ↦
                seen_reached initial n (after h rest w) hs'
                  (go_on-IsSound method direction filter f h rest w q s) later r x
                  (ground (arith, ap (seen x) z, keyed h header g))
          ]
    ]

    run_held :
        (n : ℕ) (w : Walk) (hs : List OpHeader)
        → IsSound method direction filter f w
        → run n w ≡ ok hs
        → All (λ h. Map.get h.header_hash f.contents ≡ some h) hs
    unfolding iterate
    run_held zero w hs s e = cc
    run_held (suc n) w hs s e = elim (run_cases n w hs s e) [
      | inl (q, z) ↦ subst (All (λ h. Map.get h.header_hash f.contents ≡ some h)) (sym z) tt
      | inr (h, rest, header, hs', q, g, r, z) ↦
          subst (All (λ h. Map.get h.header_hash f.contents ≡ some h)) (sym z) (
            ap (λ x. Map.get x f.contents) (keyed h header g) ∙ g,
            run_held n (after h rest w) hs' (go_on-IsSound method direction filter f h rest w q s)
                r,
          )
    ]

    -- The headers on a walk are those that the fragment holds under their hashes.
    pub walk_held :
        (initial : JsSet Hash) (hs : List OpHeader)
        → iterate_from method direction filter f initial ≡ ok hs
        → All (λ h. Map.get h.header_hash f.contents ≡ some h) hs
    unfolding iterate_from
    walk_held initial hs e =
        run_held _ (begin method direction filter f initial) hs
          (begin-IsSound method direction filter f initial) e

    walk_reaches :
        (initial : JsSet Hash) (hs : List OpHeader)
        → iterate_from method direction filter f initial ≡ ok hs
        → (x : Hash) → Reaches initial x
        → seen x hs ≡ true
    unfolding iterate_from begin
    walk_reaches initial hs e _ (starts x i k) =
        let w = begin method direction filter f initial in
        queue_seen (measure method direction filter f w + 1) w hs x
          (begin-IsSound method direction filter f initial) e
          (has-begin_with method direction filter f x initial
              (record { visited = []; queue = []; queue_contents = [] }) begins
            ∙ ground (arith, i, k))
    walk_reaches initial hs e _ (follows y x r l) =
        let w = begin method direction filter f initial in
        let bare : (z : Hash) → Set.has z w.visited ≡ false = λ z.
          ap (Set.has z) (
            visited-begin_with method direction filter f initial
              (record { visited = []; queue = []; queue_contents = [] }))
          ∙ Set.has-nil z in
        ground (
          arith,
          closed_seen (measure method direction filter f w + 1) w hs y x
              (begin-IsSound method direction filter f initial) (λ a b v m. cc (bare a, v)) e,
          bare x,
          bare y,
          walk_reaches initial hs e y r,
        )

    reaches_walk :
        (initial : JsSet Hash) (hs : List OpHeader)
        → iterate_from method direction filter f initial ≡ ok hs
        → (x : Hash) → seen x hs ≡ true
        → Reaches initial x
    unfolding iterate_from begin
    reaches_walk initial hs e x k =
        let w = begin method direction filter f initial in
        seen_reached initial (measure method direction filter f w + 1) w hs
          (begin-IsSound method direction filter f initial)
          (λ y q.
            let held =
              has-begin_with method direction filter f y initial
                (record { visited = []; queue = []; queue_contents = [] }) begins in
            starts y (ground (arith, held, Set.has-nil y)) (ground (arith, held, Set.has-nil y)))
          e x k

    -- In a fragment whose headers stand under their own hashes, a walk from any initial hashes comes
    -- to its end and sees exactly the hashes that can be reached.
    pub walk_iff :
        (initial : JsSet Hash)
        → (hs : List OpHeader) × (iterate_from method direction filter f initial ≡ ok hs)
          × ((x : Hash) → (seen x hs ≡ true) ↔ Reaches initial x)
    walk_iff initial =
        let (hs, e) = walk_ends method direction filter f initial in
        (hs, e, λ x. (reaches_walk initial hs e x, walk_reaches initial hs e x))
