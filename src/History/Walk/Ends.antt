-- ===== src/History/Walk/Ends.antt =====
-- The turns that a walk of src/data/history over a fragment can take: each takes a hash from the
-- queue, and a hash brings its successors to the queue once only.
use hyperhyperspace_core.Prelude.{
  ℕ, zero, suc, ◌+◌, ◌≤◌, ◌<◌, ◌≡◌, refl, ◌∙◌, Hash, true, false, List, [], ◌∷◌, some, string_key,
  arith, not, ◌&&◌, ◌||◌, length, Option-cases, Bool-cases, inl, inr, ok, ap,
}
use hyperhyperspace_core.Js.Map
use hyperhyperspace_core.Js.Map.{JsMap}
use hyperhyperspace_core.Js.Set
use hyperhyperspace_core.Js.Set.{JsSet}
use hyperhyperspace_core.History.Header.{OpHeader}
use hyperhyperspace_core.History.Fragment.{Fragment}
use hyperhyperspace_core.History.Walk.{
  Walk, Direction, Method, Filter, dequeue, enqueue_all, go, filtered, go_from, next, done, yields,
  iterate, begin, pending, measure, iterate_from, passes,
}
use hyperhyperspace_core.History.Walk.Queue.{
  length-enqueue_all, visited-enqueue_all, size-filtered-le, has-enqueue_all, IsCounted,
  has-filtered, dequeue-IsCounted, enqueue_all-IsCounted, has-begin_with, begin_with-IsCounted,
  begins,
}

module _ (method : Method) (direction : Direction) (filter : Filter) (f : Fragment) where
  pending-add_le :
      (h : Hash) (v : JsSet Hash) (m : JsMap Hash OpHeader)
      → pending method direction filter f (Set.add h v) m ≤ pending method direction filter f v m
  unfolding pending
  pending-add_le h v [] = omega arith
  pending-add_le h v ((j, header) ∷ m) = ground (arith, pending-add_le h v m, Set.has-add j h v)

  pending-add :
      (h : Hash) (v : JsSet Hash) (m : JsMap Hash OpHeader)
      → Set.has h v ≡ false
      → Map.has h m ≡ true
      → pending method direction filter f (Set.add h v) m + length (go direction h f)
        ≤ pending method direction filter f v m
  unfolding pending Map.get
  pending-add h v [] e k = cc
  pending-add h v ((j, header) ∷ m) e k = ground (
    arith,
    pending-add h v m e,
    pending-add_le h v m,
    Set.has-add j h v,
    ap (λ x. Set.has x v) {x = j} {y = h},
    ap (λ x. length (go direction x f)) {x = j} {y = h},
  )

  abbrev pub go_on : Hash → List Hash → Walk → Walk
  go_on h rest w =
      let went = go_from method direction filter f h (dequeue h rest w) in
      enqueue_all method direction filter f went.1 went.0

  pub next-cons :
      (w : Walk) (h : Hash) (rest : List Hash) (header : OpHeader)
      → w.queue ≡ h ∷ rest
      → Map.get h f.contents ≡ some header
      → next method direction filter f w ≡ yields header (go_on h rest w)
  unfolding next
  next-cons w h rest header e g = rw (e, next, g) refl

  pub next-nil : (w : Walk) → w.queue ≡ [] → next method direction filter f w ≡ done
  unfolding next
  next-nil w e = rw (e, next) refl

  measure-go_on :
      (w : Walk) (h : Hash) (rest : List Hash)
      → w.queue ≡ h ∷ rest
      → Map.has h f.contents ≡ true
      → measure method direction filter f (go_on h rest w) < measure method direction filter f w
  unfolding measure go_from dequeue
  measure-go_on w h rest e k = elim (Bool-cases (Set.has h w.visited)) [
    | inl v ↦ rw v (
        ground (
          arith,
          ap length e,
          length-enqueue_all method direction filter f [] (dequeue h rest w),
          ap (λ s. pending method direction filter f s f.contents)
              (visited-enqueue_all method direction filter f [] (dequeue h rest w)),
        ))
    | inr v ↦
        let ss = filtered filter (go direction h f) in
        let w1 : Walk = record (dequeue h rest w) { visited = Set.add h w.visited } in
        rw v (
          ground (
            arith,
            ap length e,
            length-enqueue_all method direction filter f ss w1,
            ap (λ s. pending method direction filter f s f.contents)
                (visited-enqueue_all method direction filter f ss w1),
            size-filtered-le filter (go direction h f),
            pending-add h w.visited f.contents v k,
          ))
  ]

  -- What the loop keeps: the counts are right and the hashes in the queue are of headers held.
  pub record IsSound (w : Walk) : Type 0 where
    pub counted : IsCounted w
    pub held : (x : Hash) → Set.has x w.queue ≡ true → Map.has x f.contents ≡ true

  go_from-IsCounted :
      (h : Hash) (rest : List Hash) (w : Walk)
      → IsCounted (dequeue h rest w)
      → IsCounted (go_from method direction filter f h (dequeue h rest w)).0
  unfolding go_from IsCounted
  go_from-IsCounted h rest w c = elim (Bool-cases (Set.has h (dequeue h rest w).visited)) [
    | inl v ↦ rw v c
    | inr v ↦ rw v c
  ]

  visit-IsCounted : (v : JsSet Hash) (w : Walk) → IsCounted w → IsCounted (record w { visited = v })
  unfolding IsCounted
  visit-IsCounted v w c = c

  pub queue-go_on :
      (x h : Hash) (rest : List Hash) (w : Walk)
      → w.queue ≡ h ∷ rest
      → IsCounted w
      → Set.has x (go_on h rest w).queue ≡ (
          Set.has x rest
          || ((not (Set.has h w.visited) && (Set.has x (go direction h f) && passes filter x))
              && Map.has x f.contents))
  unfolding go_from dequeue
  queue-go_on x h rest w e c = elim (Bool-cases (Set.has h w.visited)) [
    | inl v ↦ rw v (
        has-enqueue_all method direction filter f x [] (dequeue h rest w)
          (dequeue-IsCounted h rest w e c)
        ∙ ground (arith, Set.has-nil x))
    | inr v ↦ rw v (
        has-enqueue_all method direction filter f x (filtered filter (go direction h f))
          (record (dequeue h rest w) { visited = Set.add h w.visited })
          (visit-IsCounted (Set.add h w.visited) (dequeue h rest w)
            (dequeue-IsCounted h rest w e c))
        ∙ ground (arith, has-filtered x filter (go direction h f)))
  ]

  pub go_on-IsSound :
      (h : Hash) (rest : List Hash) (w : Walk)
      → w.queue ≡ h ∷ rest
      → IsSound w
      → IsSound (go_on h rest w)
  unfolding Set.has
  go_on-IsSound h rest w e s = record {
    counted =
        enqueue_all-IsCounted method direction filter f
          (go_from method direction filter f h (dequeue h rest w)).1
          (go_from method direction filter f h (dequeue h rest w)).0
          (go_from-IsCounted h rest w (dequeue-IsCounted h rest w e s.counted));
    held = λ x k. ground (arith, queue-go_on x h rest w e s.counted, s.held x, ap (Set.has x) e);
  }

  pub begin-IsSound : (initial : JsSet Hash) → IsSound (begin method direction filter f initial)
  unfolding begin Set.has
  begin-IsSound initial = record {
    counted =
        begin_with-IsCounted method direction filter f initial
          (record { visited = []; queue = []; queue_contents = [] }) begins;
    held = λ x k. ground (
      arith,
      has-begin_with method direction filter f x initial
          (record { visited = []; queue = []; queue_contents = [] }) begins,
    );
  }

  ends_under :
      (n : ℕ) (w : Walk) (q : List Hash)
      → w.queue ≡ q
      → IsSound w
      → measure method direction filter f w < n
      → (hs : List OpHeader) × (iterate method direction filter f n w ≡ ok hs)
  unfolding iterate
  ends_under zero w q e s m = absurd (omega arith)
  ends_under (suc n) w [] e s m = ([], rw (iterate, next-nil w e) refl)
  ends_under (suc n) w (h ∷ rest) e s m = elim (Option-cases (Map.get h f.contents)) [
    | inl g ↦ cc (s.held h (ap (Set.has h) e ∙ Set.has-head h rest), ap Map.is_some g)
    | inr (header, g) ↦
        let (hs, k) =
          ends_under n (go_on h rest w) (go_on h rest w).queue refl (go_on-IsSound h rest w e s)
            (omega (arith, measure-go_on w h rest e (ap Map.is_some g))) in
        (header ∷ hs, rw (iterate, next-cons w h rest header e g, k) refl)
  ]

  -- A walk over any fragment comes to its end, in either order and direction and under any
  -- filter, and none of the headers on its way is missing, whatever the initial hashes are.
  pub walk_ends :
      (initial : JsSet Hash)
      → (hs : List OpHeader) × (iterate_from method direction filter f initial ≡ ok hs)
  unfolding iterate_from
  walk_ends initial =
      let w = begin method direction filter f initial in
      ends_under (measure method direction filter f w + 1) w w.queue refl (begin-IsSound initial)
        (omega arith)
