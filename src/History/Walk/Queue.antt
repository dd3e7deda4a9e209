-- ===== src/History/Walk/Queue.antt =====
-- The queue of a walk of src/data/history/HistoryWalk.ts and the counts of its hashes.
use hyperhyperspace_core.Prelude.{
  ℕ, ◌+◌, ◌-◌, ◌≡◌, refl, Hash, Bool, true, false, List, [], ◌∷◌, ◌++◌, Option, none, some, ◌&&◌,
  ◌||◌, if◌then◌else◌, string_key, arith, Bool-cases, inl, inr, length-append, ◌∙◌, ap, ite, same,
  ◌==◌, length, ◌≤◌,
}
use hyperhyperspace_core.Js.Map
use hyperhyperspace_core.Js.Set
use hyperhyperspace_core.Js.Set.{JsSet}
use hyperhyperspace_core.History.Fragment.{Fragment}
use hyperhyperspace_core.History.Walk.{
  Walk, Direction, enqueue_by, Method, bfs, full, Filter, enqueue, enqueue_if_new, dequeue,
  enqueue_all, count_of, passes, begin_with, keep, filtered,
}

unfoldable pub occurrences : Hash → List Hash → ℕ
occurrences x [] = 0
occurrences x (h ∷ hs) = ite (same h x) (occurrences x hs + 1) (occurrences x hs)

abbrev pub tally : ℕ → Option ℕ
tally n = if n == 0 then none else some n

-- Each hash in the queue has the count of its places, and no other hash has one.
unfoldable pub IsCounted : Walk → Type 0
unfolding occurrences
IsCounted w = (x : Hash) → Map.get x w.queue_contents ≡ tally (occurrences x w.queue)

occurrences-snoc :
    (x h : Hash) (hs : List Hash)
    → occurrences x (hs ++ (h ∷ [])) ≡ ite (same h x) (occurrences x hs + 1) (occurrences x hs)
unfolding occurrences
occurrences-snoc x h [] = ground arith
occurrences-snoc x h (y ∷ hs) = ground (arith, occurrences-snoc x h hs)

occurrences-has :
    (x : Hash) (hs : List Hash) → Set.has x hs ≡ (if occurrences x hs == 0 then false else true)
unfolding occurrences Set.has
occurrences-has x [] = refl
occurrences-has x (h ∷ hs) = ground (arith, occurrences-has x hs)

count-tally : (n : ℕ) → count_of (tally n) ≡ n
count-tally n = ground arith

pub enqueue-IsCounted : (h : Hash) (w : Walk) → IsCounted w → IsCounted (enqueue h w)
unfolding IsCounted enqueue
enqueue-IsCounted h w c x = ground (
  arith,
  Map.get-set x h (count_of (Map.get h w.queue_contents) + 1) w.queue_contents,
  occurrences-snoc x h w.queue,
  c x,
  c h,
  count-tally (occurrences h w.queue),
)

pub enqueue_if_new-IsCounted : (h : Hash) (w : Walk) → IsCounted w → IsCounted (enqueue_if_new h w)
unfolding enqueue_if_new enqueue
enqueue_if_new-IsCounted h w c = ground (arith, enqueue-IsCounted h w c)

pub dequeue-IsCounted :
    (h : Hash) (rest : List Hash) (w : Walk)
    → w.queue ≡ h ∷ rest
    → IsCounted w
    → IsCounted (dequeue h rest w)
unfolding IsCounted dequeue occurrences
dequeue-IsCounted h rest w e c x = ground (
  arith,
  Map.get-set x h (count_of (Map.get h w.queue_contents) - 1) w.queue_contents,
  Map.get-delete x h w.queue_contents,
  c x,
  c h,
  ap (occurrences x) e,
  ap (occurrences h) e,
  count-tally (occurrences h w.queue),
)

has-queue : (x : Hash) (w : Walk) → IsCounted w → Map.has x w.queue_contents ≡ Set.has x w.queue
unfolding IsCounted
has-queue x w c = ground (arith, c x, occurrences-has x w.queue)

pub has-snoc :
    (x h : Hash) (hs : List Hash) → Set.has x (hs ++ (h ∷ [])) ≡ ite (same h x) true (Set.has x hs)
unfolding Set.has
has-snoc x h [] = ground arith
has-snoc x h (y ∷ hs) = ground (arith, has-snoc x h hs)

pub has-enqueue :
    (x h : Hash) (w : Walk)
    → Set.has x (enqueue h w).queue ≡ ite (same h x) true (Set.has x w.queue)
unfolding enqueue
has-enqueue x h w = has-snoc x h w.queue

pub has-enqueue_if_new :
    (x h : Hash) (w : Walk)
    → IsCounted w
    → Set.has x (enqueue_if_new h w).queue ≡ ite (same h x) true (Set.has x w.queue)
unfolding enqueue_if_new enqueue
has-enqueue_if_new x h w c =
    ground
      (arith, has-snoc x h w.queue, has-queue h w c, ap (λ y. Set.has y w.queue) {x = h} {y = x})

module _ (method : Method) (direction : Direction) (filter : Filter) (f : Fragment) where
  abbrev ok_to : Hash → Bool
  ok_to x = Map.has x f.contents

  pub enqueue_all-IsCounted :
      (ss : List Hash) (w : Walk)
      → IsCounted w
      → IsCounted (enqueue_all method direction filter f ss w)
  unfolding enqueue_all
  enqueue_all-IsCounted [] w c = c
  enqueue_all-IsCounted (s ∷ ss) w c =
      enqueue_all-IsCounted ss (if ok_to s then enqueue_by method s w else w)
        (elim (Bool-cases (ok_to s)) [ inl e ↦ rw e (by_method method) | inr e ↦ rw e c ])
    where
      by_method : (m : Method) → IsCounted (enqueue_by m s w)
      by_method bfs = enqueue_if_new-IsCounted s w c
      by_method full = enqueue-IsCounted s w c

  has-enqueue_by :
      (m : Method) (x h : Hash) (w : Walk)
      → IsCounted w
      → Set.has x (enqueue_by m h w).queue ≡ ite (same h x) true (Set.has x w.queue)
  has-enqueue_by bfs x h w c = has-enqueue_if_new x h w c
  has-enqueue_by full x h w c = has-enqueue x h w

  enqueue_by-IsCounted :
      (m : Method) (h : Hash) (w : Walk) → IsCounted w → IsCounted (enqueue_by m h w)
  enqueue_by-IsCounted bfs h w c = enqueue_if_new-IsCounted h w c
  enqueue_by-IsCounted full h w c = enqueue-IsCounted h w c

  turn : Hash → Walk → Walk
  turn s w = if ok_to s then enqueue_by method s w else w

  turn-IsCounted : (s : Hash) (w : Walk) → IsCounted w → IsCounted (turn s w)
  unfolding turn
  turn-IsCounted s w c = elim (Bool-cases (ok_to s)) [
    | inl e ↦ rw e (enqueue_by-IsCounted method s w c)
    | inr e ↦ rw e c
  ]

  has-turn :
      (x s : Hash) (w : Walk)
      → IsCounted w
      → Set.has x (turn s w).queue
        ≡ (Set.has x w.queue || (ite (same s x) true false && Map.has x f.contents))
  unfolding turn
  has-turn x s w c = elim (Bool-cases (ok_to s)) [
    | inl e ↦ rw e (ground (arith, has-enqueue_by method x s w c, ap ok_to {x = s} {y = x}, e))
    | inr e ↦ rw e (ground (arith, ap ok_to {x = s} {y = x}, e))
  ]

  pub has-enqueue_all :
      (x : Hash) (ss : List Hash) (w : Walk)
      → IsCounted w
      → Set.has x (enqueue_all method direction filter f ss w).queue
        ≡ (Set.has x w.queue || (Set.has x ss && Map.has x f.contents))
  unfolding enqueue_all Set.has turn
  has-enqueue_all x [] w c = ground arith
  has-enqueue_all x (s ∷ ss) w c =
      ground (arith, has-enqueue_all x ss (turn s w) (turn-IsCounted s w c), has-turn x s w c)

  pub visited-enqueue_all :
      (ss : List Hash) (w : Walk) → (enqueue_all method direction filter f ss w).visited ≡ w.visited
  unfolding enqueue_all enqueue enqueue_if_new
  visited-enqueue_all [] w = refl
  visited-enqueue_all (s ∷ ss) w =
      visited-enqueue_all ss (if ok_to s then enqueue_by method s w else w)
      ∙ elim (Bool-cases (ok_to s)) [ inl e ↦ rw e (by_method method) | inr e ↦ rw e refl ]
    where
      by_method : (m : Method) → (enqueue_by m s w).visited ≡ w.visited
      by_method bfs = ground arith
      by_method full = refl

  pub length-enqueue_all :
      (ss : List Hash) (w : Walk)
      → length (enqueue_all method direction filter f ss w).queue ≤ length w.queue + length ss
  unfolding enqueue_all enqueue enqueue_if_new
  length-enqueue_all [] w = omega arith
  length-enqueue_all (s ∷ ss) w =
      let grown = if ok_to s then enqueue_by method s w else w in
      let once : length grown.queue ≤ length w.queue + 1 = elim (Bool-cases (ok_to s)) [
        | inl e ↦ rw e (by_method method)
        | inr e ↦ rw e (omega arith)
      ] in
      omega (arith, length-enqueue_all ss grown, once)
    where
      by_method : (m : Method) → length (enqueue_by m s w).queue ≤ length w.queue + 1
      by_method bfs = ground (arith, length-append w.queue (s ∷ []))
      by_method full = omega (arith, length-append w.queue (s ∷ []))

  pub begin_with-IsCounted :
      (hs : List Hash) (w : Walk)
      → IsCounted w
      → IsCounted (begin_with method direction filter f hs w)
  unfolding begin_with
  begin_with-IsCounted [] w c = c
  begin_with-IsCounted (h ∷ hs) w c =
      begin_with-IsCounted hs (if ok_to h && passes filter h then enqueue_if_new h w else w)
        (elim (Bool-cases (ok_to h && passes filter h)) [
          | inl e ↦ rw e (enqueue_if_new-IsCounted h w c)
          | inr e ↦ rw e c
        ])

  first : Hash → Walk → Walk
  first h w = if ok_to h && passes filter h then enqueue_if_new h w else w

  first-IsCounted : (h : Hash) (w : Walk) → IsCounted w → IsCounted (first h w)
  unfolding first
  first-IsCounted h w c = elim (Bool-cases (ok_to h && passes filter h)) [
    | inl e ↦ rw e (enqueue_if_new-IsCounted h w c)
    | inr e ↦ rw e c
  ]

  has-first :
      (x h : Hash) (w : Walk)
      → IsCounted w
      → Set.has x (first h w).queue
        ≡ (Set.has x w.queue || (ite (same h x) true false && (ok_to x && passes filter x)))
  unfolding first
  has-first x h w c =
      let moved = ap (λ y. ok_to y && passes filter y) {x = h} {y = x} in
      elim (Bool-cases (ok_to h && passes filter h)) [
        | inl e ↦ rw e (ground (arith, has-enqueue_if_new x h w c, moved, e))
        | inr e ↦ rw e (ground (arith, moved, e))
      ]

  pub has-begin_with :
      (x : Hash) (hs : List Hash) (w : Walk)
      → IsCounted w
      → Set.has x (begin_with method direction filter f hs w).queue
        ≡ (Set.has x w.queue || (Set.has x hs && (ok_to x && passes filter x)))
  unfolding begin_with Set.has first
  has-begin_with x [] w c = ground arith
  has-begin_with x (h ∷ hs) w c =
      ground (arith, has-begin_with x hs (first h w) (first-IsCounted h w c), has-first x h w c)

  pub visited-begin_with :
      (hs : List Hash) (w : Walk) → (begin_with method direction filter f hs w).visited ≡ w.visited
  unfolding begin_with enqueue_if_new enqueue
  visited-begin_with [] w = refl
  visited-begin_with (h ∷ hs) w =
      visited-begin_with hs (if ok_to h && passes filter h then enqueue_if_new h w else w)
      ∙ ground arith

has-keep :
    (x : Hash) (test : Hash → Bool) (hs : List Hash) (s : JsSet Hash)
    → Set.has x (keep test hs s) ≡ (Set.has x s || (Set.has x hs && test x))
unfolding keep Set.has
has-keep x test [] s = ground arith
has-keep x test (h ∷ hs) s = elim (Bool-cases (test h)) [
  | inl e ↦ rw e (
      ground
        (arith, has-keep x test hs (Set.add h s), Set.has-add x h s, ap test {x = h} {y = x}, e))
  | inr e ↦ rw e (ground (arith, has-keep x test hs s, ap test {x = h} {y = x}, e))
]

pub has-filtered :
    (x : Hash) (filter : Filter) (hs : JsSet Hash)
    → Set.has x (filtered filter hs) ≡ (Set.has x hs && passes filter x)
unfolding filtered
has-filtered x none hs = ground arith
has-filtered x (some test) hs = ground (arith, has-keep x test hs [], Set.has-nil x)

size-keep-le :
    (test : Hash → Bool) (hs : List Hash) (s : JsSet Hash)
    → length (keep test hs s) ≤ length s + length hs
unfolding keep
size-keep-le test [] s = omega arith
size-keep-le test (h ∷ hs) s = elim (Bool-cases (test h)) [
  | inl e ↦ rw e (ground (arith, size-keep-le test hs (Set.add h s), Set.size-add h s))
  | inr e ↦ rw e (omega (arith, size-keep-le test hs s))
]

pub size-filtered-le : (filter : Filter) (hs : JsSet Hash) → length (filtered filter hs) ≤ length hs
unfolding filtered
size-filtered-le none hs = omega arith
size-filtered-le (some test) hs = omega (arith, size-keep-le test hs [])

pub begins : IsCounted (record { visited = []; queue = []; queue_contents = [] })
unfolding IsCounted Map.get
begins x = refl
