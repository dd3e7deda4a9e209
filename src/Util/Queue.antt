-- ===== src/Util/Queue.antt =====
-- src/util/queue.ts: a queue on the runtime's set of boxes. Every call of `enqueue` makes a new box,
-- so that `add` puts it at the end; a box is its element here.
use hyperhyperspace_core.Prelude.{
  ℕ, ◌≡◌, refl, Bool, List, [], ◌∷◌, ◌++◌, length, ◌==◌, Result, ok, throws, arith,
}
use mathlib.Core.List.{append_assoc, append-nil}

pub data QueueError : Type 0 where
  dequeue_from_empty : QueueError

pub record Queue (T : Type 0) : Type 0 where
  pub contents : List T

unfoldable pub new : {T : Type 0} → Queue T
new = record { contents = [] }

module _ {T : Type 0} where
  unfoldable pub enqueue : T → Queue T → Queue T
  enqueue x q = record { contents = q.contents ++ (x ∷ []) }

  unfoldable pub dequeue : Queue T → Result QueueError (T × Queue T)
  dequeue q = elim q.contents [
    | [] ↦ throws dequeue_from_empty
    | x ∷ rest ↦ ok (x, record { contents = rest })
  ]

  unfoldable pub size : Queue T → ℕ
  size q = length q.contents

  unfoldable pub is_empty : Queue T → Bool
  is_empty q = length q.contents == 0

  unfoldable pub enqueue_all : List T → Queue T → Queue T
  unfolding enqueue
  enqueue_all [] q = q
  enqueue_all (x ∷ xs) q = enqueue_all xs (enqueue x q)

  -- Dequeues as often as the list is long.
  unfoldable pub dequeue_all : List T → Queue T → Result QueueError (List T × Queue T)
  dequeue_all [] q = ok ([], q)
  dequeue_all (_ ∷ n) q = elim (dequeue q) [
    | throws e ↦ throws e
    | ok (x, r) ↦ elim (dequeue_all n r) [ throws e ↦ throws e | ok (xs, t) ↦ ok (x ∷ xs, t) ]
  ]

  contents-enqueue_all :
      (xs : List T) (q : Queue T) → (enqueue_all xs q).contents ≡ q.contents ++ xs
  unfolding enqueue_all
  contents-enqueue_all [] q = ground (arith, append-nil q.contents)
  contents-enqueue_all (x ∷ xs) q =
      ground (arith, contents-enqueue_all xs (enqueue x q), append_assoc q.contents (x ∷ []) xs)

  dequeue_all-contents :
      (xs : List T) (q : Queue T) → q.contents ≡ xs → dequeue_all xs q ≡ ok (xs, new)
  unfolding dequeue_all dequeue new
  dequeue_all-contents [] q e = ground arith
  dequeue_all-contents (x ∷ xs) q e =
      ground (arith, dequeue_all-contents xs (record { contents = xs }) refl)

  -- What was in the queue leaves first, then what was enqueued, both in their order; after as
  -- many calls of dequeue the queue is empty, and one call more throws.
  pub dequeue_all-enqueue_all :
      (xs : List T) (q : Queue T)
      → (dequeue_all (q.contents ++ xs) (enqueue_all xs q) ≡ ok (q.contents ++ xs, new))
        × (dequeue (new {T = T}) ≡ throws dequeue_from_empty)
  unfolding dequeue new
  dequeue_all-enqueue_all xs q =
      (dequeue_all-contents (q.contents ++ xs) (enqueue_all xs q) (contents-enqueue_all xs q), refl)
