-- ===== src/History/Walk.antt =====
-- src/data/history/HistoryWalk.ts, BFSHistoryWalk.ts and FullHistoryWalk.ts: the walks over a
-- fragment, and what src/data/history/HistoryFragment.ts does with them. The loop over a walk runs on
-- fuel.
pub mod Queue
pub mod Ends
pub mod Closure
use hyperhyperspace_core.Prelude.{
  ℕ, zero, suc, ◌+◌, ◌-◌, Hash, Bool, true, false, List, [], ◌∷◌, ◌++◌, Option, none, some, ◌==◌,
  ◌&&◌, if◌then◌else◌, Result, ok, throws, string_key, length,
}
use hyperhyperspace_core.Js.Map
use hyperhyperspace_core.Js.Map.{JsMap}
use hyperhyperspace_core.Js.Set
use hyperhyperspace_core.Js.Set.{JsSet}
use hyperhyperspace_core.Util.MultiMap
use hyperhyperspace_core.History.Header.{OpHeader}
use hyperhyperspace_core.History.Fragment.{Fragment}

pub data Direction : Type 0 where
  forward backward : Direction

pub data Method : Type 0 where
  bfs full : Method

abbrev pub Filter : Type 0
Filter = Option (Hash → Bool)

pub record Walk : Type 0 where
  pub visited : JsSet Hash
  pub queue : List Hash
  pub queue_contents : JsMap Hash ℕ

abbrev pub count_of : Option ℕ → ℕ
count_of none = 0
count_of (some n) = n

unfoldable pub enqueue : Hash → Walk → Walk
enqueue h w = record w {
  queue = w.queue ++ (h ∷ []);
  queue_contents = Map.set h (count_of (Map.get h w.queue_contents) + 1) w.queue_contents;
}

unfoldable pub enqueue_if_new : Hash → Walk → Walk
unfolding enqueue
enqueue_if_new h w = if Map.has h w.queue_contents then w else enqueue h w

-- `enqueueIfNew` in the one walk, `enqueue` in the other.
abbrev pub enqueue_by : Method → Hash → Walk → Walk
enqueue_by bfs h w = enqueue_if_new h w
enqueue_by full h w = enqueue h w

-- `dequeue`, for the queue with the hash in front of the others. A hash in the queue has a count.
unfoldable pub dequeue : Hash → List Hash → Walk → Walk
dequeue h rest w =
    let count = count_of (Map.get h w.queue_contents) in
    record w {
      queue = rest;
      queue_contents =
          if count == 1
          then Map.delete h w.queue_contents
          else Map.set h (count - 1) w.queue_contents;
    }

abbrev pub passes : Filter → Hash → Bool
passes none h = true
passes (some test) h = test h

-- The loop of `goFrom` over the unfiltered hashes.
unfoldable pub keep : (Hash → Bool) → List Hash → JsSet Hash → JsSet Hash
keep test [] kept = kept
keep test (h ∷ hs) kept = keep test hs (if test h then Set.add h kept else kept)

abbrev pub prev_or_empty : Option OpHeader → JsSet Hash
prev_or_empty none = []
prev_or_empty (some h) = h.prev_op_headers

unfoldable pub go : Direction → Hash → Fragment → JsSet Hash
go forward h f = MultiMap.get h f.next_op_headers
go backward h f = prev_or_empty (Map.get h f.contents)

unfoldable pub filtered : Filter → JsSet Hash → JsSet Hash
unfolding keep
filtered none hs = hs
filtered (some test) hs = keep test hs []

-- The loop of `closureFrom`.
unfoldable pub collect : List OpHeader → JsSet Hash → JsSet Hash
collect [] result = result
collect (h ∷ hs) result = collect hs (Set.add h.header_hash result)

module _ (method : Method) (direction : Direction) (filter : Filter) (f : Fragment) where
  unfoldable pub go_from : Hash → Walk → Walk × JsSet Hash
  unfolding go filtered
  go_from h w =
      if Set.has h w.visited
      then (w, [])
      else (record w { visited = Set.add h w.visited }, filtered filter (go direction h f))

  -- The loop of `next` over the successors.
  unfoldable pub enqueue_all : List Hash → Walk → Walk
  unfolding enqueue enqueue_if_new
  enqueue_all [] w = w
  enqueue_all (s ∷ ss) w =
      enqueue_all ss (if Map.has s f.contents then enqueue_by method s w else w)

  pub data Step : Type 0 where
    done missing : Step
    yields : OpHeader → Walk → Step

  unfoldable pub next : Walk → Step
  unfolding dequeue go_from enqueue_all
  next w = elim w.queue [
    | [] ↦ done
    | h ∷ rest ↦
        let went = go_from h (dequeue h rest w) in
        let w' = enqueue_all went.1 went.0 in
        elim (Map.get h f.contents) [ none ↦ missing | some header ↦ yields header w' ]
  ]

  pub data WalkError : Type 0 where
    missing_op_history out_of_fuel : WalkError

  abbrev pub cons_header :
      OpHeader → Result WalkError (List OpHeader) → Result WalkError (List OpHeader)
  cons_header h (ok hs) = ok (h ∷ hs)
  cons_header h (throws e) = throws e

  -- The headers that a loop over the walk sees.
  unfoldable pub iterate : ℕ → Walk → Result WalkError (List OpHeader)
  unfolding next
  iterate zero w = throws out_of_fuel
  iterate (suc n) w = elim (next w) [
    | done ↦ ok []
    | missing ↦ throws missing_op_history
    | yields h w' ↦ cons_header h (iterate n w')
  ]

  -- The loop of the constructor over the initial hashes.
  unfoldable pub begin_with : List Hash → Walk → Walk
  unfolding enqueue_if_new
  begin_with [] w = w
  begin_with (h ∷ hs) w =
      begin_with hs (if Map.has h f.contents && passes filter h then enqueue_if_new h w else w)

  unfoldable pub begin : JsSet Hash → Walk
  unfolding begin_with
  begin initial = begin_with initial (record { visited = []; queue = []; queue_contents = [] })

  -- The successors that the headers not visited yet can bring to the queue.
  unfoldable pub pending : JsSet Hash → JsMap Hash OpHeader → ℕ
  unfolding go
  pending visited [] = 0
  pending visited ((h, header) ∷ m) =
      (if Set.has h visited then 0 else length (go direction h f)) + pending visited m

  -- The turns that a walk can have yet.
  unfoldable pub measure : Walk → ℕ
  unfolding pending
  measure w = length w.queue + pending w.visited f.contents

  -- `iterateFrom`, as the headers that a loop over it sees.
  unfoldable pub iterate_from : JsSet Hash → Result WalkError (List OpHeader)
  unfolding iterate begin measure
  iterate_from initial = iterate (measure (begin initial) + 1) (begin initial)

-- `closureFrom`.
unfoldable pub closure_from :
    (direction : Direction) (filter : Filter) (f : Fragment)
    → JsSet Hash
    → Result (WalkError bfs direction filter f) (JsSet Hash)
unfolding iterate_from collect
closure_from direction filter f origin = elim (iterate_from bfs direction filter f origin) [
  | ok hs ↦ ok (collect hs [])
  | throws e ↦ throws e
]
