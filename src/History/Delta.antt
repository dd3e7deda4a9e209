-- ===== src/History/Delta.antt =====
-- src/data/history/HistoryDelta.ts: the headers that lead from a starting state of a history to a
-- target, with the part of the history before the start that shows what is known there. The store is
-- the function that looks a header up by its hash. The loop of `compute` runs for as many turns as it
-- is given, at most.
pub mod Sound
pub mod Steps
pub mod Ends
pub mod Spins
use hyperhyperspace_core.Prelude.{
  ℕ, zero, suc, Hash, Bool, true, false, List, [], ◌∷◌, Option, none, some, ◌==◌, ◌&&◌, not, ltb,
  leb, if◌then◌else◌, length, string_key, Result,
}
use hyperhyperspace_core.Js.Map
use hyperhyperspace_core.Js.Map.{JsMap}
use hyperhyperspace_core.Js.Set
use hyperhyperspace_core.Js.Set.{JsSet}
use hyperhyperspace_core.History.Header.{OpHeader}
use hyperhyperspace_core.History.Fragment.{Fragment, new, add, remove, is_empty}
use hyperhyperspace_core.History.Walk.{forward, full, WalkError}
use hyperhyperspace_core.History.Queries.{get_starting_op_headers}
use hyperhyperspace_core.History.CausalClosure.{causal_closure}

pub record Delta : Type 0 where
  pub fragment : Fragment
  pub start : Fragment
  pub gap : JsSet Hash

unfoldable pub new_delta : Hash → Delta
new_delta target = record { fragment = new target; start = new target; gap = [] }

-- The loop of `updateGap`.
unfoldable pub gap_of : List Hash → Fragment → JsSet Hash → JsSet Hash
gap_of [] start gap = gap
gap_of (x ∷ xs) start gap =
    gap_of xs start (if not (Map.has x start.contents) then Set.add x gap else gap)

unfoldable pub update_gap : Delta → Delta
unfolding gap_of
update_gap d = record d { gap = gap_of d.fragment.missing_prev_op_headers d.start [] }

abbrev pub lower : Option ℕ → ℕ → Option ℕ
lower none n = some n
lower (some h) n = if ltb n h then some n else some h

-- The least height of the headers; none if there are none. Every starting hash is of a header held.
unfoldable pub least_height : List Hash → Fragment → Option ℕ → Option ℕ
least_height [] f h = h
least_height (x ∷ xs) f h = elim (Map.get x f.contents) [
  | none ↦ least_height xs f h
  | some op ↦ least_height xs f (lower h op.height)
]

-- Nothing is above a height that is not defined.
abbrev pub above : ℕ → Option ℕ → Bool
above n none = false
above n (some h) = ltb h n

-- The condition of the loop of `compute`.
abbrev pub goes_on : ℕ → Delta → Bool
goes_on max_delta_size d = not (is_empty d.gap) && ltb (length d.fragment.contents) max_delta_size

module _ (load : Hash → Option OpHeader) where
  -- A header moves from the fragment to the start.
  unfoldable pub move : OpHeader → Delta → Delta
  move h d = record d { start = add h d.start; fragment = remove h.header_hash d.fragment }

  unfoldable pub load_start : List Hash → Delta → Delta
  unfolding move
  load_start [] d = d
  load_start (x ∷ xs) d = elim (load x) [
    | none ↦ load_start xs d
    | some h ↦ load_start xs (move h d)
  ]

  unfoldable pub fetch : Hash → Delta → Delta
  fetch x d =
      if not (Map.has x d.start.contents)
      then elim (load x) [ none ↦ d | some h ↦ record d { fragment = add h d.fragment } ]
      else d

  unfoldable pub load_targets : List Hash → Delta → Delta
  unfolding fetch
  load_targets [] d = d
  load_targets (x ∷ xs) d = load_targets xs (fetch x d)

  unfoldable pub recover : Option ℕ → Hash → Delta → Delta
  recover h x d = elim (load x) [
    | none ↦ d
    | some op ↦
        if above op.height h
        then record d { start = add op d.start; fragment = remove x d.fragment }
        else d
  ]

  unfoldable pub backtrack : ℕ → Option ℕ → List Hash → Delta → Delta
  unfolding recover
  backtrack limit h [] d = d
  backtrack limit h (x ∷ xs) d =
      let rest = backtrack limit h xs (recover h x d) in
      if leb limit (length d.start.contents) then d else rest

  unfoldable pub extend : ℕ → List Hash → Delta → Delta
  unfolding fetch
  extend limit [] d = d
  extend limit (x ∷ xs) d =
      let rest = extend limit xs (fetch x d) in
      if leb limit (length d.fragment.contents) then d else rest

  module _ (max_delta_size max_backtrack_size : ℕ) where
    unfoldable pub turn : Delta → Delta
    unfolding backtrack extend update_gap least_height
    turn d =
        let h = least_height (get_starting_op_headers d.fragment) d.fragment none in
        let back = backtrack max_backtrack_size h d.start.missing_prev_op_headers d in
        update_gap (extend max_delta_size back.fragment.missing_prev_op_headers back)

    unfoldable pub turns : ℕ → Delta → Delta
    unfolding turn
    turns zero d = d
    turns (suc n) d = let rest = turns n (turn d) in if goes_on max_delta_size d then rest else d

    unfoldable pub compute : ℕ → List Hash → List Hash → Delta → Delta
    unfolding load_start load_targets update_gap turns
    compute n targets starting d =
        turns n (update_gap (load_targets targets (load_start starting d)))

unfoldable pub op_headers_following_from_start :
    (d : Delta) → Option ℕ → Result (WalkError full forward none d.fragment) (List Hash)
op_headers_following_from_start d max_ops =
    causal_closure (Map.keys d.start.contents) none none d.fragment max_ops
