-- ===== src/History/CausalClosure.antt =====
-- `causalClosureFrom` of src/data/history/HistoryFragment.ts: headers that follow from those that are
-- provided, each after its predecessors. The hashes in the index of successors are of headers held,
-- as in every consistent fragment; one that is not is passed over here.
pub mod Order
use hyperhyperspace_core.Prelude.{
  ℕ, Hash, Bool, true, false, List, [], ◌∷◌, ◌++◌, Option, none, some, ◌==◌, if◌then◌else◌, Result,
  ok, throws, length, string_key,
}
use hyperhyperspace_core.Js.Map
use hyperhyperspace_core.Js.Map.{JsMap}
use hyperhyperspace_core.Js.Set
use hyperhyperspace_core.Js.Set.{JsSet}
use hyperhyperspace_core.Util.MultiMap
use hyperhyperspace_core.History.Header.{OpHeader}
use hyperhyperspace_core.History.Fragment.{Fragment, is_empty}
use hyperhyperspace_core.History.Walk.{forward, full, Filter, WalkError, iterate_from, passes}
use hyperhyperspace_core.History.Queries.{get_starting_op_headers}

pub record Progress : Type 0 where
  pub missing_prev_op_headers : JsMap Hash (JsSet Hash)
  pub closure : JsSet Hash
  pub result : List Hash

abbrev pub reached : Option ℕ → ℕ → Bool
reached none n = false
reached (some m) n = m == n

abbrev pub ignored : Filter → Hash → Bool
ignored none h = false
ignored (some test) h = test h

module _ (provided : JsSet Hash) (ignore filter : Filter) (f : Fragment) where
  unfoldable pub unprovided : List Hash → JsSet Hash → JsSet Hash
  unprovided [] missing = missing
  unprovided (p ∷ ps) missing =
      unprovided ps (if Set.has p provided then missing else Set.add p missing)

  unfoldable pub load_missing_prev_op_headers :
      OpHeader → JsMap Hash (JsSet Hash) → JsMap Hash (JsSet Hash)
  unfolding unprovided
  load_missing_prev_op_headers h m = elim (Map.get h.header_hash m) [
    | none ↦ Map.set h.header_hash (unprovided h.prev_op_headers []) m
    | some s ↦ m
  ]

  unfoldable pub fulfil : Hash → Hash → JsMap Hash (JsSet Hash) → JsMap Hash (JsSet Hash)
  fulfil hash next m = elim (Map.get next m) [
    | none ↦ m
    | some s ↦ Map.set next (Set.delete hash s) m
  ]

  -- The loop over the headers that follow.
  unfoldable pub fulfil_all : Hash → List Hash → JsMap Hash (JsSet Hash) → JsMap Hash (JsSet Hash)
  unfolding load_missing_prev_op_headers fulfil
  fulfil_all hash [] m = m
  fulfil_all hash (n ∷ ns) m = fulfil_all hash ns (
      if passes filter n
      then elim (Map.get n f.contents) [
        | none ↦ m
        | some h ↦ fulfil hash n (load_missing_prev_op_headers h m)
      ]
      else m)

  -- What is done where no predecessor is missing.
  unfoldable pub include : Hash → JsMap Hash (JsSet Hash) → Progress → Progress
  unfolding fulfil_all
  include hash m st = record {
    missing_prev_op_headers = fulfil_all hash (MultiMap.get hash f.next_op_headers) m;
    closure = Set.add hash st.closure;
    result =
        if Set.has hash st.closure
        then st.result
        else (if ignored ignore hash then st.result else st.result ++ (hash ∷ []));
  }

  unfoldable pub visit : OpHeader → Progress → Progress
  unfolding load_missing_prev_op_headers include
  visit h st =
      let m = load_missing_prev_op_headers h st.missing_prev_op_headers in
      if passes filter h.header_hash
      then elim (Map.get h.header_hash m) [
        | none ↦ record st { missing_prev_op_headers = m }
        | some s ↦
            if is_empty s
            then include h.header_hash m st
            else record st { missing_prev_op_headers = m }
      ]
      else st

  unfoldable pub visit_all : Option ℕ → List OpHeader → Progress → Progress
  unfolding visit
  visit_all max_ops [] st = st
  visit_all max_ops (h ∷ hs) st =
      let rest = visit_all max_ops hs (visit h st) in
      if reached max_ops (length st.result) then st else rest

  unfoldable pub causal_closure_from :
      JsSet Hash → Option ℕ → Result (WalkError full forward none f) (List Hash)
  unfolding visit_all
  causal_closure_from starting max_ops = elim (iterate_from full forward none f starting) [
    | throws e ↦ throws e
    | ok hs ↦
        ok
          (visit_all max_ops hs
            (record { missing_prev_op_headers = []; closure = []; result = [] })).result
  ]

  unfoldable pub causal_closure : Option ℕ → Result (WalkError full forward none f) (List Hash)
  unfolding causal_closure_from
  causal_closure max_ops = causal_closure_from (get_starting_op_headers f) max_ops
