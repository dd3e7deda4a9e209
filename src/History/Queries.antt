-- ===== src/History/Queries.antt =====
-- src/data/history/HistoryFragment.ts: what is asked of a fragment, and the fragments made from it.
pub mod Copies
use hyperhyperspace_core.Prelude.{
  ℕ, Hash, Bool, true, false, List, [], ◌∷◌, ◌++◌, Option, none, some, ◌==◌, ltb, if◌then◌else◌,
  Result, ok, throws, length, map, string_key, not,
}
use hyperhyperspace_core.Js.Map
use hyperhyperspace_core.Js.Map.{JsMap}
use hyperhyperspace_core.Js.Set
use hyperhyperspace_core.Js.Set.{JsSet}
use hyperhyperspace_core.Util.MultiMap
use hyperhyperspace_core.Util.MultiMap.{copy_set}
use hyperhyperspace_core.History.Header.{OpHeader}
use hyperhyperspace_core.History.Fragment.{Fragment, new, add, remove, is_empty}
use hyperhyperspace_core.History.Walk.{
  Direction, forward, backward, bfs, Filter, WalkError, iterate_from, closure_from,
}

unfoldable pub all_unique : List (JsSet Hash) → Bool
all_unique [] = true
all_unique (hs ∷ rest) = if ltb 1 (Set.size hs) then false else all_unique rest

unfoldable pub verify_unique_ops : Fragment → Bool
unfolding all_unique
verify_unique_ops f = all_unique (Map.values f.op_headers_for_op.inner)

unfoldable pub add_all : List OpHeader → Fragment → Fragment
add_all [] f = f
add_all (h ∷ hs) f = add_all hs (add h f)

unfoldable pub clone : Fragment → Fragment
unfolding add_all
clone f = add_all (Map.values f.contents) (new f.mutable_obj)

-- The hashes of a set, looked up in the contents. What a closure holds is there.
unfoldable pub add_from : JsMap Hash OpHeader → List Hash → Fragment → Fragment
add_from contents [] g = g
add_from contents (x ∷ xs) g = elim (Map.get x contents) [
  | none ↦ add_from contents xs g
  | some h ↦ add_from contents xs (add h g)
]

unfoldable pub filter_by_terminal_op_headers :
    (f : Fragment) → JsSet Hash → Result (WalkError bfs backward none f) Fragment
unfolding add_from
filter_by_terminal_op_headers f terminal = elim (closure_from backward none f terminal) [
  | throws e ↦ throws e
  | ok hashes ↦ ok (add_from f.contents hashes (new f.mutable_obj))
]

unfoldable pub remove_unless : JsSet Hash → List Hash → Fragment → Fragment
remove_unless terminal [] f = f
remove_unless terminal (x ∷ xs) f =
    remove_unless terminal xs (if Set.has x terminal then f else remove x f)

unfoldable pub remove_non_terminal_ops : Fragment → Fragment
unfolding remove_unless copy_set
remove_non_terminal_ops f =
    remove_unless (copy_set f.terminal_op_headers []) (Map.keys f.contents) f

unfoldable pub add_all_predecessors :
    JsSet Hash
    → (fragment : Fragment) → Fragment
    → Result (WalkError bfs backward none fragment) Fragment
unfolding add_all
add_all_predecessors origin fragment f = elim (iterate_from bfs backward none fragment origin) [
  | throws e ↦ throws e
  | ok hs ↦ ok (add_all hs f)
]

unfoldable pub add_starting : List Hash → Fragment → JsSet Hash → JsSet Hash
unfolding copy_set
add_starting [] f s = s
add_starting (m ∷ ms) f s = add_starting ms f (copy_set (MultiMap.get m f.next_op_headers) s)

unfoldable pub get_starting_op_headers : Fragment → JsSet Hash
unfolding copy_set add_starting
get_starting_op_headers f = add_starting f.missing_prev_op_headers f (copy_set f.roots [])

pub data QueryError : Type 0 where
  more_than_one : Hash → QueryError

unfoldable pub get_op_header_for_op : Hash → Fragment → Result QueryError (Option OpHeader)
get_op_header_for_op op f = elim (MultiMap.get op f.op_headers_for_op) [
  | [] ↦ ok none
  | x ∷ [] ↦ ok (Map.get x f.contents)
  | x ∷ y ∷ rest ↦ throws (more_than_one op)
]

unfoldable pub get_all_op_headers_for_op : Hash → Fragment → List (Option OpHeader)
get_all_op_headers_for_op op f =
    map (λ x. Map.get x f.contents) (MultiMap.get op f.op_headers_for_op)

unfoldable pub all_missing : List Hash → Fragment → Bool
all_missing [] f = true
all_missing (p ∷ ps) f = if Set.has p f.missing_prev_op_headers then all_missing ps f else false

unfoldable pub is_terminal : Direction → OpHeader → Fragment → Bool
unfolding all_missing
is_terminal forward h f = is_empty (MultiMap.get h.header_hash f.next_op_headers)
is_terminal backward h f = all_missing h.prev_op_headers f

-- The headers by their hashes: a fragment holds one header for a hash.
unfoldable pub select_terminal : Direction → List OpHeader → Fragment → JsSet Hash → JsSet Hash
unfolding is_terminal
select_terminal direction [] f terminal = terminal
select_terminal direction (h ∷ hs) f terminal =
    select_terminal direction hs f
      (if is_terminal direction h f then Set.add h.header_hash terminal else terminal)

unfoldable pub terminal_ops_for :
    (direction : Direction) (f : Fragment)
    → JsSet Hash
    → Result (WalkError bfs direction none f) (JsSet Hash)
unfolding select_terminal
terminal_ops_for direction f origin = elim (iterate_from bfs direction none f origin) [
  | throws e ↦ throws e
  | ok hs ↦ ok (select_terminal direction hs f [])
]

-- The loop of `isReachable`, which stops when no target is left.
unfoldable pub strike : List OpHeader → JsSet Hash → JsSet Hash
strike [] targets = targets
strike (h ∷ hs) targets =
    let left = Set.delete h.header_hash targets in
    let rest = strike hs left in if is_empty left then left else rest

unfoldable pub is_reachable :
    (direction : Direction) (f : Fragment)
    → JsSet Hash
    → JsSet Hash
    → Result (WalkError bfs direction none f) Bool
unfolding strike copy_set
is_reachable direction f origin destination = elim (iterate_from bfs direction none f origin) [
  | throws e ↦ throws e
  | ok hs ↦ ok (is_empty (strike hs (copy_set destination [])))
]
