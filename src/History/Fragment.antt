-- ===== src/History/Fragment.antt =====
-- src/data/history/HistoryFragment.ts: a set of operation headers with the terminal ones, those that
-- are missing, the roots, and the reverse of the dependencies. A method returns the new fragment.
pub mod Invariant
pub mod Add
pub mod Remove
pub mod Spec
pub mod View
use hyperhyperspace_core.Prelude.{
  Hash, Bool, true, false, List, [], ◌∷◌, Option, none, some, if◌then◌else◌, ◌==◌, not, string_key,
}
use hyperhyperspace_core.Js.Map
use hyperhyperspace_core.Js.Map.{JsMap}
use hyperhyperspace_core.Js.Set
use hyperhyperspace_core.Js.Set.{JsSet}
use hyperhyperspace_core.Util.MultiMap
use hyperhyperspace_core.Util.MultiMap.{MultiMap}
use hyperhyperspace_core.History.Header.{OpHeader}

pub record Fragment : Type 0 where
  pub mutable_obj : Hash
  pub terminal_op_headers : JsSet Hash
  pub missing_prev_op_headers : JsSet Hash
  pub contents : JsMap Hash OpHeader
  pub roots : JsSet Hash
  pub op_headers_for_op : MultiMap Hash Hash
  pub next_op_headers : MultiMap Hash Hash

unfoldable pub new : Hash → Fragment
new target = record {
  mutable_obj = target;
  terminal_op_headers = [];
  missing_prev_op_headers = [];
  contents = [];
  roots = [];
  op_headers_for_op = MultiMap.empty;
  next_op_headers = MultiMap.empty;
}

unfoldable pub is_new : Hash → Fragment → Bool
is_new h f = not (Map.has h f.contents)

abbrev pub is_empty : JsSet Hash → Bool
is_empty s = Set.size s == 0

-- One turn of the loop of `add` over the predecessors.
unfoldable pub add_prev : Hash → Hash → Fragment → Fragment
unfolding is_new
add_prev hash prev f = record f {
  missing_prev_op_headers =
      if is_new prev f then Set.add prev f.missing_prev_op_headers else f.missing_prev_op_headers;
  terminal_op_headers =
      if is_new prev f then f.terminal_op_headers else Set.delete prev f.terminal_op_headers;
  next_op_headers = MultiMap.add prev hash f.next_op_headers;
}

unfoldable pub add_prevs : Hash → List Hash → Fragment → Fragment
unfolding add_prev
add_prevs hash [] f = f
add_prevs hash (p ∷ ps) f = add_prevs hash ps (add_prev hash p f)

-- What `add` does before the loop.
unfoldable pub add_header : OpHeader → Fragment → Fragment
add_header h f = record f {
  contents = Map.set h.header_hash h f.contents;
  op_headers_for_op = MultiMap.add h.op_hash h.header_hash f.op_headers_for_op;
  roots = if is_empty h.prev_op_headers then Set.add h.header_hash f.roots else f.roots;
  missing_prev_op_headers =
      if Set.has h.header_hash f.missing_prev_op_headers
      then Set.delete h.header_hash f.missing_prev_op_headers
      else f.missing_prev_op_headers;
  terminal_op_headers =
      if Set.has h.header_hash f.missing_prev_op_headers
      then f.terminal_op_headers
      else Set.add h.header_hash f.terminal_op_headers;
}

unfoldable pub add : OpHeader → Fragment → Fragment
unfolding is_new add_header add_prevs
add h f =
    if is_new h.header_hash f then add_prevs h.header_hash h.prev_op_headers (add_header h f) else f

-- One turn of the loop of `remove` over the predecessors.
unfoldable pub remove_prev : Hash → Hash → Fragment → Fragment
remove_prev hash prev f =
    let next = (MultiMap.delete prev hash f.next_op_headers).0 in
    let bare = is_empty (MultiMap.get prev next) in
    let known = Map.has prev f.contents in
    record f {
      next_op_headers = next;
      terminal_op_headers =
          if bare
          then (if known then Set.add prev f.terminal_op_headers else f.terminal_op_headers)
          else f.terminal_op_headers;
      missing_prev_op_headers =
          if bare
          then (if known
              then f.missing_prev_op_headers
              else Set.delete prev f.missing_prev_op_headers)
          else f.missing_prev_op_headers;
    }

unfoldable pub remove_prevs : Hash → List Hash → Fragment → Fragment
unfolding remove_prev
remove_prevs hash [] f = f
remove_prevs hash (p ∷ ps) f = remove_prevs hash ps (remove_prev hash p f)

-- What `remove` does before the loop, with the header that is found under the hash.
unfoldable pub remove_header : Hash → OpHeader → Fragment → Fragment
remove_header hash h f = record f {
  contents = Map.delete h.header_hash f.contents;
  op_headers_for_op = (MultiMap.delete h.op_hash h.header_hash f.op_headers_for_op).0;
  terminal_op_headers = Set.delete h.header_hash f.terminal_op_headers;
  roots = if is_empty h.prev_op_headers then Set.delete h.header_hash f.roots else f.roots;
  missing_prev_op_headers =
      if is_empty (MultiMap.get hash f.next_op_headers)
      then f.missing_prev_op_headers
      else Set.add hash f.missing_prev_op_headers;
}

unfoldable pub remove : Hash → Fragment → Fragment
unfolding remove_header remove_prevs
remove hash f = elim (Map.get hash f.contents) [
  | none ↦ f
  | some h ↦ remove_prevs h.header_hash h.prev_op_headers (remove_header hash h f)
]
