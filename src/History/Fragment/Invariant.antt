-- ===== src/History/Fragment/Invariant.antt =====
-- What the sets of a fragment of src/data/history/HistoryFragment.ts hold, by its contents.
use hyperhyperspace_core.Prelude.{
  Hash, Bool, true, false, Option, none, some, not, ◌&&◌, ◌≡◌, ite, same, refl, string_key,
}
use hyperhyperspace_core.Js.Map
use hyperhyperspace_core.Js.Map.{JsMap}
use hyperhyperspace_core.Js.Set
use hyperhyperspace_core.Util.MultiMap
use hyperhyperspace_core.History.Header.{OpHeader}
use hyperhyperspace_core.History.Fragment.{Fragment, is_empty, new}

-- `x` is in the contents and names `p` among its predecessors.
abbrev pub follows : Option OpHeader → Hash → Bool
follows none p = false
follows (some h) p = Set.has p h.prev_op_headers

abbrev pub is_root : Option OpHeader → Bool
is_root none = false
is_root (some h) = is_empty h.prev_op_headers

abbrev pub is_header_of : Option OpHeader → Hash → Bool
is_header_of none o = false
is_header_of (some h) o = ite (same h.op_hash o) true false

-- No header of the fragment follows `p`.
abbrev pub bare : Fragment → Hash → Bool
bare f p = is_empty (MultiMap.get p f.next_op_headers)

pub record IsConsistent (f : Fragment) : Type 0 where
  pub keyed : (x : Hash) (h : OpHeader) → Map.get x f.contents ≡ some h → h.header_hash ≡ x
  pub next : (p x : Hash) → MultiMap.has p x f.next_op_headers ≡ follows (Map.get x f.contents) p
  pub terminal : (x : Hash) → Set.has x f.terminal_op_headers ≡ (Map.has x f.contents && bare f x)
  pub missing :
      (x : Hash)
      → Set.has x f.missing_prev_op_headers ≡ (not (Map.has x f.contents) && not (bare f x))
  pub rooted : (x : Hash) → Set.has x f.roots ≡ is_root (Map.get x f.contents)
  pub for_op :
      (o x : Hash) → MultiMap.has o x f.op_headers_for_op ≡ is_header_of (Map.get x f.contents) o

pub new-IsConsistent : (target : Hash) → IsConsistent (new target)
unfolding new MultiMap.get MultiMap.has MultiMap.empty Map.get Set.has
new-IsConsistent target = record {
  keyed = λ x h e. cc;
  next = λ p x. refl;
  terminal = λ x. refl;
  missing = λ x. refl;
  rooted = λ x. refl;
  for_op = λ o x. refl;
}
