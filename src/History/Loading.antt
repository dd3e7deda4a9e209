-- ===== src/History/Loading.antt =====
-- loadFromTerminalOpHeaders of src/data/history/HistoryFragment.ts: the headers that lead to the given
-- terminal ones, from a store, which is the function that looks a header up by its hash.
pub mod Complete
use hyperhyperspace_core.Prelude.{
  ℕ, zero, suc, Hash, Bool, true, false, List, [], ◌∷◌, Option, none, some, ◌||◌, if◌then◌else◌,
  length, string_key, Result, ok, throws,
}
use hyperhyperspace_core.Js.Map
use hyperhyperspace_core.Js.Set
use hyperhyperspace_core.Js.Set.{JsSet}
use hyperhyperspace_core.History.Header.{OpHeader}
use hyperhyperspace_core.History.Fragment.{Fragment, add, is_empty}
use hyperhyperspace_core.History.CausalClosure.{reached}

-- `add` of a header that the store does not have throws.
pub data LoadError : Type 0 where
  header_undefined : LoadError

abbrev pub is_forbidden : Option (JsSet Hash) → Hash → Bool
is_forbidden none h = false
is_forbidden (some forbidden) h = Set.has h forbidden

-- The loop that fills `next`.
unfoldable pub allowed : Option (JsSet Hash) → List Hash → List Hash
allowed forbidden [] = []
allowed forbidden (h ∷ hs) =
    let rest = allowed forbidden hs in if is_forbidden forbidden h then rest else h ∷ rest

module _ (load : Hash → Option OpHeader) (max_op_headers : Option ℕ)
    (forbidden : Option (JsSet Hash)) where
  abbrev pub is_full : Fragment → Bool
  is_full f = reached max_op_headers (length f.contents)

  unfoldable pub load_next : List Hash → Fragment → Result LoadError Fragment
  load_next [] f = ok f
  load_next (x ∷ xs) f = elim (load x) [
    | none ↦ throws header_undefined
    | some h ↦ let rest = load_next xs (add h f) in if is_full (add h f) then ok (add h f) else rest
  ]

  -- What is loaded next.
  abbrev pub following : Fragment → List Hash
  following f = allowed forbidden f.missing_prev_op_headers

  -- The outer loop, on fuel.
  unfoldable pub rounds : ℕ → List Hash → Fragment → Option (Result LoadError Fragment)
  unfolding load_next allowed
  rounds zero next f = none
  rounds (suc n) next f = elim (load_next next f) [
    | throws e ↦ some (throws e)
    | ok g ↦
        let rest = rounds n (following g) g in
        if is_empty (following g) || is_full g then some (ok g) else rest
  ]

  unfoldable pub load_from_terminal_op_headers :
      ℕ → List Hash → Fragment → Option (Result LoadError Fragment)
  unfolding rounds
  load_from_terminal_op_headers n terminal f = rounds n (allowed forbidden terminal) f
