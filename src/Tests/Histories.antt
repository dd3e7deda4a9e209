-- ===== src/Tests/Histories.antt =====
-- The theorems on src/data/history at concrete inputs.
use hyperhyperspace_core.Prelude.{
  Option, arith, length, ◌≡◌, ◌↔◌, ◌≢◌, ◌<◌, ℕ, Hash, true, false, List, [], ◌∷◌, none, some, refl,
  ok, All, string_key, string_discrete,
}
use hyperhyperspace_core.Js.Map
use hyperhyperspace_core.Js.Map.{JsMap}
use hyperhyperspace_core.Js.Set
use hyperhyperspace_core.History.Header.{
  OpHeader, HeaderLiteral, Digest, MutationOp, text, hash, from_op, from_literal, literalize,
  literal_props,
}
use hyperhyperspace_core.History.Header.Sizes.{from_op_above}
use hyperhyperspace_core.History.Header.Literals.{from_literal-literalize, forged_props_accepted}
use hyperhyperspace_core.History.Fragment.{Fragment, new}
use hyperhyperspace_core.History.Fragment.Invariant.{
  IsConsistent, follows, is_root, new-IsConsistent,
}
use hyperhyperspace_core.History.Fragment.Spec.{
  Edit, adds, removes, run, run-IsConsistent, history-IsConsistent,
}
use hyperhyperspace_core.History.Fragment.View.{view, history_refines}
use hyperhyperspace_core.History.Walk.{forward, full, iterate_from}
use hyperhyperspace_core.History.Walk.Ends.{walk_ends}
use hyperhyperspace_core.History.CausalClosure.{causal_closure_from}
use hyperhyperspace_core.History.CausalClosure.Order.{IsOrdered, IsWithin, causal_closure-IsOrdered}
use hyperhyperspace_core.History.Delta.{compute, new_delta}
use hyperhyperspace_core.History.Delta.Sound.{IsSound, FindsByHash, compute-IsSound}

abbrev header : Hash → List Hash → ℕ → OpHeader
header h prev n = record {
  header_hash = h;
  header_props = [];
  op_hash = h;
  prev_op_headers = prev;
  height = n;
  size = n;
}

abbrev first_header : OpHeader
first_header = header "h1" [] 1

abbrev second_header : OpHeader
second_header = header "h2" ("h1" ∷ []) 2

abbrev lone_header : OpHeader
lone_header = header "h4" ("h3" ∷ []) 4

abbrev edits : List Edit
edits = adds second_header ∷ adds first_header ∷ adds lone_header ∷ []

abbrev more_edits : List Edit
more_edits =
    adds second_header
    ∷ adds first_header
    ∷ adds lone_header
    ∷ adds (header "h5" ("h4" ∷ []) 5)
    ∷ removes "h5"
    ∷ []

unfoldable sample : Fragment
sample = run edits (new "m")

sample-IsConsistent : IsConsistent sample
unfolding sample
sample-IsConsistent = run-IsConsistent edits (new "m") (new-IsConsistent "m")

history-IsConsistent_example : IsConsistent (run edits (new "m"))
history-IsConsistent_example = history-IsConsistent "m" edits

history_refines_example :
    (Map.get "h2" (run more_edits (new "m")).contents ≡ view more_edits "h2")
    × ((Set.has "h2" (run more_edits (new "m")).terminal_op_headers ≡ true)
        ↔ ((view more_edits "h2" ≢ none) × ((x : Hash) → follows (view more_edits x) "h2" ≡ false)))
    × ((Set.has "h2" (run more_edits (new "m")).missing_prev_op_headers ≡ true) ↔ (
        (view more_edits "h2" ≡ none) × ((x : Hash) × (follows (view more_edits x) "h2" ≡ true))))
    × (Set.has "h2" (run more_edits (new "m")).roots ≡ is_root (view more_edits "h2"))
history_refines_example = history_refines "m" more_edits "h2"

causal_closure-IsOrdered_example :
    (r : List Hash) × (causal_closure_from [] none none sample ("h1" ∷ []) (some 1) ≡ ok r)
    × IsOrdered [] none sample [] r
    × IsWithin [] none sample (some 1) (length r)
causal_closure-IsOrdered_example =
    causal_closure-IsOrdered [] none sample ("h1" ∷ []) (some 1) sample-IsConsistent

unfoldable found_header : Hash → Option OpHeader
found_header x = Map.get x (("h1", first_header) ∷ ("h2", second_header) ∷ [])

found_header-FindsByHash : FindsByHash found_header
unfolding found_header Map.get
found_header-FindsByHash x h e = ground arith

compute-IsSound_example :
    IsSound (compute found_header 10 10 3 ("h2" ∷ []) ("h1" ∷ []) (new_delta "m"))
compute-IsSound_example =
    compute-IsSound found_header found_header-FindsByHash 10 10 "m" 3 ("h2" ∷ []) ("h1" ∷ [])

walk_ends_example :
    (hs : List OpHeader) × (iterate_from full forward none sample ("h1" ∷ []) ≡ ok hs)
walk_ends_example = walk_ends full forward none sample ("h1" ∷ [])

abbrev digest_hash : Digest → Hash
digest_hash d = d.op_hash

abbrev unsorted : List Hash → List Hash
unsorted xs = xs

abbrev op : MutationOp
op = record { last_hash = "h2"; prev_ops = some ("h1" ∷ []); header_props = λ prev. [] }

abbrev known : JsMap Hash OpHeader
known = ("h1", first_header) ∷ []

op_header : from_op digest_hash unsorted op (some known) ≡ ok second_header
unfolding from_op Map.get Set.add hash string_discrete
op_header = refl

from_op_above_example : All (λ p. p.height < second_header.height) (Map.values known)
from_op_above_example = from_op_above digest_hash unsorted op known second_header op_header

from_literal-literalize_example :
    from_literal digest_hash unsorted (literalize digest_hash unsorted second_header)
    ≡ ok (record second_header { prev_op_headers = unsorted second_header.prev_op_headers })
unfolding hash Set.has
from_literal-literalize_example =
    from_literal-literalize digest_hash unsorted (λ xs. refl) (λ xs d. d) second_header refl
      (refl, tt) tt

abbrev literal : HeaderLiteral
literal = record {
  header_hash = "h1";
  header_props = none;
  op_hash = "h1";
  prev_op_headers = [];
  computed_height = 1;
  computed_size = 1;
}

accepted : from_literal digest_hash unsorted literal ≡ ok first_header
unfolding from_literal hash literal_props string_discrete
accepted = refl

forged_props_accepted_example :
    from_literal digest_hash unsorted
      (record literal { header_props = some (("role", text "admin") ∷ []) })
    ≡ ok (record first_header { header_props = literal_props (some (("role", text "admin") ∷ [])) })
forged_props_accepted_example =
    forged_props_accepted digest_hash unsorted literal first_header ("role", text "admin") []
      accepted
