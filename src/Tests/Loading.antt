-- ===== src/Tests/Loading.antt =====
-- The theorems on the loading of histories from a store at concrete inputs.
use hyperhyperspace_core.Prelude.{
  ℕ, suc, Hash, true, false, List, [], ◌∷◌, Option, none, some, ◌≡◌, refl, ok, arith, ite, same,
  string_key, string_discrete,
}
use hyperhyperspace_core.Js.Map
use hyperhyperspace_core.Js.Set
use hyperhyperspace_core.History.Header.{OpHeader}
use hyperhyperspace_core.History.Fragment.{
  Fragment, new, add, add_header, add_prevs, add_prev, is_new,
}
use hyperhyperspace_core.History.Fragment.Invariant.{new-IsConsistent}
use hyperhyperspace_core.History.Loading.{load_from_terminal_op_headers}
use hyperhyperspace_core.History.Loading.Complete.{
  IsLoaded, unheld, load_from_terminal_op_headers-IsLoaded,
}
use hyperhyperspace_core.History.Delta.{Delta, goes_on, compute, new_delta, turns}
use hyperhyperspace_core.History.Delta.Sound.{FindsByHash}
use hyperhyperspace_core.History.Delta.Ends.{compute_ends}
use hyperhyperspace_core.History.Delta.Spins.{IsStuck, turns_spin}

abbrev header : Hash → List Hash → ℕ → OpHeader
header h prev n = record {
  header_hash = h;
  header_props = [];
  op_hash = h;
  prev_op_headers = prev;
  height = n;
  size = n;
}

abbrev load : Hash → Option OpHeader
load x =
    ite (same "h1" x) (some (header "h1" [] 1))
      (ite (same "h2" x) (some (header "h2" ("h1" ∷ []) 2)) none)

abbrev hashes : List Hash
hashes = "h1" ∷ "h2" ∷ []

loaded :
    (x : Hash)
    → Set.has x hashes ≡ true
    → (h : OpHeader) × (load x ≡ some h)
      × (h.header_hash ≡ x)
      × ((p : Hash) → Set.has p h.prev_op_headers ≡ true → Set.has p hashes ≡ true)
unfolding Set.has
loaded x m = elim (same "h1" x) [
  | yes p ↦ (header "h1" [] 1, ground arith, p, λ q e. cc)
  | no p ↦ elim (same "h2" x) [
    | yes q ↦ (header "h2" ("h1" ∷ []) 2, ground arith, q, λ r e. ground (arith, e))
    | no q ↦ absurd (ground (arith, m))
  ]
]

load_from_terminal_op_headers-IsLoaded_example :
    (g : Fragment) × (load_from_terminal_op_headers load none none
        (suc (unheld hashes (new "m")))
        ("h2" ∷ [])
        (new "m")
      ≡ some (ok g))
    × IsLoaded load none none hashes (record { loads = loaded }) ("h2" ∷ []) (new "m") g
unfolding new Map.get Set.has
load_from_terminal_op_headers-IsLoaded_example =
    load_from_terminal_op_headers-IsLoaded load none none hashes (record { loads = loaded })
      ("h2" ∷ []) (new "m") (new-IsConsistent "m") (λ x p e. cc) (λ x e. ground (arith, e))

load-FindsByHash : FindsByHash load
load-FindsByHash x h e = ground arith

compute_ends_example :
    goes_on 10 (compute load 10 10 3 ("h2" ∷ []) ("h1" ∷ []) (new_delta "m")) ≡ false
unfolding Set.has
compute_ends_example =
    compute_ends load load-FindsByHash hashes (record { loads = loaded }) 10 10 "m" 3 ("h2" ∷ [])
      ("h1" ∷ []) (λ x e. ground (arith, e)) (omega arith)

-- A fragment with a header whose predecessor the store does not have.
abbrev orphaned : Delta
orphaned = record (new_delta "m") {
  fragment = add (header "h4" ("h3" ∷ []) 4) (new "m");
  gap = "h3" ∷ [];
}

orphaned-IsStuck : IsStuck load 10 "h3" orphaned
unfolding new_delta new add add_header add_prevs add_prev is_new Map.get Map.set Set.has Set.add
    Set.delete string_discrete
orphaned-IsStuck = record {
  missing = refl;
  start_missing = refl;
  not_stored = refl;
  not_started = refl;
  gap = refl;
  below = omega arith;
}

turns_spin_example : goes_on 10 (turns load 10 10 100 orphaned) ≡ true
turns_spin_example = turns_spin load 10 10 "h3" orphaned orphaned-IsStuck 100
