-- ===== src/History/Queries/Copies.antt =====
-- What the copies and the questions of src/data/history/HistoryFragment.ts give.
use hyperhyperspace_core.Prelude.{
  ◌≡◌, refl, ◌∙◌, ap, Hash, List, [], ◌∷◌, some, if◌then◌else◌, string_key, arith, ite, same,
}
use hyperhyperspace_core.Js.Map
use hyperhyperspace_core.Js.Map.{JsMap}
use hyperhyperspace_core.Js.Set
use hyperhyperspace_core.History.Header.{OpHeader}
use hyperhyperspace_core.History.Fragment.{
  Fragment, new, add, add_header, add_prev, add_prevs, is_new,
}
use hyperhyperspace_core.History.Fragment.Invariant.{IsConsistent, new-IsConsistent}
use hyperhyperspace_core.History.Fragment.Add.{add-IsConsistent}
use hyperhyperspace_core.History.Fragment.Spec.{fragments_agree}
use hyperhyperspace_core.History.Queries.{add_all, clone}

contents-add_prevs :
    (x : Hash) (ps : List Hash) (f : Fragment) → (add_prevs x ps f).contents ≡ f.contents
unfolding add_prevs add_prev
contents-add_prevs x [] f = refl
contents-add_prevs x (p ∷ ps) f = contents-add_prevs x ps (add_prev x p f)

pub contents-add :
    (x : Hash) (h : OpHeader) (f : Fragment)
    → Map.get x (add h f).contents ≡ (
        if Map.has h.header_hash f.contents
        then Map.get x f.contents
        else ite (same h.header_hash x) (some h) (Map.get x f.contents))
unfolding add add_header is_new
contents-add x h f = ground (
  arith,
  ap (Map.get x) (contents-add_prevs h.header_hash h.prev_op_headers (add_header h f)),
  Map.get-set x h.header_hash h f.contents,
)

-- Every header stands under its own hash.
abbrev AreKeyed : JsMap Hash OpHeader → Type 0
AreKeyed [] = Unit
AreKeyed ((x, h) ∷ m) = (h.header_hash ≡ x) × AreKeyed m

keyed_entries :
    (m : JsMap Hash OpHeader)
    → Map.IsDistinct m
    → ((x : Hash) (h : OpHeader) → Map.get x m ≡ some h → h.header_hash ≡ x)
    → AreKeyed m
unfolding Map.get
keyed_entries [] d k = tt
keyed_entries ((x, h) ∷ m) d k =
    (k x h (ground arith), keyed_entries m d.1 (λ y g e. k y g (ground (arith, d.0, e))))

contents-add_all :
    (x : Hash) (m : JsMap Hash OpHeader) (f : Fragment)
    → Map.IsDistinct m
    → AreKeyed m
    → Map.get x (add_all (Map.values m) f).contents
      ≡ (if Map.has x f.contents then Map.get x f.contents else Map.get x m)
unfolding add_all Map.get
contents-add_all x [] f d k = ground arith
contents-add_all x ((y, h) ∷ m) f d k = ground (
  arith,
  contents-add_all x m (add h f) d.1 k.1,
  contents-add x h f,
  k.0,
  d.0,
  ap (λ z. Map.has z f.contents) {x = h.header_hash} {y = x},
)

add_all-IsConsistent :
    (hs : List OpHeader) (f : Fragment) → IsConsistent f → IsConsistent (add_all hs f)
unfolding add_all
add_all-IsConsistent [] f c = c
add_all-IsConsistent (h ∷ hs) f c = add_all-IsConsistent hs (add h f) (add-IsConsistent h f c)

contents-clone :
    (f : Fragment)
    → IsConsistent f
    → Map.IsDistinct f.contents
    → (x : Hash) → Map.get x (clone f).contents ≡ Map.get x f.contents
unfolding clone new
contents-clone f c d x =
    contents-add_all x f.contents (new f.mutable_obj) d (keyed_entries f.contents d c.keyed)
    ∙ ground (arith, Map.get-nil {V = OpHeader} x)

-- The clone of a consistent fragment that holds no hash twice is consistent, holds the same
-- headers, and has the same terminal hashes, missing hashes and roots.
pub clone_agrees :
    (f : Fragment)
    → IsConsistent f
    → Map.IsDistinct f.contents
    → IsConsistent (clone f)
      × ((x : Hash)
          → (Map.get x (clone f).contents ≡ Map.get x f.contents)
            × (Set.has x (clone f).terminal_op_headers ≡ Set.has x f.terminal_op_headers)
            × (Set.has x (clone f).missing_prev_op_headers ≡ Set.has x f.missing_prev_op_headers)
            × (Set.has x (clone f).roots ≡ Set.has x f.roots))
unfolding clone
clone_agrees f c d =
    let copied =
      add_all-IsConsistent (Map.values f.contents) (new f.mutable_obj)
        (new-IsConsistent f.mutable_obj) in
    (
      copied,
      λ x.
          let (terminal, missing, roots) =
            fragments_agree (clone f) f copied c (contents-clone f c d) x in
          (contents-clone f c d x, terminal, missing, roots),
    )
