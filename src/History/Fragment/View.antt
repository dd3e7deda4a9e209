-- ===== src/History/Fragment/View.antt =====
-- The abstract view of a fragment of src/data/history/HistoryFragment.ts: a map from hashes to
-- headers, which additions and removals change, and from which its sets follow.
use hyperhyperspace_core.Prelude.{
  Hash, true, false, List, [], ◌∷◌, Option, none, some, ◌≡◌, ◌≢◌, ◌↔◌, arith, refl, sym, ap,
  string_key, ◌∙◌, same, ite, Option-cases, inl, inr,
}
use hyperhyperspace_core.Js.Map
use hyperhyperspace_core.Js.Set
use hyperhyperspace_core.History.Header.{OpHeader}
use hyperhyperspace_core.History.Fragment.{
  Fragment, new, is_new, add, add_header, remove, remove_header,
}
use hyperhyperspace_core.History.Fragment.Invariant.{
  IsConsistent, follows, is_root, new-IsConsistent,
}
use hyperhyperspace_core.History.Fragment.Add.{add_prevs-contents, add-IsConsistent}
use hyperhyperspace_core.History.Fragment.Remove.{remove_prevs-contents, remove-IsConsistent}
use hyperhyperspace_core.History.Fragment.Spec.{
  Edit, adds, removes, run, history-IsConsistent, terminal_iff, missing_iff,
}

abbrev pub View : Type 0
View = Hash → Option OpHeader

-- A header is added where there is none under its hash.
unfoldable pub change : Edit → View → View
change (adds h) m x = elim (m h.header_hash) [
  | none ↦ ite (same h.header_hash x) (some h) (m x)
  | some g ↦ m x
]
change (removes y) m x = ite (same y x) none (m x)

unfoldable pub change_all : List Edit → View → View
change_all [] m = m
change_all (e ∷ es) m = change_all es (change e m)

abbrev pub view : List Edit → View
view es = change_all es (λ x. none)

add-contents :
    (h : OpHeader) (f : Fragment) (x : Hash)
    → Map.get x (add h f).contents ≡ change (adds h) (λ y. Map.get y f.contents) x
unfolding add add_header is_new change
add-contents h f x = elim (Option-cases (Map.get h.header_hash f.contents)) [
  | inl e ↦
      rw (e, change)
        (ap (Map.get x) (add_prevs-contents h.header_hash h.prev_op_headers (add_header h f))
          ∙ Map.get-set x h.header_hash h f.contents)
  | inr (g, e) ↦ rw (e, change) refl
]

remove-contents :
    (y : Hash) (f : Fragment) (x : Hash)
    → IsConsistent f
    → Map.get x (remove y f).contents ≡ change (removes y) (λ z. Map.get z f.contents) x
unfolding remove remove_header change
remove-contents y f x c = elim (Option-cases (Map.get y f.contents)) [
  | inl e ↦ rw (e, remove) (ground (arith, e, ap (λ z. Map.get z f.contents) {x = y} {y = x}))
  | inr (h, e) ↦
      rw (e, remove)
        (ap (Map.get x)
            (remove_prevs-contents h.header_hash h.prev_op_headers (remove_header y h f))
          ∙ ground (arith, Map.get-delete x h.header_hash f.contents, c.keyed y h e))
]

change_alike :
    (e : Edit) (m n : View) → ((x : Hash) → m x ≡ n x) → (x : Hash) → change e m x ≡ change e n x
unfolding change
change_alike (adds h) m n q x = elim (Option-cases (n h.header_hash)) [
  | inl e ↦ rw (q h.header_hash ∙ e, e, change) (ap (ite (same h.header_hash x) (some h)) (q x))
  | inr (g, e) ↦ rw (q h.header_hash ∙ e, e, change) (q x)
]
change_alike (removes y) m n q x = rw (q x) refl

run-contents :
    (es : List Edit) (f : Fragment) (m : View)
    → IsConsistent f
    → ((x : Hash) → Map.get x f.contents ≡ m x)
    → (x : Hash) → Map.get x (run es f).contents ≡ change_all es m x
unfolding run change_all
run-contents [] f m c q x = q x
run-contents (adds h ∷ es) f m c q x =
    run-contents es (add h f) (change (adds h) m) (add-IsConsistent h f c)
      (λ y. add-contents h f y ∙ change_alike (adds h) (λ z. Map.get z f.contents) m q y) x
run-contents (removes r ∷ es) f m c q x =
    run-contents es (remove r f) (change (removes r) m) (remove-IsConsistent r f c)
      (λ y. remove-contents r f y c ∙ change_alike (removes r) (λ z. Map.get z f.contents) m q y) x

held_of_view :
    (f : Fragment) (m : View) (p : Hash)
    → Map.get p f.contents ≡ m p
    → m p ≢ none
    → Map.has p f.contents ≡ true
held_of_view f m p e n = elim (Option-cases (Map.get p f.contents)) [
  | inl k ↦ absurd (n (sym e ∙ k))
  | inr (h, k) ↦ ground (arith, k)
]

holds_view :
    (target : Hash) (es : List Edit) (x : Hash)
    → Map.get x (run es (new target)).contents ≡ view es x
unfolding new Map.get
holds_view target es =
    run-contents es (new target) (λ x. none) (new-IsConsistent target) (λ x. refl)

-- However headers are added to a new fragment and removed, it holds the headers of the map that
-- the same changes make of the empty one; the terminal hashes are those in the map that no header
-- of the map names as a predecessor, the missing ones those not in the map that some header of it
-- names, and the roots those of the headers of the map that name none.
pub history_refines :
    (target : Hash) (es : List Edit) (p : Hash)
    → (Map.get p (run es (new target)).contents ≡ view es p)
      × ((Set.has p (run es (new target)).terminal_op_headers ≡ true)
          ↔ ((view es p ≢ none) × ((x : Hash) → follows (view es x) p ≡ false)))
      × ((Set.has p (run es (new target)).missing_prev_op_headers ≡ true)
          ↔ ((view es p ≡ none) × ((x : Hash) × (follows (view es x) p ≡ true))))
      × (Set.has p (run es (new target)).roots ≡ is_root (view es p))
history_refines target es p =
    let f = run es (new target) in
    let c = history-IsConsistent target es in
    let q = holds_view target es in
    (
      q p,
      (
        (λ h.
            let (held, bare) = (terminal_iff f c p).0 h in
            (
              (λ n. ground (arith, held, q p ∙ n)),
              λ x. ap (λ o. follows o p) (sym (q x)) ∙ bare x,
            )),
        λ (some_held, bare).
            (terminal_iff f c p).1 (
              held_of_view f (view es) p (q p) some_held,
              λ x. ap (λ o. follows o p) (q x) ∙ bare x,
            ),
      ),
      (
        (λ h.
            let (unheld, (x, named)) = (missing_iff f c p).0 h in
            (sym (q p) ∙ ground (arith, unheld), (x, ap (λ o. follows o p) (sym (q x)) ∙ named))),
        λ (unheld, (x, named)).
            (missing_iff f c p).1
              (ground (arith, q p ∙ unheld), (x, ap (λ o. follows o p) (q x) ∙ named)),
      ),
      c.rooted p ∙ ap is_root (q p),
    )
