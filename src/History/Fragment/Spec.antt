-- ===== src/History/Fragment/Spec.antt =====
-- What the sets of a consistent fragment mean, by its contents alone, and any run of changes.
use hyperhyperspace_core.Prelude.{
  Hash, true, false, List, [], ◌∷◌, ◌≡◌, ◌↔◌, arith, refl, string_key, ◌∙◌, sym, Bool-cases, inl,
  inr,
}
use hyperhyperspace_core.Js.Map
use hyperhyperspace_core.Js.Map.{JsMap}
use hyperhyperspace_core.Js.Set
use hyperhyperspace_core.Js.Set.{JsSet}
use hyperhyperspace_core.Util.MultiMap
use hyperhyperspace_core.Util.MultiMap.Laws
use hyperhyperspace_core.History.Header.{OpHeader}
use hyperhyperspace_core.History.Fragment.{Fragment, is_empty, new, add, remove}
use hyperhyperspace_core.History.Fragment.Invariant.{IsConsistent, follows, bare, new-IsConsistent}
use hyperhyperspace_core.History.Fragment.Add.{add-IsConsistent}
use hyperhyperspace_core.History.Fragment.Remove.{remove-IsConsistent}

-- A set is empty exactly when it has no member.
some_member : (s : JsSet Hash) → is_empty s ≡ false → (x : Hash) × (Set.has x s ≡ true)
some_member [] h = cc
some_member (x ∷ s) h = (x, Set.has-head x s)

no_member : (s : JsSet Hash) (x : Hash) → is_empty s ≡ true → Set.has x s ≡ false
no_member s x h = Set.has_of_empty x s (ground arith)

empty_of_none : (s : JsSet Hash) → ((x : Hash) → Set.has x s ≡ false) → is_empty s ≡ true
empty_of_none [] h = refl
empty_of_none (x ∷ s) h = cc (Set.has-head x s, h x)

module _ (f : Fragment) (c : IsConsistent f) where
  next-follows :
      (p x : Hash) → Set.has x (MultiMap.get p f.next_op_headers) ≡ follows (Map.get x f.contents) p
  next-follows p x = sym (Laws.has-get p x f.next_op_headers) ∙ c.next p x

  bare_iff :
      (p : Hash) → (bare f p ≡ true) ↔ ((x : Hash) → follows (Map.get x f.contents) p ≡ false)
  bare_iff p = (
    (λ e x. sym (next-follows p x) ∙ no_member (MultiMap.get p f.next_op_headers) x e),
    λ h. empty_of_none (MultiMap.get p f.next_op_headers) (λ x. next-follows p x ∙ h x),
  )

  follower : (p : Hash) → bare f p ≡ false → (x : Hash) × (follows (Map.get x f.contents) p ≡ true)
  follower p e =
      let (x, h) = some_member (MultiMap.get p f.next_op_headers) e in
      (x, sym (next-follows p x) ∙ h)

  followed : (p x : Hash) → follows (Map.get x f.contents) p ≡ true → bare f p ≡ false
  followed p x h = elim (Bool-cases (bare f p)) [ inl e ↦ cc ((bare_iff p).0 e x) | inr e ↦ e ]

  -- In a consistent fragment the terminal hashes are exactly those of the headers that it holds
  -- and that no header that it holds names as a predecessor.
  pub terminal_iff :
      (p : Hash)
      → (Set.has p f.terminal_op_headers ≡ true)
        ↔ ((Map.has p f.contents ≡ true) × ((x : Hash) → follows (Map.get x f.contents) p ≡ false))
  terminal_iff p = (
    (λ h. (ground (arith, c.terminal p), (bare_iff p).0 (ground (arith, c.terminal p)))),
    λ h. ground (arith, c.terminal p, (bare_iff p).1 h.1),
  )

  -- In a consistent fragment the missing hashes are exactly those that it does not hold and that
  -- a header that it holds names as a predecessor.
  pub missing_iff :
      (p : Hash)
      → (Set.has p f.missing_prev_op_headers ≡ true) ↔ (
          (Map.has p f.contents ≡ false) × ((x : Hash) × (follows (Map.get x f.contents) p ≡ true)))
  missing_iff p = (
    (λ h. (ground (arith, c.missing p), follower p (ground (arith, c.missing p)))),
    λ h. ground (arith, c.missing p, followed p h.1.0 h.1.1),
  )

-- The calls that change a fragment.
pub data Edit : Type 0 where
  adds : OpHeader → Edit
  removes : Hash → Edit

unfoldable pub run : List Edit → Fragment → Fragment
run [] f = f
run (adds h ∷ es) f = run es (add h f)
run (removes x ∷ es) f = run es (remove x f)

pub run-IsConsistent : (es : List Edit) (f : Fragment) → IsConsistent f → IsConsistent (run es f)
unfolding run
run-IsConsistent [] f c = c
run-IsConsistent (adds h ∷ es) f c = run-IsConsistent es (add h f) (add-IsConsistent h f c)
run-IsConsistent (removes x ∷ es) f c = run-IsConsistent es (remove x f) (remove-IsConsistent x f c)

-- However headers are added to a new fragment and removed, its terminal and missing hashes, its
-- roots and its two indices agree with the headers that it holds in the end.
pub history-IsConsistent : (target : Hash) (es : List Edit) → IsConsistent (run es (new target))
history-IsConsistent target es = run-IsConsistent es (new target) (new-IsConsistent target)

module _ (f g : Fragment) (c : IsConsistent f) (d : IsConsistent g)
    (same_contents : (x : Hash) → Map.get x f.contents ≡ Map.get x g.contents) where
  bare_agree : (p : Hash) → bare f p ≡ bare g p
  bare_agree p = elim (Bool-cases (bare f p)) [
    | inl e ↦
        e ∙ sym ((bare_iff g d p).1 (λ x. ground (arith, same_contents x, (bare_iff f c p).0 e x)))
    | inr e ↦
        let (x, h) = follower f c p e in
        e ∙ sym (followed g d p x (ground (arith, same_contents x)))
  ]

  -- Two consistent fragments that hold the same headers have the same terminal hashes, missing
  -- hashes and roots, whichever way they came to hold them.
  pub fragments_agree :
      (p : Hash)
      → (Set.has p f.terminal_op_headers ≡ Set.has p g.terminal_op_headers)
        × (Set.has p f.missing_prev_op_headers ≡ Set.has p g.missing_prev_op_headers)
        × (Set.has p f.roots ≡ Set.has p g.roots)
  fragments_agree p = (
    ground (arith, same_contents p, bare_agree p, c.terminal p, d.terminal p),
    ground (arith, same_contents p, bare_agree p, c.missing p, d.missing p),
    ground (arith, same_contents p, c.rooted p, d.rooted p),
  )
