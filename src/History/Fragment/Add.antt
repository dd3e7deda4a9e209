-- ===== src/History/Fragment/Add.antt =====
-- `add` of src/data/history/HistoryFragment.ts and the consistency of the fragment.
use hyperhyperspace_core.Prelude.{
  Hash, true, false, List, [], ◌∷◌, none, some, not, ◌&&◌, ◌||◌, ◌≡◌, ite, same, arith, refl,
  string_key, Option-cases, inl, inr,
}
use hyperhyperspace_core.Js.Map
use hyperhyperspace_core.Js.Map.{JsMap}
use hyperhyperspace_core.Js.Set
use hyperhyperspace_core.Util.MultiMap
use hyperhyperspace_core.Util.MultiMap.Laws
use hyperhyperspace_core.History.Header.{OpHeader}
use hyperhyperspace_core.History.Fragment.{Fragment, add_prev, add_prevs, add_header, add}
use hyperhyperspace_core.History.Fragment.Invariant.{
  IsConsistent, follows, is_root, is_header_of, bare,
}

-- What the loop leaves alone.
module _ (hash : Hash) where
  pub add_prevs-contents :
      (ps : List Hash) (f : Fragment) → (add_prevs hash ps f).contents ≡ f.contents
  unfolding add_prevs
  add_prevs-contents [] f = refl
  add_prevs-contents (p ∷ ps) f = add_prevs-contents ps (add_prev hash p f)

  add_prevs-roots : (ps : List Hash) (f : Fragment) → (add_prevs hash ps f).roots ≡ f.roots
  unfolding add_prevs
  add_prevs-roots [] f = refl
  add_prevs-roots (p ∷ ps) f = add_prevs-roots ps (add_prev hash p f)

  add_prevs-for_op :
      (ps : List Hash) (f : Fragment)
      → (add_prevs hash ps f).op_headers_for_op ≡ f.op_headers_for_op
  unfolding add_prevs
  add_prevs-for_op [] f = refl
  add_prevs-for_op (p ∷ ps) f = add_prevs-for_op ps (add_prev hash p f)

  -- What the loop does to the sets, at each hash.
  add_prevs-next :
      (ps : List Hash) (f : Fragment) (q x : Hash)
      → MultiMap.has q x (add_prevs hash ps f).next_op_headers
        ≡ (MultiMap.has q x f.next_op_headers || (Set.has q ps && ite (same hash x) true false))
  unfolding add_prevs Set.has
  add_prevs-next [] f q x = ground arith
  add_prevs-next (p ∷ ps) f q x =
      ground (
        arith,
        add_prevs-next ps (add_prev hash p f) q x,
        Laws.has-add q p x hash f.next_op_headers,
      )

  bare-add_prev :
      (p : Hash) (f : Fragment) (q : Hash)
      → bare (add_prev hash p f) q ≡ ite (same p q) false (bare f q)
  unfolding add_prev
  bare-add_prev p f q = ground (
    arith,
    Laws.get-add q p hash f.next_op_headers,
    Set.size-add_ne hash (MultiMap.get p f.next_op_headers),
  )

  add_prevs-bare :
      (ps : List Hash) (f : Fragment) (q : Hash)
      → bare (add_prevs hash ps f) q ≡ (bare f q && not (Set.has q ps))
  unfolding add_prevs Set.has
  add_prevs-bare [] f q = ground arith
  add_prevs-bare (p ∷ ps) f q =
      ground (arith, add_prevs-bare ps (add_prev hash p f) q, bare-add_prev p f q)

  terminal-add_prev :
      (p : Hash) (f : Fragment) (x : Hash)
      → Set.has x (add_prev hash p f).terminal_op_headers
        ≡ ite
            (same p x)
            (Set.has x f.terminal_op_headers && not (Map.has x f.contents))
            (Set.has x f.terminal_op_headers)
  unfolding add_prev
  terminal-add_prev p f x = ground (arith, Set.has-delete x p f.terminal_op_headers)

  missing-add_prev :
      (p : Hash) (f : Fragment) (x : Hash)
      → Set.has x (add_prev hash p f).missing_prev_op_headers
        ≡ ite
            (same p x)
            (Set.has x f.missing_prev_op_headers || not (Map.has x f.contents))
            (Set.has x f.missing_prev_op_headers)
  unfolding add_prev
  missing-add_prev p f x = ground (arith, Set.has-add x p f.missing_prev_op_headers)

  add_prevs-terminal :
      (ps : List Hash) (f : Fragment) (x : Hash)
      → Set.has x (add_prevs hash ps f).terminal_op_headers
        ≡ (Set.has x f.terminal_op_headers && not (Set.has x ps && Map.has x f.contents))
  unfolding add_prevs Set.has
  add_prevs-terminal [] f x = ground arith
  add_prevs-terminal (p ∷ ps) f x =
      ground (arith, add_prevs-terminal ps (add_prev hash p f) x, terminal-add_prev p f x)

  add_prevs-missing :
      (ps : List Hash) (f : Fragment) (x : Hash)
      → Set.has x (add_prevs hash ps f).missing_prev_op_headers
        ≡ (Set.has x f.missing_prev_op_headers || (Set.has x ps && not (Map.has x f.contents)))
  unfolding add_prevs Set.has
  add_prevs-missing [] f x = ground arith
  add_prevs-missing (p ∷ ps) f x =
      ground (arith, add_prevs-missing ps (add_prev hash p f) x, missing-add_prev p f x)

-- The fields of the result, for a header that is new.
module _ (h : OpHeader) (f : Fragment) (c : IsConsistent f)
    (fresh : Map.get h.header_hash f.contents ≡ none) where
  added : Fragment
  added = add_prevs h.header_hash h.prev_op_headers (add_header h f)

  added-contents :
      (x : Hash)
      → Map.get x added.contents ≡ ite (same h.header_hash x) (some h) (Map.get x f.contents)
  unfolding added add_header
  added-contents x = ground (
    arith,
    add_prevs-contents h.header_hash h.prev_op_headers (add_header h f),
    Map.get-set x h.header_hash h f.contents,
  )

  added-next :
      (p x : Hash) → MultiMap.has p x added.next_op_headers ≡ follows (Map.get x added.contents) p
  unfolding added add_header
  added-next p x = ground (
    arith,
    fresh,
    added-contents x,
    c.next p x,
    add_prevs-next h.header_hash h.prev_op_headers (add_header h f) p x,
  )

  bare-add_header : (x : Hash) → bare (add_header h f) x ≡ bare f x
  unfolding add_header
  bare-add_header x = refl

  added-bare : (x : Hash) → bare added x ≡ (bare f x && not (Set.has x h.prev_op_headers))
  unfolding added
  added-bare x =
      ground (
        arith,
        add_prevs-bare h.header_hash h.prev_op_headers (add_header h f) x,
        bare-add_header x,
      )

  terminal-add_header :
      (x : Hash)
      → Set.has x (add_header h f).terminal_op_headers
        ≡ ite (same h.header_hash x) (bare f x) (Set.has x f.terminal_op_headers)
  unfolding add_header
  terminal-add_header x = ground (
    arith,
    fresh,
    c.terminal x,
    c.missing h.header_hash,
    c.terminal h.header_hash,
    Set.has-add x h.header_hash f.terminal_op_headers,
  )

  missing-add_header :
      (x : Hash)
      → Set.has x (add_header h f).missing_prev_op_headers
        ≡ ite (same h.header_hash x) false (Set.has x f.missing_prev_op_headers)
  unfolding add_header
  missing-add_header x = ground (
    arith,
    fresh,
    c.missing h.header_hash,
    Set.has-delete x h.header_hash f.missing_prev_op_headers,
  )

  contents-add_header :
      (x : Hash)
      → Map.get x (add_header h f).contents
        ≡ ite (same h.header_hash x) (some h) (Map.get x f.contents)
  unfolding add_header
  contents-add_header x = Map.get-set x h.header_hash h f.contents

  added-terminal :
      (x : Hash) → Set.has x added.terminal_op_headers ≡ (Map.has x added.contents && bare added x)
  added-terminal x =
      unfold added in
      ground (
        arith,
        added-contents x,
        added-bare x,
        c.terminal x,
        terminal-add_header x,
        contents-add_header x,
        add_prevs-terminal h.header_hash h.prev_op_headers (add_header h f) x,
      )

  added-missing :
      (x : Hash)
      → Set.has x added.missing_prev_op_headers
        ≡ (not (Map.has x added.contents) && not (bare added x))
  added-missing x =
      unfold added in
      ground (
        arith,
        added-contents x,
        added-bare x,
        c.missing x,
        missing-add_header x,
        contents-add_header x,
        add_prevs-missing h.header_hash h.prev_op_headers (add_header h f) x,
      )

  added-rooted : (x : Hash) → Set.has x added.roots ≡ is_root (Map.get x added.contents)
  added-rooted x =
      unfold added add_header in
      ground (
        arith,
        fresh,
        added-contents x,
        c.rooted x,
        Set.has-add x h.header_hash f.roots,
        add_prevs-roots h.header_hash h.prev_op_headers (add_header h f),
      )

  added-for_op :
      (o x : Hash)
      → MultiMap.has o x added.op_headers_for_op ≡ is_header_of (Map.get x added.contents) o
  added-for_op o x =
      unfold added add_header in
      ground (
        arith,
        fresh,
        added-contents x,
        c.for_op o x,
        Laws.has-add o h.op_hash x h.header_hash f.op_headers_for_op,
        add_prevs-for_op h.header_hash h.prev_op_headers (add_header h f),
      )

  added-keyed : (x : Hash) (g : OpHeader) → Map.get x added.contents ≡ some g → g.header_hash ≡ x
  added-keyed x g e = ground (arith, added-contents x, c.keyed x g)

  added-IsConsistent : IsConsistent added
  added-IsConsistent = record {
    keyed = added-keyed;
    next = added-next;
    terminal = added-terminal;
    missing = added-missing;
    rooted = added-rooted;
    for_op = added-for_op;
  }

-- Adding a header keeps the terminal and missing hashes, the roots and both indices in step with
-- the contents, whether or not the header is new and whichever of its predecessors are held.
pub add-IsConsistent : (h : OpHeader) (f : Fragment) → IsConsistent f → IsConsistent (add h f)
unfolding add added
add-IsConsistent h f c = elim (Option-cases (Map.get h.header_hash f.contents)) [
  | inl e ↦ rw e (added-IsConsistent h f c e)
  | inr (g, e) ↦ rw e c
]
