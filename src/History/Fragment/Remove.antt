-- ===== src/History/Fragment/Remove.antt =====
-- `remove` of src/data/history/HistoryFragment.ts and the consistency of the fragment.
use hyperhyperspace_core.Prelude.{
  Hash, true, false, List, [], ◌∷◌, none, some, not, ◌&&◌, ◌||◌, ◌≡◌, ite, same, arith, refl,
  string_key, Option-cases, inl, inr, if◌then◌else◌, subst, sym,
}
use hyperhyperspace_core.Js.Map
use hyperhyperspace_core.Js.Map.{JsMap}
use hyperhyperspace_core.Js.Set
use hyperhyperspace_core.Js.Set.{JsSet}
use hyperhyperspace_core.Util.MultiMap
use hyperhyperspace_core.Util.MultiMap.Laws
use hyperhyperspace_core.History.Header.{OpHeader}
use hyperhyperspace_core.History.Fragment.{
  Fragment, is_empty, remove_prev, remove_prevs, remove_header, remove,
}
use hyperhyperspace_core.History.Fragment.Invariant.{
  IsConsistent, follows, is_root, is_header_of, bare,
}

module _ (hash : Hash) where
  -- What follows `q`, and does not go by the hash.
  abbrev others : Fragment → Hash → JsSet Hash
  others f q = Set.delete hash (MultiMap.get q f.next_op_headers)

  pub remove_prevs-contents :
      (ps : List Hash) (f : Fragment) → (remove_prevs hash ps f).contents ≡ f.contents
  unfolding remove_prevs
  remove_prevs-contents [] f = refl
  remove_prevs-contents (p ∷ ps) f = remove_prevs-contents ps (remove_prev hash p f)

  remove_prevs-roots : (ps : List Hash) (f : Fragment) → (remove_prevs hash ps f).roots ≡ f.roots
  unfolding remove_prevs
  remove_prevs-roots [] f = refl
  remove_prevs-roots (p ∷ ps) f = remove_prevs-roots ps (remove_prev hash p f)

  remove_prevs-for_op :
      (ps : List Hash) (f : Fragment)
      → (remove_prevs hash ps f).op_headers_for_op ≡ f.op_headers_for_op
  unfolding remove_prevs
  remove_prevs-for_op [] f = refl
  remove_prevs-for_op (p ∷ ps) f = remove_prevs-for_op ps (remove_prev hash p f)

  get-remove_prev :
      (p : Hash) (f : Fragment) (q : Hash)
      → MultiMap.get q (remove_prev hash p f).next_op_headers
        ≡ ite (same p q) (others f q) (MultiMap.get q f.next_op_headers)
  unfolding remove_prev
  get-remove_prev p f q = ground (arith, Laws.get-delete q p hash f.next_op_headers)

  others-remove_prev :
      (p : Hash) (f : Fragment) (q : Hash) → others (remove_prev hash p f) q ≡ others f q
  others-remove_prev p f q =
      ground
        (arith, get-remove_prev p f q, Set.delete-delete hash (MultiMap.get q f.next_op_headers))

  remove_prevs-get :
      (ps : List Hash) (f : Fragment) (q : Hash)
      → MultiMap.get q (remove_prevs hash ps f).next_op_headers
        ≡ (if Set.has q ps then others f q else MultiMap.get q f.next_op_headers)
  unfolding remove_prevs Set.has
  remove_prevs-get [] f q = refl
  remove_prevs-get (p ∷ ps) f q = ground (
    arith,
    remove_prevs-get ps (remove_prev hash p f) q,
    get-remove_prev p f q,
    others-remove_prev p f q,
  )

  contents-remove_prev : (p : Hash) (f : Fragment) → (remove_prev hash p f).contents ≡ f.contents
  unfolding remove_prev
  contents-remove_prev p f = refl

  terminal-remove_prev :
      (p : Hash) (f : Fragment) (x : Hash)
      → Set.has x (remove_prev hash p f).terminal_op_headers
        ≡ ite
            (same p x)
            (Set.has x f.terminal_op_headers || (is_empty (others f x) && Map.has x f.contents))
            (Set.has x f.terminal_op_headers)
  unfolding remove_prev
  terminal-remove_prev p f x =
      ground
        (arith, Laws.get-delete p p hash f.next_op_headers, Set.has-add x p f.terminal_op_headers)

  missing-remove_prev :
      (p : Hash) (f : Fragment) (x : Hash)
      → Set.has x (remove_prev hash p f).missing_prev_op_headers
        ≡ ite
            (same p x)
            (Set.has x f.missing_prev_op_headers
              && not (is_empty (others f x) && not (Map.has x f.contents)))
            (Set.has x f.missing_prev_op_headers)
  unfolding remove_prev
  missing-remove_prev p f x = ground (
    arith,
    Laws.get-delete p p hash f.next_op_headers,
    Set.has-delete x p f.missing_prev_op_headers,
  )

  remove_prevs-terminal :
      (ps : List Hash) (f : Fragment) (x : Hash)
      → Set.has x (remove_prevs hash ps f).terminal_op_headers ≡ (
          Set.has x f.terminal_op_headers
          || (Set.has x ps && (is_empty (others f x) && Map.has x f.contents)))
  unfolding remove_prevs Set.has
  remove_prevs-terminal [] f x = ground arith
  remove_prevs-terminal (p ∷ ps) f x = ground (
    arith,
    remove_prevs-terminal ps (remove_prev hash p f) x,
    terminal-remove_prev p f x,
    others-remove_prev p f x,
    contents-remove_prev p f,
  )

  remove_prevs-missing :
      (ps : List Hash) (f : Fragment) (x : Hash)
      → Set.has x (remove_prevs hash ps f).missing_prev_op_headers ≡ (
          Set.has x f.missing_prev_op_headers
          && not (Set.has x ps && (is_empty (others f x) && not (Map.has x f.contents))))
  unfolding remove_prevs Set.has
  remove_prevs-missing [] f x = ground arith
  remove_prevs-missing (p ∷ ps) f x = ground (
    arith,
    remove_prevs-missing ps (remove_prev hash p f) x,
    missing-remove_prev p f x,
    others-remove_prev p f x,
    contents-remove_prev p f,
  )

-- The fields of the result, for a hash that is there.
module _ (hash : Hash) (h : OpHeader) (f : Fragment) (c : IsConsistent f)
    (found : Map.get hash f.contents ≡ some h) where
  removed : Fragment
  removed = remove_prevs hash h.prev_op_headers (remove_header hash h f)

  removed-contents :
      (x : Hash) → Map.get x removed.contents ≡ ite (same hash x) none (Map.get x f.contents)
  removed-contents x =
      unfold removed remove_header in
      ground (
        arith,
        c.keyed hash h found,
        remove_prevs-contents hash h.prev_op_headers (remove_header hash h f),
        Map.get-delete x hash f.contents,
      )

  removed-get :
      (p : Hash)
      → MultiMap.get p removed.next_op_headers ≡ (
          if Set.has p h.prev_op_headers then others hash f p else MultiMap.get p f.next_op_headers)
  removed-get p =
      unfold removed remove_header in
      remove_prevs-get hash h.prev_op_headers (remove_header hash h f) p

  removed-next :
      (p x : Hash)
      → MultiMap.has p x removed.next_op_headers ≡ follows (Map.get x removed.contents) p
  removed-next p x = ground (
    arith,
    found,
    removed-contents x,
    removed-get p,
    c.next p x,
    c.next p hash,
    Laws.has-get p x removed.next_op_headers,
    Laws.has-get p x f.next_op_headers,
    Set.has-delete x hash (MultiMap.get p f.next_op_headers),
  )

  -- Where nothing follows, nothing else follows.
  bare-others : (x : Hash) → bare f x ≡ true → is_empty (others hash f x) ≡ true
  bare-others x e =
      ground (
        arith,
        Set.eq-nil_of_size (MultiMap.get x f.next_op_headers),
        Set.delete-nil {K = Hash} hash,
      )

  terminal-remove_header :
      (x : Hash)
      → Set.has x (remove_header hash h f).terminal_op_headers
        ≡ ite (same hash x) false (Set.has x f.terminal_op_headers)
  unfolding remove_header
  terminal-remove_header x =
      ground (arith, c.keyed hash h found, Set.has-delete x hash f.terminal_op_headers)

  missing-remove_header :
      (x : Hash)
      → Set.has x (remove_header hash h f).missing_prev_op_headers
        ≡ ite (same hash x) (not (bare f x)) (Set.has x f.missing_prev_op_headers)
  unfolding remove_header
  missing-remove_header x =
      ground
        (arith, found, c.missing hash, c.missing x, Set.has-add x hash f.missing_prev_op_headers)

  contents-remove_header :
      (x : Hash)
      → Map.get x (remove_header hash h f).contents ≡ ite (same hash x) none (Map.get x f.contents)
  contents-remove_header x =
      unfold remove_header in ground (arith, c.keyed hash h found, Map.get-delete x hash f.contents)

  others-remove_header : (x : Hash) → others hash (remove_header hash h f) x ≡ others hash f x
  others-remove_header x = unfold remove_header in refl

  removed-terminal :
      (x : Hash)
      → Set.has x removed.terminal_op_headers ≡ (Map.has x removed.contents && bare removed x)
  removed-terminal x =
      unfold removed in
      ground (
        arith,
        removed-contents x,
        removed-get x,
        c.terminal x,
        bare-others x,
        terminal-remove_header x,
        contents-remove_header x,
        others-remove_header x,
        remove_prevs-terminal hash h.prev_op_headers (remove_header hash h f) x,
      )

  removed-missing :
      (x : Hash)
      → Set.has x removed.missing_prev_op_headers
        ≡ (not (Map.has x removed.contents) && not (bare removed x))
  removed-missing x =
      unfold removed in
      ground (
        arith,
        found,
        removed-contents x,
        removed-get x,
        c.missing x,
        bare-others x,
        missing-remove_header x,
        contents-remove_header x,
        others-remove_header x,
        remove_prevs-missing hash h.prev_op_headers (remove_header hash h f) x,
      )

  removed-rooted : (x : Hash) → Set.has x removed.roots ≡ is_root (Map.get x removed.contents)
  removed-rooted x =
      unfold removed remove_header in
      ground (
        arith,
        found,
        c.keyed hash h found,
        removed-contents x,
        c.rooted x,
        Set.has-delete x hash f.roots,
        remove_prevs-roots hash h.prev_op_headers (remove_header hash h f),
      )

  removed-for_op :
      (o x : Hash)
      → MultiMap.has o x removed.op_headers_for_op ≡ is_header_of (Map.get x removed.contents) o
  removed-for_op o x =
      unfold removed remove_header in
      ground (
        arith,
        found,
        c.keyed hash h found,
        removed-contents x,
        c.for_op o x,
        Laws.has-delete o h.op_hash x hash f.op_headers_for_op,
        remove_prevs-for_op hash h.prev_op_headers (remove_header hash h f),
      )

  removed-keyed :
      (x : Hash) (g : OpHeader) → Map.get x removed.contents ≡ some g → g.header_hash ≡ x
  removed-keyed x g e = ground (arith, removed-contents x, c.keyed x g)

  removed-IsConsistent : IsConsistent removed
  removed-IsConsistent = record {
    keyed = removed-keyed;
    next = removed-next;
    terminal = removed-terminal;
    missing = removed-missing;
    rooted = removed-rooted;
    for_op = removed-for_op;
  }

-- Removing a hash keeps the terminal and missing hashes, the roots and both indices in step with
-- the contents, also where headers that follow it stay in the fragment.
pub remove-IsConsistent :
    (hash : Hash) (f : Fragment) → IsConsistent f → IsConsistent (remove hash f)
unfolding remove removed
remove-IsConsistent hash f c = elim (Option-cases (Map.get hash f.contents)) [
  | inl e ↦ rw (e, remove) c
  | inr (h, e) ↦
      rw (e, remove)
        (subst (λ x. IsConsistent (remove_prevs x h.prev_op_headers (remove_header hash h f)))
          (sym (c.keyed hash h e)) (removed-IsConsistent hash h f c e))
]
