-- ===== src/History/Delta/Sound.antt =====
-- What the two fragments of src/data/history/HistoryDelta.ts keep.
use hyperhyperspace_core.Prelude.{
  ℕ, zero, suc, ◌≡◌, refl, ◌∙◌, ap, Hash, false, List, [], ◌∷◌, Option, none, some, ◌&&◌, not, ltb,
  leb, length, string_key, arith, ite, same, Bool-cases, Option-cases, inl, inr,
}
use hyperhyperspace_core.Js.Map
use hyperhyperspace_core.Js.Map.{JsMap}
use hyperhyperspace_core.History.Header.{OpHeader}
use hyperhyperspace_core.History.Fragment.{
  Fragment, new, remove, remove_header, remove_prev, remove_prevs, is_empty,
}
use hyperhyperspace_core.History.Fragment.Invariant.{IsConsistent, new-IsConsistent}
use hyperhyperspace_core.History.Fragment.Add.{add-IsConsistent}
use hyperhyperspace_core.History.Fragment.Remove.{remove-IsConsistent}
use hyperhyperspace_core.History.Queries.Copies.{contents-add}
use hyperhyperspace_core.History.Delta.{
  Delta, new_delta, update_gap, above, move, load_start, fetch, load_targets, recover, backtrack,
  extend, turn, turns, compute,
}

contents-remove_prevs :
    (x : Hash) (ps : List Hash) (f : Fragment) → (remove_prevs x ps f).contents ≡ f.contents
unfolding remove_prevs remove_prev
contents-remove_prevs x [] f = refl
contents-remove_prevs x (p ∷ ps) f = contents-remove_prevs x ps (remove_prev x p f)

pub contents-remove :
    (x y : Hash) (f : Fragment)
    → IsConsistent f
    → Map.get x (remove y f).contents ≡ ite (same y x) none (Map.get x f.contents)
unfolding remove remove_header
contents-remove x y f c = elim (Option-cases (Map.get y f.contents)) [
  | inl e ↦ rw (e, remove) (ground (arith, e, ap (λ z. Map.get z f.contents) {x = y} {y = x}))
  | inr (h, e) ↦
      rw (e, remove)
        (ap (Map.get x)
            (contents-remove_prevs h.header_hash h.prev_op_headers (remove_header y h f))
          ∙ ground (arith, Map.get-delete x h.header_hash f.contents, c.keyed y h e))
]

-- Both fragments are consistent, and no header is in both.
pub record IsSound (d : Delta) : Type 0 where
  pub fragment : IsConsistent d.fragment
  pub start : IsConsistent d.start
  pub apart : (x : Hash) → (Map.has x d.start.contents && Map.has x d.fragment.contents) ≡ false

pub new-IsSound : (target : Hash) → IsSound (new_delta target)
unfolding new_delta new Map.get
new-IsSound target = record {
  fragment = new-IsConsistent target;
  start = new-IsConsistent target;
  apart = λ x. refl;
}

-- What is relied on of the store: a header is found under its own hash.
abbrev pub FindsByHash : (Hash → Option OpHeader) → Type 0
FindsByHash load = (x : Hash) (h : OpHeader) → load x ≡ some h → h.header_hash ≡ x

module _ (load : Hash → Option OpHeader) (found : FindsByHash load) where
  pub move-IsSound : (h : OpHeader) (d : Delta) → IsSound d → IsSound (move load h d)
  unfolding move
  move-IsSound h d s = record {
    fragment = remove-IsConsistent h.header_hash d.fragment s.fragment;
    start = add-IsConsistent h d.start s.start;
    apart = λ x. ground (
      arith,
      contents-add x h d.start,
      contents-remove x h.header_hash d.fragment s.fragment,
      s.apart x,
    );
  }

  pub load_start-IsSound : (xs : List Hash) (d : Delta) → IsSound d → IsSound (load_start load xs d)
  unfolding load_start
  load_start-IsSound [] d s = s
  load_start-IsSound (x ∷ xs) d s = elim (Option-cases (load x)) [
    | inl e ↦ rw (e, load_start) (load_start-IsSound xs d s)
    | inr (h, e) ↦ rw (e, load_start) (load_start-IsSound xs (move load h d) (move-IsSound h d s))
  ]

  pub fetch-IsSound : (x : Hash) (d : Delta) → IsSound d → IsSound (fetch load x d)
  unfolding fetch
  fetch-IsSound x d s = elim (Bool-cases (not (Map.has x d.start.contents))) [
    | inr n ↦ rw (n, fetch) s
    | inl n ↦ elim (Option-cases (load x)) [
      | inl e ↦ rw (n, e, fetch) s
      | inr (h, e) ↦
          rw (n, e, fetch)
            (record {
              fragment = add-IsConsistent h d.fragment s.fragment;
              start = s.start;
              apart = λ y. ground (
                arith,
                contents-add y h d.fragment,
                s.apart y,
                found x h e,
                n,
                ap (λ z. Map.has z d.start.contents) {x = x} {y = y},
              );
            })
    ]
  ]

  pub load_targets-IsSound :
      (xs : List Hash) (d : Delta) → IsSound d → IsSound (load_targets load xs d)
  unfolding load_targets
  load_targets-IsSound [] d s = s
  load_targets-IsSound (x ∷ xs) d s = load_targets-IsSound xs (fetch load x d) (fetch-IsSound x d s)

  pub recover-IsSound :
      (h : Option ℕ) (x : Hash) (d : Delta) → IsSound d → IsSound (recover load h x d)
  unfolding recover
  recover-IsSound h x d s = elim (Option-cases (load x)) [
    | inl e ↦ rw (e, recover) s
    | inr (op, e) ↦ elim (Bool-cases (above op.height h)) [
      | inr a ↦ rw (e, a, recover) s
      | inl a ↦
          rw (e, a, recover)
            (record {
              fragment = remove-IsConsistent x d.fragment s.fragment;
              start = add-IsConsistent op d.start s.start;
              apart = λ y. ground (
                arith,
                contents-add y op d.start,
                contents-remove y x d.fragment s.fragment,
                s.apart y,
                found x op e,
              );
            })
    ]
  ]

  pub backtrack-IsSound :
      (limit : ℕ) (h : Option ℕ) (xs : List Hash) (d : Delta)
      → IsSound d
      → IsSound (backtrack load limit h xs d)
  unfolding backtrack
  backtrack-IsSound limit h [] d s = s
  backtrack-IsSound limit h (x ∷ xs) d s = elim (Bool-cases (leb limit (length d.start.contents))) [
    | inl e ↦ rw e s
    | inr e ↦ rw e (backtrack-IsSound limit h xs (recover load h x d) (recover-IsSound h x d s))
  ]

  pub extend-IsSound :
      (limit : ℕ) (xs : List Hash) (d : Delta) → IsSound d → IsSound (extend load limit xs d)
  unfolding extend
  extend-IsSound limit [] d s = s
  extend-IsSound limit (x ∷ xs) d s = elim (Bool-cases (leb limit (length d.fragment.contents))) [
    | inl e ↦ rw e s
    | inr e ↦ rw e (extend-IsSound limit xs (fetch load x d) (fetch-IsSound x d s))
  ]

  pub update_gap-IsSound : (d : Delta) → IsSound d → IsSound (update_gap d)
  unfolding update_gap
  update_gap-IsSound d s = record { fragment = s.fragment; start = s.start; apart = s.apart }

  module _ (max_delta_size max_backtrack_size : ℕ) where
    pub turn-IsSound :
        (d : Delta) → IsSound d → IsSound (turn load max_delta_size max_backtrack_size d)
    unfolding turn
    turn-IsSound d s =
        update_gap-IsSound _
          (extend-IsSound max_delta_size _ _ (backtrack-IsSound max_backtrack_size _ _ d s))

    turns-IsSound :
        (n : ℕ) (d : Delta) → IsSound d → IsSound (turns load max_delta_size max_backtrack_size n d)
    unfolding turns
    turns-IsSound zero d s = s
    turns-IsSound (suc n) d s =
        elim (Bool-cases
          (not (is_empty d.gap) && ltb (length d.fragment.contents) max_delta_size)) [
            | inl e ↦
                rw e (
                  turns-IsSound n (turn load max_delta_size max_backtrack_size d)
                    (turn-IsSound d s))
            | inr e ↦ rw e s
          ]

    -- If the store finds headers under their own hashes, then after any number of turns of
    -- compute on a new delta, whatever the targets, the starting hashes and the limits, the start
    -- and the fragment are consistent and no header is in both.
    pub compute-IsSound :
        (target : Hash) (n : ℕ) (targets starting : List Hash)
        → IsSound
            (compute load max_delta_size max_backtrack_size n targets starting (new_delta target))
    unfolding compute
    compute-IsSound target n targets starting = turns-IsSound n _ (
        update_gap-IsSound _ (
          load_targets-IsSound targets _
            (load_start-IsSound starting (new_delta target) (new-IsSound target))))
