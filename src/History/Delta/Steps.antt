-- ===== src/History/Delta/Steps.antt =====
-- What the parts of a turn of src/data/history/HistoryDelta.ts keep, and come to know, where the store
-- is complete.
use hyperhyperspace_core.Prelude.{
  ℕ, ◌≡◌, refl, ap, Hash, Bool, true, false, List, [], ◌∷◌, Option, ◌&&◌, ◌||◌, not, leb, length,
  string_key, arith, same, Bool-cases, Option-cases, inl, inr, if◌then◌else◌, subst, ◌⊎◌,
}
use hyperhyperspace_core.Js.Map
use hyperhyperspace_core.Js.Set
use hyperhyperspace_core.History.Header.{OpHeader}
use hyperhyperspace_core.History.Fragment.{Fragment, add, remove, is_empty}
use hyperhyperspace_core.History.Fragment.Invariant.{IsConsistent}
use hyperhyperspace_core.History.Queries.Copies.{contents-add}
use hyperhyperspace_core.History.Loading.Complete.{IsComplete, IsWithin}
use hyperhyperspace_core.History.Delta.{
  Delta, update_gap, gap_of, above, fetch, recover, backtrack, extend,
}
use hyperhyperspace_core.History.Delta.Sound.{
  IsSound, FindsByHash, contents-remove, fetch-IsSound, recover-IsSound,
}

-- The hash is held by the start or by the fragment.
abbrev pub known : Delta → Hash → Bool
known d x = Map.has x d.start.contents || Map.has x d.fragment.contents

abbrev pub Grows : Delta → Delta → Type 0
Grows d e = (x : Hash) → known d x ≡ true → known e x ≡ true

pub has-gap_of :
    (x : Hash) (xs : List Hash) (f : Fragment) (gap : List Hash)
    → Set.has x (gap_of xs f gap) ≡ (Set.has x gap || (Set.has x xs && not (Map.has x f.contents)))
unfolding gap_of Set.has
has-gap_of x [] f gap = ground arith
has-gap_of x (y ∷ ys) f gap = ground (
  arith,
  has-gap_of x ys f (if not (Map.has y f.contents) then Set.add y gap else gap),
  Set.has-add x y gap,
  ap (λ z. Map.has z f.contents) {x = y} {y = x},
)

-- A hash of the list is not in the start, or all are.
pub missing_or_all :
    (xs : List Hash) (f : Fragment)
    → ((y : Hash) × (Set.has y xs ≡ true) × (Map.has y f.contents ≡ false))
      ⊎ ((y : Hash) → Set.has y xs ≡ true → Map.has y f.contents ≡ true)
unfolding Set.has
missing_or_all [] f = inr (λ y m. cc)
missing_or_all (x ∷ xs) f = elim (Bool-cases (Map.has x f.contents)) [
  | inr n ↦ inl (x, Set.has-head x xs, n)
  | inl h ↦ elim (missing_or_all xs f) [
    | inl (y, m, n) ↦ inl (y, ground (arith, m), n)
    | inr k ↦ inr (λ y m. ground (arith, k y, m, h, ap (λ z. Map.has z f.contents) {x = x} {y = y}))
  ]
]

module _ (load : Hash → Option OpHeader) (found : FindsByHash load) (all : List Hash)
    (complete : IsComplete load all) where
  pub record Fit (d : Delta) : Type 0 where
    pub sound : IsSound d
    pub within : IsWithin all d.fragment

  pub remove-IsWithin :
      (x : Hash) (f : Fragment) → IsConsistent f → IsWithin all f → IsWithin all (remove x f)
  remove-IsWithin x f c w y p e = ground (arith, contents-remove y x f c, w y p)

  pub add-IsWithin :
      (h : OpHeader) (f : Fragment)
      → ((p : Hash) → Set.has p h.prev_op_headers ≡ true → Set.has p all ≡ true)
      → IsWithin all f
      → IsWithin all (add h f)
  add-IsWithin h f a w x p e = ground (arith, contents-add x h f, w x p, a p)

  pub recover-Grows :
      (h : Option ℕ) (x : Hash) (d : Delta) → IsSound d → Grows d (recover load h x d)
  unfolding recover
  recover-Grows h x d s y k = elim (Option-cases (load x)) [
    | inl e ↦ rw (e, recover) k
    | inr (op, e) ↦ elim (Bool-cases (above op.height h)) [
      | inr a ↦ rw (e, a, recover) k
      | inl a ↦
          rw (e, a, recover)
            (ground (
              arith,
              contents-add y op d.start,
              contents-remove y x d.fragment s.fragment,
              found x op e,
              k,
            ))
    ]
  ]

  pub recover-IsWithin :
      (h : Option ℕ) (x : Hash) (d : Delta)
      → IsSound d
      → IsWithin all d.fragment
      → IsWithin all (recover load h x d).fragment
  unfolding recover
  recover-IsWithin h x d s w = elim (Option-cases (load x)) [
    | inl e ↦ rw (e, recover) w
    | inr (op, e) ↦ elim (Bool-cases (above op.height h)) [
      | inr a ↦ rw (e, a, recover) w
      | inl a ↦ rw (e, a, recover) (remove-IsWithin x d.fragment s.fragment w)
    ]
  ]

  -- What a part of a turn keeps.
  pub record Step (d e : Delta) : Type 0 where
    pub fit : Fit e
    pub grows : Grows d e

  pub backtrack-Step :
      (limit : ℕ) (h : Option ℕ) (xs : List Hash) (d : Delta)
      → Fit d
      → Step d (backtrack load limit h xs d)
  unfolding backtrack
  backtrack-Step limit h [] d s = record { fit = s; grows = λ x k. k }
  backtrack-Step limit h (x ∷ xs) d s = elim (Bool-cases (leb limit (length d.start.contents))) [
    | inl e ↦ rw e (record { fit = s; grows = λ x k. k })
    | inr e ↦
        let fit : Fit (recover load h x d) = record {
          sound = recover-IsSound load found h x d s.sound;
          within = recover-IsWithin h x d s.sound s.within;
        } in
        let r = backtrack-Step limit h xs (recover load h x d) fit in
        rw e (record { fit = r.fit; grows = λ y k. r.grows y (recover-Grows h x d s.sound y k) })
  ]

  pub fetch-Step :
      (x : Hash) (d : Delta)
      → Set.has x all ≡ true
      → Fit d
      → Step d (fetch load x d) × (known (fetch load x d) x ≡ true)
  unfolding fetch
  fetch-Step x d m s =
      let (h, e, k, w) = complete.loads x m in
      elim (Bool-cases (not (Map.has x d.start.contents))) [
        | inr n ↦ rw (n, fetch) (record { fit = s; grows = λ y j. j }, ground (arith, n))
        | inl n ↦ (
          record {
            fit = record {
              sound = fetch-IsSound load found x d s.sound;
              within = rw (n, e, fetch) (add-IsWithin h d.fragment w s.within);
            };
            grows = λ y j. rw (n, e, fetch) (ground (arith, contents-add y h d.fragment, j));
          },
          rw (n, e, fetch) (ground (arith, contents-add x h d.fragment, k)),
        )
      ]

  -- What `extend` ends in: unless the fragment is full, all the hashes are known.
  pub record Extended (limit : ℕ) (xs : List Hash) (d e : Delta) : Type 0 where
    pub step : Step d e
    pub knows :
        leb limit (length e.fragment.contents) ≡ false
        → (x : Hash) → Set.has x xs ≡ true
        → known e x ≡ true

  pub extend-Extended :
      (limit : ℕ) (xs : List Hash) (d : Delta)
      → ((x : Hash) → Set.has x xs ≡ true → Set.has x all ≡ true)
      → Fit d
      → Extended limit xs d (extend load limit xs d)
  unfolding extend Set.has
  extend-Extended limit [] d a s = record {
    step = record { fit = s; grows = λ x k. k };
    knows = λ u x m. cc;
  }
  extend-Extended limit (x ∷ xs) d a s =
      elim (Bool-cases (leb limit (length d.fragment.contents))) [
        | inl e ↦ rw e (record {
          step = record { fit = s; grows = λ y k. k };
          knows = λ u y m. absurd (ground (arith, e, u));
        })
        | inr e ↦
            let (p, k) = fetch-Step x d (a x (Set.has-head x xs)) s in
            let r =
              extend-Extended limit xs (fetch load x d) (λ y m. a y (ground (arith, m))) p.fit in
            rw e (record {
              step = record { fit = r.step.fit; grows = λ y j. r.step.grows y (p.grows y j) };
              knows = λ u y m. elim (same x y) [
                | yes q ↦
                    subst (λ z. known (extend load limit xs (fetch load x d)) z ≡ true) q
                      (r.step.grows x k)
                | no q ↦ r.knows u y (ground (arith, m))
              ];
            })
      ]

  -- Nothing is fetched that the start has.
  pub extend_idle :
      (limit : ℕ) (xs : List Hash) (d : Delta)
      → ((y : Hash) → Set.has y xs ≡ true → Map.has y d.start.contents ≡ true)
      → extend load limit xs d ≡ d
  unfolding extend fetch Set.has
  extend_idle limit [] d k = refl
  extend_idle limit (x ∷ xs) d k =
      let h : Map.has x d.start.contents ≡ true = k x (Set.has-head x xs) in
      elim (Bool-cases (leb limit (length d.fragment.contents))) [
        | inl e ↦ rw e refl
        | inr e ↦ rw (e, h) (extend_idle limit xs d (λ y m. k y (ground (arith, m))))
      ]

  pub gap_closed :
      (d : Delta)
      → ((y : Hash)
          → Set.has y d.fragment.missing_prev_op_headers ≡ true
          → Map.has y d.start.contents ≡ true)
      → (x : Hash) → Set.has x (update_gap d).gap ≡ false
  unfolding update_gap
  gap_closed d k x =
      ground (arith, has-gap_of x d.fragment.missing_prev_op_headers d.start [], Set.has-nil x, k x)

  pub empty_of_none : (s : List Hash) → ((x : Hash) → Set.has x s ≡ false) → is_empty s ≡ true
  empty_of_none [] k = refl
  empty_of_none (x ∷ s) k = ground (arith, k x, Set.has-head x s)
