-- ===== src/Js/Set.antt =====
-- `Set` of the language's runtime: its members in the order of their insertion.
use hyperhyperspace_core.Prelude.{
  ℕ, suc, ◌≡◌, refl, Bool, true, false, List, [], ◌∷◌, ◌++◌, arith, ite, Key, same, length,
  if◌then◌else◌, Bool-cases, inl, inr, ◌≢◌,
}

abbrev pub JsSet : Type 0 → Type 0
JsSet K = List K

abbrev pub size : {K : Type 0} → JsSet K → ℕ
size s = length s

module _ {K : Type 0} ⦃key : Key K⦄ where
  unfoldable pub has : K → JsSet K → Bool
  has x [] = false
  has x (y ∷ s) = ite (same y x) true (has x s)

  -- A member that is there keeps its place.
  unfoldable pub add : K → JsSet K → JsSet K
  unfolding has
  add x s = if has x s then s else s ++ (x ∷ [])

  unfoldable pub delete : K → JsSet K → JsSet K
  delete x [] = []
  delete x (y ∷ s) = let rest = delete x s in ite (same y x) rest (y ∷ rest)

  -- No member stands twice, as the runtime guarantees.
  abbrev pub IsDistinct : JsSet K → Type 0
  IsDistinct [] = Unit
  IsDistinct (x ∷ s) = (has x s ≡ false) × IsDistinct s

  has-snoc : (j k : K) (s : JsSet K) → has j (s ++ (k ∷ [])) ≡ ite (same k j) true (has j s)
  unfolding has
  has-snoc j k [] = refl
  has-snoc j k (y ∷ s) = ground (arith, has-snoc j k s)

  has_of_same : (j k : K) (s : JsSet K) → has k s ≡ true → k ≡ j → has j s ≡ true
  has_of_same j k s h e = cc

  pub has-add : (j k : K) (s : JsSet K) → has j (add k s) ≡ ite (same k j) true (has j s)
  unfolding add
  has-add j k s = elim (Bool-cases (has k s)) [
    | inl h ↦ rw h (ground (arith, has_of_same j k s h))
    | inr h ↦ rw h (has-snoc j k s)
  ]

  pub has-delete : (j k : K) (s : JsSet K) → has j (delete k s) ≡ ite (same k j) false (has j s)
  unfolding has delete
  has-delete j k [] = ground arith
  has-delete j k (y ∷ s) = ground (arith, has-delete j k s)

  pub delete-IsDistinct : (k : K) (s : JsSet K) → IsDistinct s → IsDistinct (delete k s)
  unfolding delete
  delete-IsDistinct k [] d = tt
  delete-IsDistinct k (y ∷ s) d = ground (arith, delete-IsDistinct k s d.1, has-delete y k s)

  snoc-IsDistinct :
      (k : K) (s : JsSet K) → has k s ≡ false → IsDistinct s → IsDistinct (s ++ (k ∷ []))
  unfolding has
  snoc-IsDistinct k [] h d = (refl, tt)
  snoc-IsDistinct k (y ∷ s) h d = ground (arith, snoc-IsDistinct k s, has-snoc y k s)

  pub add-IsDistinct : (k : K) (s : JsSet K) → IsDistinct s → IsDistinct (add k s)
  unfolding add
  add-IsDistinct k s d = elim (Bool-cases (has k s)) [
    | inl h ↦ rw h d
    | inr h ↦ rw h (snoc-IsDistinct k s h d)
  ]

  pub delete_absent : (k : K) (s : JsSet K) → has k s ≡ false → delete k s ≡ s
  unfolding has delete
  delete_absent k [] h = refl
  delete_absent k (y ∷ s) h = ground (arith, delete_absent k s)

  length-snoc : (k : K) (s : JsSet K) → length (s ++ (k ∷ [])) ≡ suc (length s)
  length-snoc k [] = refl
  length-snoc k (y ∷ s) = omega (arith, length-snoc k s)

  pub size-add : (k : K) (s : JsSet K) → size (add k s) ≡ (if has k s then size s else suc (size s))
  unfolding add
  size-add k s = ground (arith, length-snoc k s)

  pub size-delete :
      (k : K) (s : JsSet K)
      → IsDistinct s
      → size s ≡ (if has k s then suc (size (delete k s)) else size (delete k s))
  unfolding has delete
  size-delete k [] d = refl
  size-delete k (y ∷ s) d = ground (arith, size-delete k s, delete_absent k s, has_of_same k y s)

  -- `size === 0` is emptiness.
  pub has_of_empty : (k : K) (s : JsSet K) → size s ≡ 0 → has k s ≡ false
  unfolding has
  has_of_empty k [] h = refl
  has_of_empty k (y ∷ s) h = absurd (omega arith)

  pub has-nil : (k : K) → has k [] ≡ false
  unfolding has
  has-nil k = refl

  pub delete-nil : (k : K) → delete k [] ≡ []
  unfolding delete
  delete-nil k = refl

  pub eq-nil_of_size : (s : JsSet K) → size s ≡ 0 → s ≡ []
  eq-nil_of_size [] h = refl
  eq-nil_of_size (y ∷ s) h = absurd (omega arith)

  pub add_present : (k : K) (s : JsSet K) → has k s ≡ true → add k s ≡ s
  unfolding add
  add_present k s h = rw h

  pub has-head : (y : K) (s : JsSet K) → has y (y ∷ s) ≡ true
  unfolding has
  has-head y s = ground arith

  pub size-add_ne : (k : K) (s : JsSet K) → size (add k s) ≢ 0
  size-add_ne k s h = ground (arith, has-add k k s, has_of_empty k (add k s) h)

  pub delete-delete : (k : K) (s : JsSet K) → delete k (delete k s) ≡ delete k s
  delete-delete k s = delete_absent k (delete k s) (ground (arith, has-delete k k s))

  pub add_absent : (k : K) (s : JsSet K) → has k s ≡ false → add k s ≡ s ++ (k ∷ [])
  unfolding add
  add_absent k s h = rw h
