-- ===== src/Collections/MutableArray/Standing.antt =====
-- The insertions of src/data/collections/mutable/MutableArray.ts that stand at an ordinal.
use hyperhyperspace_core.Prelude.{
  ℕ, ◌+◌, ◌≡◌, ◌≢◌, refl, sym, ap, ◌∙◌, Hash, true, false, [], ◌∷◌, ◌++◌, Option, none, some, ite,
  same, arith, string_key, subst, All,
}
use hyperhyperspace_core.Js.Map
use hyperhyperspace_core.Js.Map.{JsMap}
use hyperhyperspace_core.Model.Reference.{HashReference}
use hyperhyperspace_core.Collections.MutableArray.{Ordinal, ordinal_key}
use hyperhyperspace_core.Collections.MutableArray.Counts.{one_if}

abbrev pub Refs : Type 0
Refs = JsMap Hash HashReference

abbrev pub Ords : Type 0
Ords = JsMap Hash Ordinal

-- One if the ordinal is this one.
abbrev pub placed_at : Ordinal → Option Ordinal → ℕ
placed_at o none = 0
placed_at o (some p) = one_if p o

-- How many insertions stand at the ordinal.
unfoldable pub standing : Ordinal → JsMap Hash HashReference → JsMap Hash Ordinal → ℕ
standing o [] ords = 0
standing o ((k, r) ∷ m) ords = placed_at o (Map.get r.hash ords) + standing o m ords

module _ {A : Type 0} (P : Hash × A → Type 0) where
  pub All-delete : (k : Hash) (m : JsMap Hash A) → All P m → All P (Map.delete k m)
  unfolding Map.delete
  All-delete k [] a = a
  All-delete k ((g, v) ∷ m) a =
      elim (same g k) as (λ z. All P (ite z (Map.delete k m) ((g, v) ∷ Map.delete k m))) [
        | yes p ↦ All-delete k m a.1
        | no p ↦ (a.0, All-delete k m a.1)
      ]

  pub All-snoc :
      (k : Hash) (v : A) (m : JsMap Hash A) → P (k, v) → All P m → All P (m ++ ((k, v) ∷ []))
  All-snoc k v [] p a = (p, tt)
  All-snoc k v (e ∷ m) p a = (a.0, All-snoc k v m p a.1)

module _ {A : Type 0} {P Q : Hash × A → Type 0} (f : (e : Hash × A) → P e → Q e) where
  pub All-map : (m : JsMap Hash A) → All P m → All Q m
  All-map [] a = tt
  All-map (e ∷ m) a = (f e a.0, All-map m a.1)

module _ {A : Type 0} {P Q R : Hash × A → Type 0} (f : (e : Hash × A) → P e → Q e → R e) where
  pub All-zip : (m : JsMap Hash A) → All P m → All Q m → All R m
  All-zip [] a b = tt
  All-zip (e ∷ m) a b = (f e a.0 b.0, All-zip m a.1 b.1)

module _ {A : Type 0} where
  pub delete_keys : (k : Hash) (m : JsMap Hash A) → All (λ e. e.0 ≢ k) (Map.delete k m)
  unfolding Map.delete
  delete_keys k [] = tt
  delete_keys k ((g, v) ∷ m) =
      elim (same g k)
        as (λ z. All (λ e. e.0 ≢ k) (ite z (Map.delete k m) ((g, v) ∷ Map.delete k m))) [
          | yes p ↦ delete_keys k m
          | no p ↦ (p, delete_keys k m)
        ]

  pub absent_keys : (k : Hash) (m : JsMap Hash A) → Map.has k m ≡ false → All (λ e. e.0 ≢ k) m
  unfolding Map.get
  absent_keys k [] n = tt
  absent_keys k ((g, v) ∷ m) n = elim (same g k) [
    | yes p ↦ absurd (ground (arith, n))
    | no p ↦ (p, absent_keys k m (ground (arith, n)))
  ]

  pub All_get :
      (P : Hash × A → Type 0) (k : Hash) (v : A) (m : JsMap Hash A)
      → All P m
      → Map.get k m ≡ some v
      → P (k, v)
  unfolding Map.get
  All_get P k v [] a e = cc
  All_get P k v ((g, w) ∷ m) a e = elim (same g k) [
    | yes p ↦
        let q : w ≡ v = ground (arith, e) in subst P (ap (λ z. (z, w)) p ∙ ap (λ z. (k, z)) q) a.0
    | no p ↦ All_get P k v m a.1 (ground (arith, e))
  ]

pub standing-snoc :
    (o : Ordinal) (k : Hash) (r : HashReference) (m : Refs) (ords : Ords)
    → standing o (m ++ ((k, r) ∷ [])) ords ≡ standing o m ords + placed_at o (Map.get r.hash ords)
unfolding standing
standing-snoc o k r [] ords = omega arith
standing-snoc o k r (e ∷ m) ords = omega (arith, standing-snoc o k r m ords)

pub standing-set :
    (o p : Ordinal) (h : Hash) (m : Refs) (ords : Ords)
    → Map.get h ords ≡ none
    → All (λ e. Map.has e.1.hash ords ≡ true) m
    → standing o m (Map.set h p ords) ≡ standing o m ords
unfolding standing
standing-set o p h [] ords n a = refl
standing-set o p h ((k, r) ∷ m) ords n a = ground (
  arith,
  standing-set o p h m ords n a.1,
  Map.get-set r.hash h p ords,
  a.0,
  n,
  ap (λ z. Map.get z ords) {x = h} {y = r.hash},
)

pub standing-delete_ord :
    (o : Ordinal) (h : Hash) (m : Refs) (ords : Ords)
    → All (λ e. e.1.hash ≢ h) m
    → standing o m (Map.delete h ords) ≡ standing o m ords
unfolding standing
standing-delete_ord o h [] ords a = refl
standing-delete_ord o h ((k, r) ∷ m) ords a = elim (same h r.hash) [
  | yes p ↦ absurd (a.0 (sym p))
  | no p ↦ ground (arith, standing-delete_ord o h m ords a.1, Map.get-delete r.hash h ords)
]

standing-cons :
    (o : Ordinal) (k g : Hash) (q : HashReference) (m : Refs) (ords : Ords)
    → standing o (Map.delete k ((g, q) ∷ m)) ords
      ≡ ite
          (same g k)
          (standing o (Map.delete k m) ords)
          (placed_at o (Map.get q.hash ords) + standing o (Map.delete k m) ords)
unfolding standing Map.delete
standing-cons o k g q m ords =
    elim (same g k)
      as (λ z.
        standing o (ite z (Map.delete k m) ((g, q) ∷ Map.delete k m)) ords
        ≡ ite z (standing o (Map.delete k m) ords)
            (placed_at o (Map.get q.hash ords) + standing o (Map.delete k m) ords)) [
              | yes p ↦ refl
              | no p ↦ refl
            ]

pub standing-delete :
    (o : Ordinal) (k : Hash) (r : HashReference) (m : Refs) (ords : Ords)
    → Map.IsDistinct m
    → Map.get k m ≡ some r
    → standing o m ords ≡ standing o (Map.delete k m) ords + placed_at o (Map.get r.hash ords)
unfolding standing Map.delete Map.get
standing-delete o k r [] ords d e = cc
standing-delete o k r ((g, q) ∷ m) ords d e = elim (same g k) [
  | yes p ↦
      let same_ref : q ≡ r = ground (arith, e) in
      let absent : Map.delete k m ≡ m =
        Map.delete_absent k m (ap (λ z. Map.get z m) (sym p) ∙ d.0) in
      rw (standing-cons o k g q m ords, absent)
        (ground (arith, p, ap (λ z. placed_at o (Map.get z.hash ords)) same_ref))
  | no p ↦
      rw (standing-cons o k g q m ords) (ground (arith, p, standing-delete o k r m ords d.1, e))
]
