-- ===== src/Util/MultiMap/Size.antt =====
-- The count of the pairs of a map of src/util/multimap.ts, and the copies of a map.
use hyperhyperspace_core.Prelude.{
  ℕ, ◌+◌, ◌≡◌, refl, true, false, [], ◌∷◌, Option, none, some, Key, arith, ◌==◌, Option-cases, inl,
  inr, pos, +ℤ-pos, -ℤ-pos_of_add, ◌+ℤ◌, ◌-ℤ◌, ap, Bool-cases, ◌≢◌, if◌then◌else◌,
}
use hyperhyperspace_core.Js.Map
use hyperhyperspace_core.Js.Map.{JsMap}
use hyperhyperspace_core.Js.Set
use hyperhyperspace_core.Js.Set.{JsSet}
use hyperhyperspace_core.Util.MultiMap.{MultiMap, empty, add, delete, delete_key}

-- The number of pairs that are stored.
abbrev pub total : {K V : Type 0} → JsMap K (JsSet V) → ℕ
total [] = 0
total ((k, s) ∷ m) = Set.size s + total m

abbrev pub size_of : {V : Type 0} → Option (JsSet V) → ℕ
size_of none = 0
size_of (some s) = Set.size s

size_test : (n : ℕ) → n ≢ 0 → (n == 0) ≡ false
size_test n h = ground arith

module _ {K V : Type 0} ⦃key : Key K⦄ where
  total-set :
      (k : K) (s : JsSet V) (m : JsMap K (JsSet V))
      → total (Map.set k s m) + size_of (Map.get k m) ≡ total m + Set.size s
  unfolding Map.set Map.get
  total-set k s [] = omega arith
  total-set k s ((j, t) ∷ m) = ground (arith, total-set k s m)

  total-delete :
      (k : K) (m : JsMap K (JsSet V))
      → Map.IsDistinct m
      → total (Map.delete k m) + size_of (Map.get k m) ≡ total m
  unfolding Map.delete Map.get
  total-delete k [] d = omega arith
  total-delete k ((j, t) ∷ m) d = ground (arith, total-delete k m d.1, Map.delete_absent k m)

  -- Every set that is stored has distinct members, and one at least.
  abbrev pub HasSets : ⦃val : Key V⦄ → JsMap K (JsSet V) → Type 0
  HasSets m = (k : K) (s : JsSet V) → Map.get k m ≡ some s → Set.IsDistinct s × (Set.size s ≢ 0)

module _ {K V : Type 0} ⦃key : Key K⦄ ⦃val : Key V⦄ where
  pub record IsCounted (m : MultiMap K V) : Type 0 where
    pub distinct : Map.IsDistinct m.inner
    pub sets : HasSets m.inner
    pub counted : m.size ≡ pos (total m.inner)

  pub empty-IsCounted : IsCounted (empty {K = K} {V = V})
  unfolding empty Map.get
  empty-IsCounted = record { distinct = tt; sets = λ k s e. cc; counted = refl }

  set-HasSets :
      (k : K) (s : JsSet V) (m : JsMap K (JsSet V))
      → HasSets m
      → Set.IsDistinct s
      → Set.size s ≢ 0
      → HasSets (Map.set k s m)
  set-HasSets k s m h d p j t e = ground (arith, Map.get-set j k s m, h j t)

  delete-HasSets : (k : K) (m : JsMap K (JsSet V)) → HasSets m → HasSets (Map.delete k m)
  delete-HasSets k m h j t e = ground (arith, Map.get-delete j k m, h j t)

  grow-IsCounted :
      (k : K) (s : JsSet V) (m : MultiMap K V)
      → IsCounted m
      → Set.IsDistinct s
      → Set.size s ≡ size_of (Map.get k m.inner) + 1
      → IsCounted (record { inner = Map.set k s m.inner; size = m.size +ℤ pos 1 })
  grow-IsCounted k s m c d h = record {
    distinct = Map.set-IsDistinct k s m.inner c.distinct;
    sets = set-HasSets k s m.inner c.sets d (λ z. omega arith);
    counted = rw (c.counted, +ℤ-pos) (ap pos (omega (arith, total-set k s m.inner)));
  }

  pub add-IsCounted : (k : K) (v : V) (m : MultiMap K V) → IsCounted m → IsCounted (add k v m)
  unfolding add
  add-IsCounted k v m c = elim (Option-cases (Map.get k m.inner)) [
    | inl e ↦
        rw (e, add)
          (grow-IsCounted k (Set.add v []) m c (Set.add-IsDistinct v [] tt)
            (rw e (ground (arith, Set.size-add v [], Set.has-nil v))))
    | inr (s, e) ↦
        rw (e, add)
          (elim (Bool-cases (Set.has v s)) [
            | inl h ↦ rw h c
            | inr h ↦ rw h (
                grow-IsCounted k (Set.add v s) m c (Set.add-IsDistinct v s (c.sets k s e).0)
                  (rw e (ground (arith, Set.size-add v s))))
          ])
  ]

  shrink-IsCounted :
      (k : K) (v : V) (s : JsSet V) (m : MultiMap K V)
      → IsCounted m
      → Map.get k m.inner ≡ some s
      → Set.has v s ≡ true
      → IsCounted (record {
        inner =
            if Set.size (Set.delete v s) == 0
            then Map.delete k m.inner
            else Map.set k (Set.delete v s) m.inner;
        size = m.size -ℤ pos 1;
      })
  shrink-IsCounted k v s m c e h =
      let d = (c.sets k s e).0 in
      let sized = Set.size-delete v s d in
      elim (Bool-cases (Set.size (Set.delete v s) == 0)) [
        | inl z ↦ rw z (record {
          distinct = Map.delete-IsDistinct k m.inner c.distinct;
          sets = delete-HasSets k m.inner c.sets;
          counted = rw c.counted (
              -ℤ-pos_of_add (total m.inner) 1 (total (Map.delete k m.inner))
                (ground (arith, e, sized, total-delete k m.inner c.distinct)));
        })
        | inr z ↦ rw z (record {
          distinct = Map.set-IsDistinct k (Set.delete v s) m.inner c.distinct;
          sets =
              set-HasSets k (Set.delete v s) m.inner c.sets (Set.delete-IsDistinct v s d)
                (ground arith);
          counted = rw c.counted (
              -ℤ-pos_of_add (total m.inner) 1 (total (Map.set k (Set.delete v s) m.inner))
                (ground (arith, e, sized, total-set k (Set.delete v s) m.inner)));
        })
      ]

  -- If the size of a map is the number of its pairs and no key has an empty set, the same holds
  -- after a pair is deleted, whether it was there or not.
  pub delete-IsCounted :
      (k : K) (v : V) (m : MultiMap K V) → IsCounted m → IsCounted (delete k v m).0
  unfolding delete
  delete-IsCounted k v m c = elim (Option-cases (Map.get k m.inner)) [
    | inl e ↦ rw (e, delete) c
    | inr (s, e) ↦
        rw (e, delete)
          (elim (Bool-cases (Set.has v s)) [
            | inl h ↦ rw h (shrink-IsCounted k v s m c e h)
            | inr h ↦
                rw
                  (
                    h,
                    Set.delete_absent v s h,
                    size_test (Set.size s) (c.sets k s e).1,
                    Map.set_same k s m.inner e,
                  )
                  c
          ])
  ]

  pub delete_key-IsCounted : (k : K) (m : MultiMap K V) → IsCounted m → IsCounted (delete_key k m).0
  unfolding delete_key
  delete_key-IsCounted k m c = elim (Option-cases (Map.get k m.inner)) [
    | inl e ↦ rw (e, delete_key) c
    | inr (s, e) ↦
        rw (e, delete_key)
          (record {
            distinct = Map.delete-IsDistinct k m.inner c.distinct;
            sets = delete-HasSets k m.inner c.sets;
            counted = rw c.counted (
                -ℤ-pos_of_add (total m.inner) (Set.size s) (total (Map.delete k m.inner))
                  (ground (arith, e, total-delete k m.inner c.distinct)));
          })
  ]
