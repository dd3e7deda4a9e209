-- ===== src/Collections/MutableArray/Inserted.antt =====
-- What the insertion of elements between two ordinals makes of an array of
-- src/data/collections/mutable/MutableArray.ts.
use hyperhyperspace_core.Prelude.{
  ◌≡◌, ◌≢◌, refl, sym, ◌∙◌, Hash, Bool, false, List, [], ◌∷◌, Option, none, some, same, ok,
  string_key, arith, All,
}
use hyperhyperspace_core.Util.Ordinals.Order.{Lt, IsOrdinal}
use hyperhyperspace_core.Util.Ordinals.Suffix.{text}
use hyperhyperspace_core.Util.Ordinals.Between.{IsInterval, Below, between_within}
use hyperhyperspace_core.Model.Reference.{HashReference}
use hyperhyperspace_core.Collections.MutableArray.{MutableArray, Ordinal, ordinal_key}
use hyperhyperspace_core.Js.Map
use hyperhyperspace_core.Collections.MutableArray.Counts.{occurrences}
use hyperhyperspace_core.Collections.MutableArray.InStep.{TellsApart, IsInStep}
use hyperhyperspace_core.Collections.MutableArray.InsertOne.{
  StandsIn, insert-IsInStep, insert-StandsIn, keeps-StandsIn, insert-none, insert-duplicates,
}
use hyperhyperspace_core.Collections.MutableArray.Edits.{insert_one, insert_all}

-- Ordinals above the first bound, one after the other, and below the second.
abbrev pub Ascends : Option Ordinal → List Ordinal → Option Ordinal → Type 0
Ascends after [] before = Unit
Ascends after (o ∷ os) before =
    Lt (text after) o × Below o before × IsOrdinal o × Ascends (some o) os before

module _ {T : Type 0} (hash_element : T → Hash) (hash_ref : HashReference → Hash)
    (is_object : T → Bool) (sort_hashes : List Hash → List Hash)
    (sort_ordinals : List Ordinal → List Ordinal) where
  next_IsInterval :
      (after before : Option Ordinal) (o : Ordinal)
      → IsInterval after before
      → Below o before
      → IsOrdinal o
      → IsInterval (some o) before
  next_IsInterval after none o i b d = d
  next_IsInterval none (some p) o i b d = (d, i, b)
  next_IsInterval (some a) (some p) o i b d = (d, i.1, b)

  module _ (apart : TellsApart hash_ref)
      (keeps_hashes : (x : Hash) (a : List Hash) → occurrences x (sort_hashes a) ≡ occurrences x a)
      (keeps_ordinals : (o : Ordinal) (a : List Ordinal)
        → occurrences o (sort_ordinals a) ≡ occurrences o a) where
    abbrev pub StandsAt : Hash → T → Ordinal → MutableArray T → Type 0
    StandsAt =
        StandsIn hash_element hash_ref is_object sort_hashes sort_ordinals apart keeps_hashes
          keeps_ordinals

    -- The elements stand at these ordinals.
    abbrev pub AllStand : List (Hash × T) → List Ordinal → MutableArray T → Type 0
    AllStand [] [] t = Unit
    AllStand [] (o ∷ os) t = ⊥
    AllStand (e ∷ es) [] t = ⊥
    AllStand ((h, e) ∷ es) (o ∷ os) t = StandsAt h e o t × AllStand es os t

    abbrev pub Differs : T → List (Hash × T) → Type 0
    Differs e es = All (λ f. hash_element f.1 ≢ hash_element e) es

    -- The elements are different ones.
    abbrev pub AreApart : List (Hash × T) → Type 0
    AreApart [] = Unit
    AreApart ((h, e) ∷ es) = Differs e es × AreApart es

    -- The insertions are new to the array.
    abbrev pub AreNew : List (Hash × T) → MutableArray T → Type 0
    AreNew es s = All (λ f. Map.get f.0 s.current_insert_op_ords ≡ none) es

    -- What the insertion of elements between two ordinals makes of an array: the elements stand in
    -- their order at ordinals that ascend between these two, what stood stands where it was, but for
    -- the elements themselves where duplicates are not wanted, and the indices are in step.
    pub record Inserted (es : List (Hash × T)) (after before : Option Ordinal)
        (s t : MutableArray T) : Type 0 where
      pub ordinals : List Ordinal
      pub ascends : Ascends after ordinals before
      pub stand : AllStand es ordinals t
      pub kept :
          (h : Hash) (e : T) (o : Ordinal)
          → (s.duplicates ≡ false → Differs e es)
          → StandsAt h e o s
          → StandsAt h e o t
      pub in_step : IsInStep hash_ref t

    abbrev insert_step : Hash → T → Ordinal → MutableArray T → MutableArray T
    insert_step = insert_one hash_element hash_ref is_object sort_hashes sort_ordinals

    still-AreNew :
        (h : Hash) (e : T) (o : Ordinal) (es : List (Hash × T)) (s : MutableArray T)
        → IsInStep hash_ref s
        → Map.get h s.current_insert_op_ords ≡ none
        → Map.get h es ≡ none
        → AreNew es s
        → AreNew es (insert_step h e o s)
    unfolding Map.get
    still-AreNew h e o [] s i n d a = tt
    still-AreNew h e o ((g, f) ∷ es) s i n d a = elim (same g h) [
      | yes p ↦ absurd (ground (arith, d, p))
      | no p ↦ (
        insert-none hash_element hash_ref is_object sort_hashes sort_ordinals apart keeps_hashes
            keeps_ordinals h e o s i n g (λ q. p (sym q)) a.0,
        still-AreNew h e o es s i n (ground (arith, d, p)) a.1,
      )
    ]

    pub insert_all-Inserted :
        (es : List (Hash × T)) (after before : Option Ordinal) (s : MutableArray T)
        → IsInterval after before
        → IsInStep hash_ref s
        → AreNew es s
        → Map.IsDistinct es
        → (s.duplicates ≡ false → AreApart es)
        → (t : MutableArray T) × (insert_all hash_element hash_ref is_object sort_hashes
              sort_ordinals es after before s
            ≡ (t, some (ok tt)))
          × Inserted es after before s t
    unfolding insert_all
    insert_all-Inserted [] after before s v i n d a = (
      s,
      refl,
      record { ordinals = []; ascends = tt; stand = tt; kept = λ h e o u k. k; in_step = i },
    )
    insert_all-Inserted ((h, e) ∷ es) after before s v i n d a =
        let (o, found, above, below, ordinal) = between_within after before v in
        let u = insert_step h e o s in
        let same_duplicates =
          insert-duplicates hash_element hash_ref is_object sort_hashes sort_ordinals apart
            keeps_hashes keeps_ordinals h e o s i n.0 in
        let (t, all, r) =
          insert_all-Inserted es (some o) before u (next_IsInterval after before o v below ordinal)
            (insert-IsInStep hash_element hash_ref is_object sort_hashes sort_ordinals apart
              keeps_hashes keeps_ordinals h e o s i n.0)
            (still-AreNew h e o es s i n.0 d.0 n.1) d.1 (λ w. (a (sym same_duplicates ∙ w)).1) in
        (
          t,
          rw (found, insert_all) all,
          record {
            ordinals = o ∷ r.ordinals;
            ascends = (above, below, ordinal, r.ascends);
            stand = (
              r.kept h e o (λ w. (a (sym same_duplicates ∙ w)).0)
                  (insert-StandsIn hash_element hash_ref is_object sort_hashes sort_ordinals apart
                    keeps_hashes keeps_ordinals h e o s i n.0),
              r.stand,
            );
            kept = λ g f p w k.
                r.kept g f p (λ z. (w (sym same_duplicates ∙ z)).1)
                  (keeps-StandsIn hash_element hash_ref is_object sort_hashes sort_ordinals apart
                    keeps_hashes keeps_ordinals h e o s i n.0 g f p (λ z. (w z).0) k);
            in_step = r.in_step;
          },
        )
