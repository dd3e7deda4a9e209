-- ===== src/History/Header/Literals.antt =====
-- The literals of src/data/history/OpHeader.ts: the way there and back, and what the hash covers.
use mathlib.Core.List.{append_assoc, append-nil}
use hyperhyperspace_core.Prelude.{
  ◌≡◌, refl, sym, ◌∙◌, subst, Hash, String, List, [], ◌∷◌, ◌++◌, Option, ◌||◌, Key, none, some,
  arith, ok, string_key, false, Option-cases, if◌then◌else◌,
}
use hyperhyperspace_core.Js.Map
use hyperhyperspace_core.Js.Map.{JsMap}
use hyperhyperspace_core.Js.Set
use hyperhyperspace_core.Js.Set.{JsSet}
use hyperhyperspace_core.Util.MultiMap.{copy_set}
use hyperhyperspace_core.History.Header.{
  OpHeader, HeaderLiteral, Digest, Props, PropValue, hash, from_literal, literalize, literal_props,
  copy_props,
}

module _ (hash_value : Digest → Hash) (sort : List Hash → List Hash) where
  -- The hash of a header is the same whatever its properties are.
  pub hash_ignores_props :
      (h : OpHeader) (ps qs : Props)
      → hash hash_value sort (record h { header_props = ps })
        ≡ hash hash_value sort (record h { header_props = qs })
  unfolding hash Map.own_keys
  hash_ignores_props h ps qs = refl

  accepted_under :
      (l : HeaderLiteral) (h : OpHeader) (o : Option Props) (p : String × PropValue) (ps : Props)
      → from_literal hash_value sort (record l { header_props = o }) ≡ ok h
      → from_literal hash_value sort (record l { header_props = some (p ∷ ps) })
        ≡ ok (record h { header_props = literal_props (some (p ∷ ps)) })
  unfolding from_literal Map.own_keys
  accepted_under l h none p ps e = ground arith
  accepted_under l h (some []) p ps e = cc
  accepted_under l h (some (q ∷ qs)) p ps e = ground arith

  -- Where a literal of a header is accepted, the literal with its properties exchanged for any
  -- others, at least one, is accepted too, as the header with the properties exchanged.
  pub forged_props_accepted :
      (l : HeaderLiteral) (h : OpHeader) (p : String × PropValue) (ps : Props)
      → from_literal hash_value sort l ≡ ok h
      → from_literal hash_value sort (record l { header_props = some (p ∷ ps) })
        ≡ ok (record h { header_props = literal_props (some (p ∷ ps)) })
  forged_props_accepted l h p ps e = accepted_under l h l.header_props p ps e

module _ {K V : Type 0} ⦃key : Key K⦄ where
  get-append :
      (j : K) (m n : JsMap K V)
      → Map.get j (m ++ n) ≡ (if Map.has j m then Map.get j m else Map.get j n)
  unfolding Map.get
  get-append j [] n = refl
  get-append j ((k, v) ∷ m) n = ground (arith, get-append j m n)

  absent_before :
      (k : K) (v : V) (m n : JsMap K V) → Map.IsDistinct (m ++ ((k, v) ∷ n)) → Map.get k m ≡ none
  unfolding Map.get
  absent_before k v [] n d = refl
  absent_before k v ((j, w) ∷ m) n d =
      ground
        (arith, absent_before k v m n d.1, get-append j m ((k, v) ∷ n), Option-cases (Map.get j m))

copy_props_distinct : (ps m : Props) → Map.IsDistinct (m ++ ps) → copy_props ps m ≡ m ++ ps
unfolding copy_props
copy_props_distinct [] m d = sym (append-nil m)
copy_props_distinct ((k, v) ∷ ps) m d =
    let step = append_assoc m ((k, v) ∷ []) ps in
    rw (Map.set_absent k v m (absent_before k v m ps d))
      (copy_props_distinct ps (m ++ ((k, v) ∷ [])) (subst Map.IsDistinct (sym step) d) ∙ step)

module _ {V : Type 0} ⦃val : Key V⦄ where
  has-append : (x : V) (s t : JsSet V) → Set.has x (s ++ t) ≡ (Set.has x s || Set.has x t)
  unfolding Set.has
  has-append x [] t = refl
  has-append x (y ∷ s) t = ground (arith, has-append x s t)

  outside_before : (x : V) (s t : JsSet V) → Set.IsDistinct (s ++ (x ∷ t)) → Set.has x s ≡ false
  unfolding Set.has
  outside_before x [] t d = refl
  outside_before x (y ∷ s) t d = ground (arith, outside_before x s t d.1, has-append y s (x ∷ t))

  copy_set_distinct : (xs s : JsSet V) → Set.IsDistinct (s ++ xs) → copy_set xs s ≡ s ++ xs
  unfolding copy_set
  copy_set_distinct [] s d = sym (append-nil s)
  copy_set_distinct (x ∷ xs) s d =
      let step = append_assoc s (x ∷ []) xs in
      rw (Set.add_absent x s (outside_before x s xs d))
        (copy_set_distinct xs (s ++ (x ∷ [])) (subst Set.IsDistinct (sym step) d) ∙ step)

module _ (hash_value : Digest → Hash) (sort : List Hash → List Hash)
    (sort-sort : (xs : List Hash) → sort (sort xs) ≡ sort xs)
    (sort-IsDistinct : (xs : List Hash) → Set.IsDistinct xs → Set.IsDistinct (sort xs)) where
  comes_back :
      (h : OpHeader) (ps : Props)
      → hash hash_value sort (record h { header_props = ps }) ≡ h.header_hash
      → Set.IsDistinct h.prev_op_headers
      → Map.IsDistinct ps
      → from_literal hash_value sort (literalize hash_value sort (record h { header_props = ps }))
        ≡ ok (record h { prev_op_headers = sort h.prev_op_headers; header_props = ps })
  unfolding from_literal literalize hash Map.own_keys
  comes_back h [] e d p =
      let sorted = sort h.prev_op_headers in
      let members = copy_set_distinct sorted [] (sort-IsDistinct h.prev_op_headers d) in
      rw (members, sort-sort h.prev_op_headers) (ground (arith, e))
  comes_back h (q ∷ qs) e d p =
      let sorted = sort h.prev_op_headers in
      let members = copy_set_distinct sorted [] (sort-IsDistinct h.prev_op_headers d) in
      rw (members, sort-sort h.prev_op_headers)
        (ground (arith, e, copy_props_distinct (q ∷ qs) [] p))

  -- A header with its own hash, distinct predecessors and distinct properties comes back from its
  -- literal, with its predecessors in order, if sorting is idempotent and keeps members distinct.
  pub from_literal-literalize :
      (h : OpHeader)
      → hash hash_value sort h ≡ h.header_hash
      → Set.IsDistinct h.prev_op_headers
      → Map.IsDistinct h.header_props
      → from_literal hash_value sort (literalize hash_value sort h)
        ≡ ok (record h { prev_op_headers = sort h.prev_op_headers })
  from_literal-literalize h e d p = comes_back h h.header_props e d p
