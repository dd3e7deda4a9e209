-- ===== src/Storage/MemoryBackend/Search.antt =====
-- What the searches of src/storage/backends/MemoryBackend.ts return.
use Prim.Native.Nat.{min}
use mathlib.Core.List.{reverse, reverse-cons, map-append}
use native.Mathlib.Nat.{zero-add, suc-add}
use hyperhyperspace_core.Prelude.{
  ℕ, suc, zero, ◌+◌, ◌-◌, ◌≤◌, ◌<◌, ◌≡◌, refl, Hash, String, List, [], ◌∷◌, ◌++◌, Option, none,
  some, string_key, length, take, drop, map, arith, ap, ◌∙◌, sym, subst, take-append-drop,
  length-append,
}
use hyperhyperspace_core.Js.Map
use hyperhyperspace_core.Js.Map.{JsMap}
use hyperhyperspace_core.Storage.MemoryBackend.{
  MemoryRepr, SearchParams, SearchOrder, asc, desc, Found, search_by_index, segment, literal_at,
  at_or, arranged,
}

module _ {A : Type 0} where
  take_all : (xs : List A) (n : ℕ) → n ≡ length xs → take n xs ≡ xs
  take_all [] zero h = refl
  take_all [] (suc n) h = refl
  take_all (x ∷ xs) zero h = absurd (omega arith)
  take_all (x ∷ xs) (suc n) h = ap (◌∷◌ x) (take_all xs n (omega arith))

  drop-drop : (a b : ℕ) (xs : List A) → drop a (drop b xs) ≡ drop (b + a) xs
  drop-drop a zero xs = ap (λ n. drop n xs) (sym (zero-add a))
  drop-drop a (suc b) [] = drop_nil a ∙ sym (drop_nil (suc b + a))
    where
      drop_nil : (n : ℕ) → drop {A = A} n [] ≡ []
      drop_nil zero = refl
      drop_nil (suc n) = refl
  drop-drop a (suc b) (x ∷ xs) = drop-drop a b xs ∙ ap (λ n. drop n (x ∷ xs)) (sym (suc-add b a))

  take-append-drop_from :
      (s n : ℕ) (xs : List A) → s ≤ n → take (n - s) (drop s xs) ++ drop n xs ≡ drop s xs
  take-append-drop_from s n xs h =
      subst (λ m. take (n - s) (drop s xs) ++ drop m xs ≡ drop s xs) (omega arith)
        (subst (λ t. take (n - s) (drop s xs) ++ t ≡ drop s xs) (drop-drop (n - s) s xs)
          (take-append-drop (n - s) (drop s xs)))

  length-reverse : (xs : List A) → length (reverse xs) ≡ length xs
  length-reverse [] = refl
  length-reverse (x ∷ xs) =
      omega (
        arith,
        ap length (reverse-cons x xs),
        length-append (reverse xs) (x ∷ []),
        length-reverse xs,
      )

  length-take-le : (n : ℕ) (xs : List A) → length (take n xs) ≤ n
  length-take-le zero xs = omega arith
  length-take-le (suc n) [] = omega arith
  length-take-le (suc n) (x ∷ xs) = omega (arith, length-take-le n xs)

length-map : {A B : Type 0} (f : A → B) (xs : List A) → length (map f xs) ≡ length xs
length-map f [] = refl
length-map f (x ∷ xs) = ap suc (length-map f xs)

module _ (r : MemoryRepr) (key : String) where
  abbrev pub page : SearchOrder → Option ℕ → Option ℕ → SearchParams
  page order start limit = record { order = order; start = start; start_on = none; limit = limit }

  abbrev outcome :
      SearchOrder → List Hash → JsMap String (List Hash) → JsMap String (List Hash) × Found
  outcome order hashes sorted = (
    Map.set key (arranged order hashes) sorted,
    record {
      items = map (literal_at r) (arranged order hashes);
      start = some 0;
      end = some (length (arranged order hashes));
    },
  )

  search_whole :
      (order : SearchOrder) (sorted : JsMap String (List Hash)) (hashes : List Hash)
      → Map.get key sorted ≡ some hashes
      → 0 < length (arranged order hashes)
      → search_by_index key sorted (page order none none) r ≡ outcome order hashes sorted
  unfolding search_by_index segment
  search_whole order sorted hashes held h =
      rw (held, search_by_index)
        (ground (arith, take_all (arranged order hashes) (length (arranged order hashes) - 0)))

  -- For an index that has an entry: after a search of all its entries in descending order, a
  -- search of all of them in ascending order returns them in descending order.
  pub search_reverses_index :
      (sorted : JsMap String (List Hash)) (hashes : List Hash)
      → Map.get key sorted ≡ some hashes
      → 0 < length hashes
      → let after = (search_by_index key sorted (page desc none none) r).0 in
        (search_by_index key after (page asc none none) r).1.items
        ≡ map (literal_at r) (reverse hashes)
  search_reverses_index sorted hashes held h =
      let turned = reverse hashes in
      let first = search_whole desc sorted hashes held (omega (arith, length-reverse hashes)) in
      let second =
        search_whole asc (Map.set key turned sorted) turned
          (ground (arith, Map.get-set key key turned sorted))
          (omega (arith, length-reverse hashes)) in
      rw (first, second) refl

  ascending :
      (sorted : JsMap String (List Hash)) (hashes : List Hash) (from limit : ℕ)
      → Map.get key sorted ≡ some hashes
      → from < length hashes
      → search_by_index key sorted (page asc (some from) (some limit)) r ≡ (
        Map.set key hashes sorted,
        record {
          items = map (literal_at r) (segment hashes (some from) (some limit));
          start = some from;
          end = some (min (from + limit) (length hashes));
        },
      )
  unfolding search_by_index
  ascending sorted hashes from limit held h = rw (held, search_by_index) (ground arith)

  -- An ascending search that starts inside the index returns at most as many entries as its
  -- limit; they and the entries from its end on are the entries from its start on, and the index
  -- keeps its entries.
  pub search_page :
      (sorted : JsMap String (List Hash)) (hashes : List Hash) (from limit : ℕ)
      → Map.get key sorted ≡ some hashes
      → from < length hashes
      → let (after, found) = search_by_index key sorted (page asc (some from) (some limit)) r in
        (length found.items ≤ limit)
        × (found.items ++ map (literal_at r) (drop (at_or 0 found.end) hashes)
            ≡ map (literal_at r) (drop from hashes))
        × (found.end ≡ some (min (from + limit) (length hashes)))
        × (Map.get key after ≡ some hashes)
  unfolding segment
  search_page sorted hashes from limit held h =
      let end = min (from + limit) (length hashes) in
      let part = take (end - from) (drop from hashes) in
      rw (ascending sorted hashes from limit held h) (
        omega
            (arith, length-map (literal_at r) part, length-take-le (end - from) (drop from hashes)),
        sym (map-append (literal_at r) part (drop end hashes))
            ∙ ap (map (literal_at r)) (take-append-drop_from from end hashes (omega arith)),
        refl,
        ground (arith, Map.get-set key key hashes sorted),
      )
