-- ===== src/Model/HashedMap.antt =====
-- src/data/model/immutable/HashedMap.ts: a map whose values have hashes. The hash of a value,
-- `HashedObject.hashElement`, and the runtime's `sort` are parameters.
use hyperhyperspace_core.Prelude.{
  Hash, Bool, true, false, List, [], ◌∷◌, Option, some, Key, ◌&&◌, ite, same, length, map, ◌==◌,
  string_key,
}
use hyperhyperspace_core.Js.Map
use hyperhyperspace_core.Js.Map.{JsMap}

pub record HashedMap (K V : Type 0) : Type 0 where
  pub content : JsMap K V
  pub content_hashes : JsMap K Hash

unfoldable pub empty : {K V : Type 0} → HashedMap K V
empty = record { content = []; content_hashes = [] }

module _ {K : Type 0} ⦃key : Key K⦄ where
  -- The loop of `equals`, over two lists of one length.
  unfoldable pub same_items : List (K × Option Hash) → List (K × Option Hash) → Bool
  same_items [] ys = true
  same_items (x ∷ xs) [] = true
  same_items ((k, some h) ∷ xs) ((j, some i) ∷ ys) =
      let rest = same_items xs ys in ite (same k j) (ite (same h i) rest false) false
  same_items (x ∷ xs) (y ∷ ys) = false

module _ {K V : Type 0} ⦃key : Key K⦄ (hash_element : V → Hash) where
  unfoldable pub set : K → V → HashedMap K V → HashedMap K V
  set k v m = record {
    content = Map.set k v m.content;
    content_hashes = Map.set k (hash_element v) m.content_hashes;
  }

  -- `new HashedMap(init)`.
  unfoldable pub from_entries : List (K × V) → HashedMap K V → HashedMap K V
  unfolding set
  from_entries [] m = m
  from_entries ((k, v) ∷ es) m = from_entries es (set k v m)

module _ {K V : Type 0} ⦃key : Key K⦄ where
  unfoldable pub remove : K → HashedMap K V → HashedMap K V
  remove k m = record {
    content = Map.delete k m.content;
    content_hashes = Map.delete k m.content_hashes;
  }

  unfoldable pub has : K → HashedMap K V → Bool
  has k m = Map.has k m.content_hashes

  unfoldable pub get : K → HashedMap K V → Option V
  get k m = Map.get k m.content

  module _ (sort : List K → List K) where
    -- What `toArrays` pairs for `equals`: the keys in order, with the hashes of their values.
    unfoldable pub to_arrays : HashedMap K V → List (K × Option Hash)
    to_arrays m = map (λ k. (k, Map.get k m.content_hashes)) (sort (Map.keys m.content))

    unfoldable pub equals : HashedMap K V → HashedMap K V → Bool
    unfolding to_arrays same_items
    equals m n =
        (length (to_arrays m) == length (to_arrays n)) && same_items (to_arrays m) (to_arrays n)
