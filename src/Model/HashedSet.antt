-- ===== src/Model/HashedSet.antt =====
-- src/data/model/immutable/HashedSet.ts: a set of elements by their hashes. The hash of an element,
-- `HashedObject.hashElement`, is a parameter.
use hyperhyperspace_core.Prelude.{
  ℕ, Hash, Bool, true, false, List, [], ◌∷◌, Option, ◌≡◌, ite, same, refl, arith, string_key,
  length, ◌==◌, ◌≢◌, ◌&&◌,
}
use hyperhyperspace_core.Js.Map
use hyperhyperspace_core.Js.Map.{JsMap}

abbrev pub HashedSet : Type 0 → Type 0
HashedSet A = JsMap Hash A

unfoldable pub size : {A : Type 0} → HashedSet A → ℕ
size s = length s

unfoldable pub has_by_hash : {A : Type 0} → Hash → HashedSet A → Bool
has_by_hash h s = Map.has h s

unfoldable pub remove_by_hash : {A : Type 0} → Hash → HashedSet A → HashedSet A × Bool
remove_by_hash h s = (Map.delete h s, Map.has h s)

unfoldable pub get : {A : Type 0} → Hash → HashedSet A → Option A
get h s = Map.get h s

unfoldable pub values : {A : Type 0} → HashedSet A → List A
values s = Map.values s

module _ {A : Type 0} (hash_element : A → Hash) where
  -- `add(element)`, where the hash is not given.
  unfoldable pub add : A → HashedSet A → HashedSet A
  add a s = Map.set (hash_element a) a s

  unfoldable pub remove : A → HashedSet A → HashedSet A
  unfolding remove_by_hash
  remove a s = (remove_by_hash (hash_element a) s).0

  unfoldable pub has : A → HashedSet A → Bool
  unfolding has_by_hash
  has a s = has_by_hash (hash_element a) s

  -- `new HashedSet(init)`.
  unfoldable pub add_all : List A → HashedSet A → HashedSet A
  unfolding add
  add_all [] s = s
  add_all (a ∷ xs) s = add_all xs (add a s)

  pub has_by_hash-add :
      (j : Hash) (a : A) (s : HashedSet A)
      → has_by_hash j (add a s) ≡ ite (same (hash_element a) j) true (has_by_hash j s)
  unfolding has_by_hash add
  has_by_hash-add j a s = ground (arith, Map.get-set j (hash_element a) a s)

  pub has_by_hash-remove :
      (j : Hash) (a : A) (s : HashedSet A)
      → has_by_hash j (remove a s) ≡ ite (same (hash_element a) j) false (has_by_hash j s)
  unfolding has_by_hash remove
  has_by_hash-remove j a s = ground (arith, Map.get-delete j (hash_element a) s)

-- The loop of `equals`, over two lists of one length.
unfoldable pub same_hashes : List Hash → List Hash → Bool
same_hashes [] ys = true
same_hashes (x ∷ xs) [] = true
same_hashes (x ∷ xs) (y ∷ ys) = let rest = same_hashes xs ys in ite (same x y) rest false

module _ {A : Type 0} where
  -- The hashes of the elements in the order of the runtime's `sort`, a parameter.
  unfoldable pub sorted_hashes : (List Hash → List Hash) → HashedSet A → List Hash
  sorted_hashes sort s = sort (Map.keys s)

  unfoldable pub equals : (List Hash → List Hash) → HashedSet A → HashedSet A → Bool
  unfolding sorted_hashes same_hashes
  equals sort s t =
      (length (sorted_hashes sort s) == length (sorted_hashes sort t))
      && same_hashes (sorted_hashes sort s) (sorted_hashes sort t)

module _ {A : Type 0} where
  pub has_by_hash_of_empty : (j : Hash) (s : HashedSet A) → size s ≡ 0 → has_by_hash j s ≡ false
  unfolding size has_by_hash Map.get
  has_by_hash_of_empty j [] h = refl
  has_by_hash_of_empty j (e ∷ s) h = ground arith

  pub some_hash : (s : HashedSet A) → (size s == 0) ≡ false → (j : Hash) × (has_by_hash j s ≡ true)
  unfolding size has_by_hash Map.get
  some_hash [] h = cc
  some_hash ((j, a) ∷ s) h = (j, ground arith)

  pub eq-nil_of_size : (s : HashedSet A) → size s ≡ 0 → s ≡ []
  unfolding size
  eq-nil_of_size [] h = refl
  eq-nil_of_size (e ∷ s) h = ground arith

  pub remove-nil : (hash_element : A → Hash) (a : A) → remove hash_element a [] ≡ []
  unfolding remove Map.delete
  remove-nil hash_element a = refl

  pub size-add_ne :
      (hash_element : A → Hash) (a : A) (s : HashedSet A) → size (add hash_element a s) ≢ 0
  size-add_ne hash_element a s h = ground (
    arith,
    has_by_hash-add hash_element (hash_element a) a s,
    has_by_hash_of_empty (hash_element a) (add hash_element a s) h,
  )

pub size-nil : (A : Type 0) → size {A = A} [] ≡ 0
unfolding size
size-nil A = refl
