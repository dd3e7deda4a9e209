-- ===== src/Js/Map.antt =====
-- `Map` of the language's runtime: its entries in the order of their insertion.
use hyperhyperspace_core.Prelude.{
  suc, ◌≡◌, refl, Bool, true, false, List, [], ◌∷◌, ◌++◌, arith, ite, Key, same, length, Option,
  none, some, map, if◌then◌else◌,
}

abbrev pub JsMap : Type 0 → Type 0 → Type 0
JsMap K V = List (K × V)

abbrev pub is_some : {V : Type 0} → Option V → Bool
is_some none = false
is_some (some v) = true

module _ {K V : Type 0} ⦃key : Key K⦄ where
  unfoldable pub get : K → JsMap K V → Option V
  get k [] = none
  get k ((j, v) ∷ m) = ite (same j k) (some v) (get k m)

  abbrev pub has : K → JsMap K V → Bool
  has k m = is_some (get k m)

  -- A key that is there keeps its place.
  unfoldable pub set : K → V → JsMap K V → JsMap K V
  set k v [] = (k, v) ∷ []
  set k v ((j, w) ∷ m) = let rest = set k v m in ite (same j k) ((k, v) ∷ m) ((j, w) ∷ rest)

  unfoldable pub delete : K → JsMap K V → JsMap K V
  delete k [] = []
  delete k ((j, w) ∷ m) = let rest = delete k m in ite (same j k) rest ((j, w) ∷ rest)

  abbrev pub keys : JsMap K V → List K
  keys = map (λ e. e.0)

  abbrev pub values : JsMap K V → List V
  values = map (λ e. e.1)

  -- No key stands twice, as the runtime guarantees.
  abbrev pub IsDistinct : JsMap K V → Type 0
  IsDistinct [] = Unit
  IsDistinct ((k, v) ∷ m) = (get k m ≡ none) × IsDistinct m

  pub get-set :
      (j k : K) (v : V) (m : JsMap K V) → get j (set k v m) ≡ ite (same k j) (some v) (get j m)
  unfolding get set
  get-set j k v [] = refl
  get-set j k v ((i, w) ∷ m) = ground (arith, get-set j k v m)

  pub get-delete : (j k : K) (m : JsMap K V) → get j (delete k m) ≡ ite (same k j) none (get j m)
  unfolding get delete
  get-delete j k [] = ground arith
  get-delete j k ((i, w) ∷ m) = ground (arith, get-delete j k m)

  pub delete-IsDistinct : (k : K) (m : JsMap K V) → IsDistinct m → IsDistinct (delete k m)
  unfolding delete
  delete-IsDistinct k [] d = tt
  delete-IsDistinct k ((i, w) ∷ m) d = ground (arith, delete-IsDistinct k m d.1, get-delete i k m)

  pub set-IsDistinct : (k : K) (v : V) (m : JsMap K V) → IsDistinct m → IsDistinct (set k v m)
  unfolding get set
  set-IsDistinct k v [] d = (refl, tt)
  set-IsDistinct k v ((i, w) ∷ m) d = ground (arith, set-IsDistinct k v m d.1, get-set i k v m)

  pub delete_absent : (k : K) (m : JsMap K V) → get k m ≡ none → delete k m ≡ m
  unfolding get delete
  delete_absent k [] h = refl
  delete_absent k ((i, w) ∷ m) h = ground (arith, delete_absent k m)

  pub set_absent : (k : K) (v : V) (m : JsMap K V) → get k m ≡ none → set k v m ≡ m ++ ((k, v) ∷ [])
  unfolding get set
  set_absent k v [] h = refl
  set_absent k v ((i, w) ∷ m) h = ground (arith, set_absent k v m)

  pub set_same : (k : K) (v : V) (m : JsMap K V) → get k m ≡ some v → set k v m ≡ m
  unfolding get set
  set_same k v [] h = cc
  set_same k v ((i, w) ∷ m) h = ground (arith, set_same k v m)

  pub get-nil : (k : K) → get k [] ≡ none
  unfolding get
  get-nil k = refl

  pub length-set :
      (k : K) (v : V) (m : JsMap K V)
      → length (set k v m) ≡ (if has k m then length m else suc (length m))
  unfolding get set
  length-set k v [] = refl
  length-set k v ((i, w) ∷ m) = ground (arith, length-set k v m)

  pub length-delete :
      (k : K) (m : JsMap K V)
      → IsDistinct m
      → length m ≡ (if has k m then suc (length (delete k m)) else length (delete k m))
  unfolding get delete
  length-delete k [] d = refl
  length-delete k ((i, w) ∷ m) d = ground (arith, length-delete k m d.1, delete_absent k m)

-- `Object.keys(m)`: a `Map` keeps its entries apart from its properties, of which it has none.
unfoldable pub own_keys : {K V : Type 0} → JsMap K V → List K
own_keys m = []
