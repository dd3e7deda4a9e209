-- ===== src/History/Header.antt =====
-- src/data/history/OpHeader.ts: the header of an operation. The hash of a value, `Hashing.forValue`,
-- of which the header's `hash` gives it one, and the runtime's `sort` are parameters. Values have the
-- types that the source declares, so of the checks of a literal's format those on its types pass. The
-- properties of a literal, a plain object in the source, are the list of its entries, in their order.
pub mod Sizes
pub mod Literals
use hyperhyperspace_core.Prelude.{
  ℕ, suc, ◌+◌, String, Hash, Bool, true, false, List, [], ◌∷◌, Option, none, some, ite, same, ltb,
  not, if◌then◌else◌, Result, ok, throws, ◌>>=◌, string_key, ◌==◌, ◌&&◌,
}
use hyperhyperspace_core.Js.Map
use hyperhyperspace_core.Js.Map.{JsMap}
use hyperhyperspace_core.Js.Set
use hyperhyperspace_core.Js.Set.{JsSet}
use hyperhyperspace_core.Util.MultiMap.{copy_set}
use hyperhyperspace_core.Model.HashedSet
use hyperhyperspace_core.Model.HashedMap

-- `string | number`.
pub data PropValue : Type 0 where
  text : String → PropValue
  number : ℕ → PropValue

abbrev pub Props : Type 0
Props = JsMap String PropValue

pub record OpHeader : Type 0 where
  pub header_hash : Hash
  pub header_props : Props
  pub op_hash : Hash
  pub prev_op_headers : JsSet Hash
  pub height : ℕ
  pub size : ℕ

pub record HeaderLiteral : Type 0 where
  pub header_hash : Hash
  pub header_props : Option Props
  pub op_hash : Hash
  pub prev_op_headers : List Hash
  pub computed_height : ℕ
  pub computed_size : ℕ

-- The value that `hash` gives to `Hashing.forValue`.
pub record Digest : Type 0 where
  pub op_hash : Hash
  pub history : List Hash
  pub props : Props
  pub height : ℕ
  pub size : ℕ

-- What the header reads of an operation. `header_props` is the method `getHeaderProps`, which
-- subclasses override.
pub record MutationOp : Type 0 where
  pub last_hash : Hash
  pub prev_ops : Option (List Hash)
  pub header_props : JsMap Hash OpHeader → Props

pub data HeaderError : Type 0 where
  prev_op_headers_mandatory no_prev_ops empty_props wrong_hash : HeaderError
  missing_header : Hash → HeaderError

-- The loop of `computeProps`, from the height and the size so far.
unfoldable pub compute_from : ℕ → ℕ → List OpHeader → ℕ × ℕ
compute_from height size [] = (height, size)
compute_from height size (h ∷ hs) =
    compute_from (if ltb height (h.height + 1) then h.height + 1 else height) (size + h.size) hs

unfoldable pub compute_props : JsMap Hash OpHeader → ℕ × ℕ
unfolding compute_from
compute_props prev = compute_from 1 1 (Map.values prev)

-- The loop of the constructor over the previous operations.
unfoldable pub collect_headers :
    List Hash → JsMap Hash OpHeader → JsSet Hash → Result HeaderError (JsSet Hash)
collect_headers [] prev acc = ok acc
collect_headers (p ∷ ps) prev acc = elim (Map.get p prev) [
  | none ↦ throws (missing_header p)
  | some h ↦ collect_headers ps prev (Set.add h.header_hash acc)
]

-- The loop of `hash` over `Object.keys` of the properties.
unfoldable pub select_props : List String → Props → Props → Props
select_props [] props acc = acc
select_props (k ∷ ks) props acc = elim (Map.get k props) [
  | none ↦ select_props ks props acc
  | some v ↦ select_props ks props (Map.set k v acc)
]

-- The loop of the constructor over the properties of a literal.
unfoldable pub copy_props : List (String × PropValue) → Props → Props
copy_props [] acc = acc
copy_props ((k, v) ∷ ps) acc = copy_props ps (Map.set k v acc)

unfoldable pub literal_props : Option Props → Props
unfolding copy_props
literal_props none = []
literal_props (some ps) = copy_props ps []

unfoldable pub check_literal_format : HeaderLiteral → Result HeaderError Bool
check_literal_format l = elim l.header_props [
  | none ↦ ok true
  | some [] ↦ throws empty_props
  | some (p ∷ ps) ↦ ok true
]

module _ (hash_value : Digest → Hash) (sort : List Hash → List Hash) where
  -- `Object.keys` of a `Map` is empty, since the entries of a `Map` are not its properties.
  unfoldable pub hash : OpHeader → Hash
  unfolding select_props
  hash h = hash_value (record {
    op_hash = h.op_hash;
    history = sort h.prev_op_headers;
    props = select_props (Map.own_keys h.header_props) h.header_props [];
    height = h.height;
    size = h.size;
  })

  -- The constructor, for an operation.
  unfoldable pub from_op : MutationOp → Option (JsMap Hash OpHeader) → Result HeaderError OpHeader
  unfolding collect_headers compute_props hash
  from_op op none = throws prev_op_headers_mandatory
  from_op op (some prev) = elim op.prev_ops [
    | none ↦ throws no_prev_ops
    | some refs ↦ elim (collect_headers refs prev []) [
      | throws e ↦ throws e
      | ok headers ↦
          let computed = compute_props prev in
          let bare : OpHeader = record {
            header_hash = "";
            header_props = op.header_props prev;
            op_hash = op.last_hash;
            prev_op_headers = headers;
            height = computed.0;
            size = computed.1;
          } in
          ok (record bare { header_hash = hash bare })
    ]
  ]

  -- The constructor, for a literal.
  unfoldable pub from_literal : HeaderLiteral → Result HeaderError OpHeader
  unfolding check_literal_format hash literal_props copy_set
  from_literal l = elim (check_literal_format l) [
    | throws e ↦ throws e
    | ok checked ↦
        let header : OpHeader = record {
          header_hash = l.header_hash;
          header_props = literal_props l.header_props;
          op_hash = l.op_hash;
          prev_op_headers = copy_set l.prev_op_headers [];
          height = l.computed_height;
          size = l.computed_size;
        } in
        ite (same (hash header) l.header_hash) (ok header) (throws wrong_hash)
  ]

  unfoldable pub literalize : OpHeader → HeaderLiteral
  literalize h = record {
    header_hash = h.header_hash;
    header_props = elim h.header_props [ [] ↦ none | p ∷ ps ↦ some (p ∷ ps) ];
    op_hash = h.op_hash;
    prev_op_headers = sort h.prev_op_headers;
    computed_height = h.height;
    computed_size = h.size;
  }

-- The loop of `verifyOpMatch` over the previous operations; none where a header is missing.
unfoldable pub received_headers :
    (Hash → Hash)
    → List Hash
    → JsMap Hash OpHeader
    → HashedSet.HashedSet Hash
    → Option (HashedSet.HashedSet Hash)
received_headers hash_text [] prev acc = some acc
received_headers hash_text (p ∷ ps) prev acc = elim (Map.get p prev) [
  | none ↦ none
  | some h ↦ received_headers hash_text ps prev (HashedSet.add hash_text h.header_hash acc)
]

abbrev pub refs_or_none : Option (List Hash) → List Hash
refs_or_none none = []
refs_or_none (some refs) = refs

-- `hash_text` and `hash_prop` are `HashedObject.hashElement` for a text and for a property.
module _ (hash_text : Hash → Hash) (hash_prop : PropValue → Hash)
    (sort : List Hash → List Hash) where
  abbrev pub same_props : Props → Props → Bool
  same_props ps qs =
      HashedMap.equals sort (HashedMap.from_entries hash_prop ps HashedMap.empty)
        (HashedMap.from_entries hash_prop qs HashedMap.empty)

  -- An operation without `prevOps`, on which the source fails, counts as one with none here.
  unfoldable pub verify_op_match : MutationOp → JsMap Hash OpHeader → OpHeader → Bool
  unfolding received_headers compute_props
  verify_op_match op prev h =
      ite (same op.last_hash h.op_hash)
        (if same_props (op.header_props prev) h.header_props
          then elim (received_headers hash_text (refs_or_none op.prev_ops) prev []) [
            | none ↦ false
            | some received ↦
                let computed = compute_props prev in
                HashedSet.equals sort received (HashedSet.add_all hash_text h.prev_op_headers [])
                && ((computed.1 == h.size) && (computed.0 == h.height))
          ]
          else false)
        false
