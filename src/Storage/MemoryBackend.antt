-- ===== src/Storage/MemoryBackend.antt =====
-- src/storage/backends/MemoryBackend.ts: literals, indices and operation headers in memory. A method
-- returns the new representation; the time of day is an argument. The string of a position in an
-- index, its 16 hexadecimal digits, is the position. An index is kept twice, as a set for each key
-- and in the order of storing; the two stand together in one record here.
pub mod Stores
pub mod Search
use Prim.Native.String
use Prim.Native.Nat.{min}
use mathlib.Core.List.{reverse}
use hyperhyperspace_core.Prelude.{
  ℕ, ◌+◌, ◌-◌, Hash, String, Bool, true, false, List, [], ◌∷◌, ◌++◌, Option, none, some,
  if◌then◌else◌, leb, string_key, Result, ok, throws, length, take, drop, map, ite, same,
}
use hyperhyperspace_core.Js.Map
use hyperhyperspace_core.Js.Map.{JsMap}
use hyperhyperspace_core.Js.Set.{JsSet}
use hyperhyperspace_core.Util.MultiMap
use hyperhyperspace_core.Util.MultiMap.{MultiMap}
use hyperhyperspace_core.History.Header.{OpHeader}

pub record Dependency : Type 0 where
  pub path : String
  pub hash : Hash
  pub class_name : String

-- The fields of an operation's literal that the backend reads.
pub record OpFields : Type 0 where
  pub target_object : Hash
  pub prev_ops : List Hash

-- A literal; `op` is there if its flags hold 'op'.
pub record Literal : Type 0 where
  pub hash : Hash
  pub class_name : String
  pub dependencies : List Dependency
  pub op : Option OpFields

pub record Stored : Type 0 where
  pub literal : Literal
  pub timestamp : String
  pub sequence : ℕ

pub record Index : Type 0 where
  pub members : MultiMap String Hash
  pub sorted : JsMap String (List Hash)

pub record StateCheckpoint : Type 0 where
  pub mutable_object : Hash
  pub exported_state : Option String

pub record MemoryRepr : Type 0 where
  pub objects : JsMap Hash Stored
  pub class_index : Index
  pub reference_index : Index
  pub referencing_class_index : Index
  pub terminal_ops : MultiMap Hash Hash
  pub last_ops : JsMap Hash Hash
  pub op_causal_histories : JsMap Hash OpHeader
  pub op_causal_histories_by_hash : JsMap Hash OpHeader
  pub checkpoints : JsMap Hash StateCheckpoint

unfoldable pub no_entries : Index
no_entries = record { members = MultiMap.empty; sorted = [] }

unfoldable pub empty : MemoryRepr
unfolding no_entries
empty = record {
  objects = [];
  class_index = no_entries;
  reference_index = no_entries;
  referencing_class_index = no_entries;
  terminal_ops = MultiMap.empty;
  last_ops = [];
  op_causal_histories = [];
  op_causal_histories_by_hash = [];
  checkpoints = [];
}

abbrev pub entries_of : Option (List Hash) → List Hash
entries_of none = []
entries_of (some hashes) = hashes

-- A hash goes to the end of its key's entries, once.
unfoldable pub index_under : String → Hash → Index → Index
index_under key hash i = if MultiMap.has key hash i.members then i else record {
  members = MultiMap.add key hash i.members;
  sorted = Map.set key (entries_of (Map.get key i.sorted) ++ (hash ∷ [])) i.sorted;
}

abbrev pub reference_key : String → Hash → String
reference_key path hash = String.◌++◌ path (String.◌++◌ "#" hash)

abbrev pub referencing_key : String → String → Hash → String
referencing_key class_name path hash =
    String.◌++◌ class_name (String.◌++◌ "." (String.◌++◌ path (String.◌++◌ "#" hash)))

unfoldable pub index_dependencies : Hash → List Dependency → MemoryRepr → MemoryRepr
unfolding index_under
index_dependencies hash [] r = r
index_dependencies hash (d ∷ ds) r = index_dependencies hash ds (record r {
  reference_index = index_under (reference_key d.path d.hash) hash r.reference_index;
  referencing_class_index =
      index_under (referencing_key d.class_name d.path d.hash) hash r.referencing_class_index;
})

-- What `store` does for any literal.
unfoldable pub store_object : Literal → String → MemoryRepr → MemoryRepr
unfolding index_under index_dependencies
store_object l now r = index_dependencies l.hash l.dependencies (record r {
  objects =
      Map.set l.hash (record { literal = l; timestamp = now; sequence = length r.objects })
        r.objects;
  class_index = index_under l.class_name l.hash r.class_index;
})

unfoldable pub drop_prev_ops : Hash → List Hash → MultiMap Hash Hash → MultiMap Hash Hash
drop_prev_ops target [] m = m
drop_prev_ops target (p ∷ ps) m = drop_prev_ops target ps (MultiMap.delete target p m).0

-- What `store` does for an operation besides.
unfoldable pub store_op : Hash → OpFields → OpHeader → MemoryRepr → MemoryRepr
unfolding drop_prev_ops
store_op hash op header r =
    let terminal = drop_prev_ops op.target_object op.prev_ops r.terminal_ops in
    let known = MultiMap.has op.target_object hash terminal in
    record r {
      op_causal_histories = Map.set hash header r.op_causal_histories;
      op_causal_histories_by_hash = Map.set header.header_hash header r.op_causal_histories_by_hash;
      terminal_ops = if known then terminal else MultiMap.add op.target_object hash terminal;
      last_ops = if known then r.last_ops else Map.set op.target_object hash r.last_ops;
    }

pub data StoreError : Type 0 where
  missing_causal_history : Hash → StoreError

-- The representation after the call, which an error does not undo, and the literal that the
-- callbacks of the registered instances are given.
unfoldable pub store :
    Literal → Option OpHeader → String → MemoryRepr → MemoryRepr × Result StoreError Literal
unfolding store_object store_op
store l history now r = elim l.op [
  | none ↦ (store_object l now r, ok l)
  | some op ↦ elim history [
    | none ↦ (store_object l now r, throws (missing_causal_history l.hash))
    | some header ↦ (store_op l.hash op header (store_object l now r), ok l)
  ]
]

unfoldable pub load : Hash → MemoryRepr → Option (Literal × ℕ)
load hash r = elim (Map.get hash r.objects) [ none ↦ none | some s ↦ some (s.literal, s.sequence) ]

unfoldable pub load_terminal_ops : Hash → MemoryRepr → Option (Hash × JsSet Hash)
load_terminal_ops target r = elim (Map.get target r.last_ops) [
  | none ↦ none
  | some last ↦ elim (MultiMap.get target r.terminal_ops) [
    | [] ↦ none
    | x ∷ xs ↦ some (last, x ∷ xs)
  ]
]

unfoldable pub load_op_header : Hash → MemoryRepr → Option OpHeader
load_op_header op_hash r = Map.get op_hash r.op_causal_histories

unfoldable pub load_op_header_by_header_hash : Hash → MemoryRepr → Option OpHeader
load_op_header_by_header_hash header_hash r = Map.get header_hash r.op_causal_histories_by_hash

unfoldable pub store_checkpoint : StateCheckpoint → MemoryRepr → MemoryRepr
store_checkpoint c r = record r { checkpoints = Map.set c.mutable_object c r.checkpoints }

unfoldable pub load_last_checkpoint : Hash → MemoryRepr → Option StateCheckpoint
load_last_checkpoint target r = Map.get target r.checkpoints

pub data SearchOrder : Type 0 where
  asc desc : SearchOrder

pub record Found : Type 0 where
  pub items : List (Option Literal)
  pub start : Option ℕ
  pub end : Option ℕ

abbrev pub at_or : ℕ → Option ℕ → ℕ
at_or d none = d
at_or d (some n) = n

abbrev pub upper : ℕ → ℕ → Option ℕ → ℕ
upper start len none = len
upper start len (some limit) = min (start + limit) len

abbrev pub arranged : SearchOrder → List Hash → List Hash
arranged asc hashes = hashes
arranged desc hashes = reverse hashes

unfoldable pub literal_at : MemoryRepr → Hash → Option Literal
literal_at r hash = elim (Map.get hash r.objects) [ none ↦ none | some s ↦ some s.literal ]

-- The segment of the entries that `searchByIndex` returns.
unfoldable pub segment : List Hash → Option ℕ → Option ℕ → List Hash
segment hashes start limit =
    let from = at_or 0 start in take (upper from (length hashes) limit - from) (drop from hashes)

-- `findIndexEntryForObject`: the first position of the object.
unfoldable pub position_of : Hash → List Hash → Option ℕ
position_of h [] = none
position_of h (x ∷ xs) =
    ite (same x h) (some 0) (elim (position_of h xs) [ none ↦ none | some n ↦ some (n + 1) ])

pub record SearchParams : Type 0 where
  pub order : SearchOrder
  pub start : Option ℕ
  pub start_on : Option Hash
  pub limit : Option ℕ

abbrev pub params_from : List Hash → SearchParams → SearchParams
params_from hashes p = elim p.start_on [
  | none ↦ p
  | some h ↦ record p { start = position_of h hashes }
]

-- The entries of the index after the search, and the result. A descending search reverses the array
-- that the index holds.
unfoldable pub search_by_index :
    String → JsMap String (List Hash) → SearchParams → MemoryRepr → JsMap String (List Hash) × Found
unfolding segment literal_at
search_by_index key sorted p r = elim (Map.get key sorted) [
  | none ↦ (sorted, record { items = []; start = none; end = none })
  | some hashes ↦
      let entries = arranged p.order hashes in
      let len = length entries in
      let from = at_or 0 p.start in
      (
        Map.set key entries sorted,
        if leb len from then record { items = []; start = some len; end = some len } else record {
          items = map (literal_at r) (segment entries p.start p.limit);
          start = some from;
          end = some (upper from len p.limit);
        },
      )
]

-- `searchByClass`; the searches by reference and by referencing class do the same with their index.
unfoldable pub search_by_class : String → SearchParams → MemoryRepr → MemoryRepr × Found
unfolding search_by_index position_of
search_by_class class_name p r =
    let sorted = r.class_index.sorted in
    let q = params_from (entries_of (Map.get class_name sorted)) p in
    let (sorted', found) = search_by_index class_name sorted q r in
    (record r { class_index = record { members = r.class_index.members; sorted = sorted' } }, found)

unfoldable pub search_by_reference : String → Hash → SearchParams → MemoryRepr → MemoryRepr × Found
unfolding search_by_index position_of
search_by_reference path hash p r =
    let sorted = r.reference_index.sorted in
    let key = reference_key path hash in
    let q = params_from (entries_of (Map.get key sorted)) p in
    let (sorted', found) = search_by_index key sorted q r in
    (
      record r {
        reference_index = record { members = r.reference_index.members; sorted = sorted' };
      },
      found,
    )

unfoldable pub search_by_referencing_class :
    String → String → Hash → SearchParams → MemoryRepr → MemoryRepr × Found
unfolding search_by_index position_of
search_by_referencing_class class_name path hash p r =
    let sorted = r.referencing_class_index.sorted in
    let key = referencing_key class_name path hash in
    let q = params_from (entries_of (Map.get key sorted)) p in
    let (sorted', found) = search_by_index key sorted q r in
    (
      record r {
        referencing_class_index = record {
          members = r.referencing_class_index.members;
          sorted = sorted';
        };
      },
      found,
    )
