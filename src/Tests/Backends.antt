-- ===== src/Tests/Backends.antt =====
-- The theorems on src/storage at concrete inputs.
use Prim.Native.Nat.{min}
use mathlib.Core.List.{reverse}
use hyperhyperspace_core.Prelude.{
  ◌≡◌, ◌≤◌, ◌++◌, ◌+◌, ◌&&◌, not, String, Hash, true, List, [], ◌∷◌, none, some, refl, arith, ite,
  same, string_key, string_discrete, length, map, drop,
}
use hyperhyperspace_core.Js.Map
use hyperhyperspace_core.Js.Map.{JsMap}
use hyperhyperspace_core.Js.Set
use hyperhyperspace_core.Util.MultiMap
use hyperhyperspace_core.History.Header.{OpHeader}
use hyperhyperspace_core.Storage.MemoryBackend.{
  Literal, OpFields, empty, store, load, search_by_index, literal_at, asc, desc, at_or,
}
use hyperhyperspace_core.Storage.MemoryBackend.Stores.{load-store, terminal-store}
use hyperhyperspace_core.Storage.MemoryBackend.Search.{page, search_page, search_reverses_index}

abbrev fields : OpFields
fields = record { target_object = "m"; prev_ops = "o1" ∷ [] }

abbrev literal : Literal
literal = record {
  hash = "o2";
  class_name = "Op";
  dependencies = record { path = "target"; hash = "m"; class_name = "Op" } ∷ [];
  op = some fields;
}

abbrev header : OpHeader
header = record {
  header_hash = "h2";
  header_props = [];
  op_hash = "o2";
  prev_op_headers = "h1" ∷ [];
  height = 2;
  size = 2;
}

load-store_example :
    load "o2" (store literal (some header) "0" empty).0
    ≡ ite (same {K = String} "o2" "o2") (some (literal, length empty.objects)) (load "o2" empty)
load-store_example = load-store "o2" literal (some header) "0" empty

terminal-store_example :
    MultiMap.has "m" "o1" (store literal (some header) "0" empty).0.terminal_ops
    ≡ ite
        (same {K = String} "m" "m")
        (ite
          (same {K = String} "o2" "o1")
          true
          (MultiMap.has "m" "o1" empty.terminal_ops && not (Set.has "o1" fields.prev_ops)))
        (MultiMap.has "m" "o1" empty.terminal_ops)
terminal-store_example = terminal-store "m" "o1" literal fields header "0" empty refl

abbrev hashes : List Hash
hashes = "o1" ∷ "o2" ∷ "o3" ∷ []

abbrev index : JsMap String (List Hash)
index = ("Op", hashes) ∷ []

index-get : Map.get "Op" index ≡ some hashes
unfolding Map.get string_discrete
index-get = refl

search_page_example :
    let (after, found) = search_by_index "Op" index (page empty "Op" asc (some 1) (some 1)) empty in
    (length found.items ≤ 1)
    × (found.items ++ map (literal_at empty) (drop (at_or 0 found.end) hashes)
        ≡ map (literal_at empty) (drop 1 hashes))
    × (found.end ≡ some (min (1 + 1) (length hashes)))
    × (Map.get "Op" after ≡ some hashes)
search_page_example = search_page empty "Op" index hashes 1 1 index-get (omega arith)

search_reverses_index_example :
    let after = (search_by_index "Op" index (page empty "Op" desc none none) empty).0 in
    (search_by_index "Op" after (page empty "Op" asc none none) empty).1.items
    ≡ map (literal_at empty) (reverse hashes)
search_reverses_index_example =
    search_reverses_index empty "Op" index hashes index-get (omega arith)
