-- ===== src/Tests/Utilities.antt =====
-- The theorems on src/util at concrete inputs.
use native.Mathlib.Decide.{ℕ_discrete}
use hyperhyperspace_core.Prelude.{
  ◌≡◌, ◌≤◌, ◌++◌, ℕ, String, true, List, [], ◌∷◌, some, refl, arith, ok, string_key, nat_key, inl,
  All, length,
}
use hyperhyperspace_core.Js.Map
use hyperhyperspace_core.Util.Ordinals.{between, midpoint}
use hyperhyperspace_core.Util.Ordinals.Order.{Lt, IsOrdinal}
use hyperhyperspace_core.Util.Ordinals.Suffix.{text}
use hyperhyperspace_core.Util.Ordinals.Between.{Below, between_within, between_equal}
use hyperhyperspace_core.Util.MultiMap
use hyperhyperspace_core.Util.MultiMap.{MultiMap}
use hyperhyperspace_core.Util.MultiMap.Size.{IsCounted, empty-IsCounted, add-IsCounted}
use hyperhyperspace_core.Util.LruCache
use hyperhyperspace_core.Util.LruCache.{LruCache}
use hyperhyperspace_core.Util.LruCache.Recency.{IsBounded, set-IsBounded}
use hyperhyperspace_core.Util.Queue.{Queue}
use hyperhyperspace_core.Util.Strings.{chunk, unchunk, unchunk-chunk}
use hyperhyperspace_core.Util.ArrayMap.{ArrayMap}
use hyperhyperspace_core.Util.ArrayMap.Count.{IsTotal}

between_within_example :
    (s : List ℕ) × (between (some (b'b' ∷ [])) (some (b'c' ∷ [])) ≡ some (ok s))
    × Lt (text (some (b'b' ∷ []))) s
    × Below s (some (b'c' ∷ []))
    × IsOrdinal s
between_within_example =
    between_within (some (b'b' ∷ [])) (some (b'c' ∷ []))
      ((omega arith, omega arith), (omega arith, omega arith), inl (omega arith))

between_equal_example :
    (between (some (b'b' ∷ [])) (some (b'b' ∷ [])) ≡ some (ok ((b'b' ∷ []) ++ (midpoint ∷ []))))
    × (¬ Lt ((b'b' ∷ []) ++ (midpoint ∷ [])) (b'b' ∷ []))
between_equal_example = between_equal (b'b' ∷ [])

abbrev nothing : MultiMap String ℕ
nothing = MultiMap.empty

unfoldable pairs : MultiMap String ℕ
pairs = MultiMap.add "a" 2 (MultiMap.add "a" 1 nothing)

pairs-IsCounted : IsCounted pairs
unfolding pairs
pairs-IsCounted =
    add-IsCounted "a" 2 (MultiMap.add "a" 1 nothing) (add-IsCounted "a" 1 nothing empty-IsCounted)

abbrev cache : LruCache ℕ ℕ
cache = record { capacity = 2; contents = (1, 10) ∷ (2, 20) ∷ [] }

cache-IsBounded : IsBounded cache
unfolding Map.get ℕ_discrete
cache-IsBounded = record {
  positive = omega arith;
  bounded = omega arith;
  distinct = (refl, (refl, tt));
}

set-IsBounded_example : IsBounded (LruCache.set 3 30 cache).0
set-IsBounded_example = set-IsBounded 3 30 cache cache-IsBounded

abbrev waiting : Queue ℕ
waiting = record { contents = 1 ∷ [] }

unchunk-chunk_example :
    (cs : List (List ℕ)) × (chunk (1 ∷ 2 ∷ 3 ∷ []) 2 ≡ some cs)
    × (unchunk cs ≡ 1 ∷ 2 ∷ 3 ∷ [])
    × All (λ c. length c ≤ 2) cs
unchunk-chunk_example = unchunk-chunk (1 ∷ 2 ∷ 3 ∷ []) 2 (omega arith)

abbrev arrays : ArrayMap ℕ ℕ
arrays = record { sorted = true; inner = (1, 5 ∷ 6 ∷ []) ∷ []; size = 2 }

arrays-IsTotal : IsTotal arrays
unfolding Map.get ℕ_discrete
arrays-IsTotal = record { distinct = (refl, tt); counted = refl }
