-- ===== src/Collections/GrowOnlySet.antt =====
-- src/data/collections/mutable/GrowOnlySet.ts: a set to which elements are added only. The hash of an
-- element is a parameter, and so is whether it is an object or a pure literal.
use hyperhyperspace_core.Prelude.{
  ℕ, Hash, Bool, true, false, List, [], ◌∷◌, Option, none, some, if◌then◌else◌, ◌≡◌, arith,
  string_key, Result, ok, throws, ite, same, any, any-perm, ◌||◌, not, ap,
}
use mathlib.Core.List.{Perm}
use hyperhyperspace_core.Js.Map
use hyperhyperspace_core.Js.Map.{JsMap}
use hyperhyperspace_core.Js.Set
use hyperhyperspace_core.Model.HashedSet

pub data Event (T : Type 0) : Type 0 where
  add_object : T → Event T
  add_element : T → Event T

pub data AddError : Type 0 where
  not_an_element not_a_writer no_author : AddError

pub record GrowOnlySet (T : Type 0) : Type 0 where
  pub elements : JsMap Hash T

unfoldable pub empty : {T : Type 0} → GrowOnlySet T
empty = record { elements = [] }

unfoldable pub has_by_hash : {T : Type 0} → Hash → GrowOnlySet T → Bool
has_by_hash h s = Map.has h s.elements

unfoldable pub size : {T : Type 0} → GrowOnlySet T → ℕ
size s = HashedSet.size s.elements

-- The tests of `add` on the author against the writers, by their hashes.
unfoldable pub check_author : Option (List Hash) → Option Hash → Result AddError Bool
check_author none author = ok true
check_author (some writers) none = throws no_author
check_author (some writers) (some author) =
    if Set.has author writers then ok true else throws not_a_writer

module _ {T : Type 0} (hash_element : T → Hash) (is_object is_literal : T → Bool) where
  unfoldable pub has : T → GrowOnlySet T → Bool
  unfolding has_by_hash
  has e s = has_by_hash (hash_element e) s

  -- The state, whether the operation changed it, and the events.
  unfoldable pub mutate : T → GrowOnlySet T → GrowOnlySet T × Bool × List (Event T)
  mutate e s = if Map.has (hash_element e) s.elements then (s, false, []) else (
    record { elements = Map.set (hash_element e) e s.elements },
    true,
    if is_object e then add_object e ∷ add_element e ∷ [] else add_element e ∷ [],
  )

  -- The element of the operation that `add` applies, if it applies one.
  unfoldable pub add :
      Option (List Hash) → T → Option Hash → GrowOnlySet T → Result AddError (Option T)
  unfolding has check_author
  add writers e author s =
      if not (is_object e)
      then (if not (is_literal e) then throws not_an_element else checked)
      else checked
    where
      checked : Result AddError (Option T)
      checked =
          if has e s
          then ok none
          else elim (check_author writers author) [ ok b ↦ ok (some e) | throws x ↦ throws x ]

  unfoldable pub run : List T → GrowOnlySet T → GrowOnlySet T
  unfolding mutate
  run [] s = s
  run (e ∷ es) s = run es (mutate e s).0

  abbrev pub is_of : Hash → T → Bool
  is_of x e = ite (same (hash_element e) x) true false

  has_by_hash-mutate :
      (x : Hash) (e : T) (s : GrowOnlySet T)
      → has_by_hash x (mutate e s).0 ≡ (has_by_hash x s || is_of x e)
  unfolding mutate has_by_hash
  has_by_hash-mutate x e s = ground (
    arith,
    Map.get-set x (hash_element e) e s.elements,
    ap (λ y. Map.has y s.elements) {x = hash_element e} {y = x},
  )

  -- After any additions, the members are those that were there and those that were added.
  pub has_by_hash-run :
      (x : Hash) (es : List T) (s : GrowOnlySet T)
      → has_by_hash x (run es s) ≡ (has_by_hash x s || any (is_of x) es)
  unfolding run
  has_by_hash-run x [] s = ground arith
  has_by_hash-run x (e ∷ es) s =
      ground (arith, has_by_hash-run x es (mutate e s).0, has_by_hash-mutate x e s)

  -- Replicas of a grow-only set that apply the same additions in any two orders have the same
  -- members.
  pub additions_commute :
      (x : Hash) (es es' : List T) (s : GrowOnlySet T)
      → Perm es es'
      → has_by_hash x (run es s) ≡ has_by_hash x (run es' s)
  additions_commute x es es' s p =
      ground (arith, has_by_hash-run x es s, has_by_hash-run x es' s, any-perm (is_of x) p)
