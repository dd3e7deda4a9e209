-- ===== src/Model/MutableObject/Validity.antt =====
-- When an operation is valid for an object of src/data/model/mutable/MutableObject.ts.
use hyperhyperspace_core.Prelude.{
  Hash, true, false, [], ◌∷◌, ◌≡◌, refl, string_key, arith, Bool-cases, inl, inr, sym, ◌∙◌, ◌==◌,
}
use hyperhyperspace_core.Js.Set
use hyperhyperspace_core.Js.Set.{JsSet}
use hyperhyperspace_core.Util.MultiMap
use hyperhyperspace_core.Util.MultiMap.Laws
use hyperhyperspace_core.Model.MutableObject.{MutableObject, is_valid_op}

-- A set without members has size zero.
empty_of_has : (s : JsSet Hash) → ((h : Hash) → Set.has h s ≡ false) → (Set.size s == 0) ≡ true
empty_of_has [] f = refl
empty_of_has (h ∷ s) f = ground (arith, f h, Set.has-head h s)

module _ {T S : Type 0} where
  pub has_of_valid :
      (t u : Hash) (s : MutableObject T S)
      → is_valid_op t s ≡ true
      → MultiMap.has t u s.active_casc_invs_per_op ≡ false
  unfolding is_valid_op
  has_of_valid t u s e =
      Laws.has-get t u s.active_casc_invs_per_op
      ∙ Set.has_of_empty u (MultiMap.get t s.active_casc_invs_per_op) (ground arith)

  pub valid_of_has :
      (t : Hash) (s : MutableObject T S)
      → ((u : Hash) → MultiMap.has t u s.active_casc_invs_per_op ≡ false)
      → is_valid_op t s ≡ true
  unfolding is_valid_op
  valid_of_has t s f =
      empty_of_has (MultiMap.get t s.active_casc_invs_per_op)
        (λ u. sym (Laws.has-get t u s.active_casc_invs_per_op) ∙ f u)

  -- Objects with the same active undos of an operation agree on whether it is valid.
  pub is_valid_op_agree :
      (t : Hash) (s : MutableObject T S) (s' : MutableObject T S)
      → ((u : Hash)
          → MultiMap.has t u s.active_casc_invs_per_op
            ≡ MultiMap.has t u s'.active_casc_invs_per_op)
      → is_valid_op t s ≡ is_valid_op t s'
  is_valid_op_agree t s s' f = elim (Bool-cases (is_valid_op t s)) [
    | inl e ↦ e ∙ sym (valid_of_has t s' (λ u. sym (f u) ∙ has_of_valid t u s e))
    | inr e ↦ elim (Bool-cases (is_valid_op t s')) [
      | inl g ↦ valid_of_has t s (λ u. f u ∙ has_of_valid t u s' g) ∙ sym g
      | inr g ↦ e ∙ sym g
    ]
  ]
