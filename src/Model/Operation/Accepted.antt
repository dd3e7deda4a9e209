-- ===== src/Model/Operation/Accepted.antt =====
-- Which undos and redos of src/data/model/causal/CascadedInvalidateOp.ts are accepted.
use hyperhyperspace_core.Prelude.{
  refl, Hash, String, Bool, true, List, [], ◌∷◌, Option, none, some, not, ◌≡◌, refl, string_key,
  if◌then◌else◌, ok, arith, ◌∙◌, sym, ap, ◌↔◌, subst,
}
use hyperhyperspace_core.Js.Map
use hyperhyperspace_core.Js.Map.{JsMap}
use hyperhyperspace_core.Model.Operation.{
  cascaded_class_name, MutationOp, plain_op, invalidate_after_op, cascaded_op, Fields, TargetObject,
  Referenced, an_op, fields, is_cascaded, get_target_op, cause_key, validate, is_prev_op,
  are_prev_ops, another_object,
}
use hyperhyperspace_core.Model.Operation.Cascade.{
  are_just, is_absent, is_only_cause, is_undo, alternates, same_target_object, cause_ok, made,
  check_cause, construct, create, merited, validate_cascade,
}

is_absent_eq : (a : Option Hash) → is_absent a ≡ true → a ≡ none
is_absent_eq none h = refl
is_absent_eq (some a) h = cc

is_absent-none : (a : Option Hash) → a ≡ none → is_absent a ≡ true
is_absent-none a e = rw e refl

are_just-one : (h : Hash) (p : Option (List Hash)) → p ≡ some (h ∷ []) → are_just h p ≡ true
are_just-one h p e = rw e (ground arith)

is_only_cause-one :
    (h : Hash) (p : Option (JsMap String Hash))
    → p ≡ some ((cause_key, h) ∷ [])
    → is_only_cause h p ≡ true
unfolding Map.get
is_only_cause-one h p e = rw e (ground arith)

are_just_eq : (h : Hash) (p : Option (List Hash)) → are_just h p ≡ true → p ≡ some (h ∷ [])
are_just_eq h none e = cc
are_just_eq h (some []) e = cc
are_just_eq h (some (g ∷ [])) e = ground arith
are_just_eq h (some (g ∷ f ∷ hs)) e = cc

is_only_cause_eq :
    (h : Hash) (p : Option (JsMap String Hash))
    → is_only_cause h p ≡ true
    → p ≡ some ((cause_key, h) ∷ [])
unfolding Map.get
is_only_cause_eq h none e = cc
is_only_cause_eq h (some []) e = cc
is_only_cause_eq h (some ((k, g) ∷ [])) e = ground arith
is_only_cause_eq h (some ((k, g) ∷ x ∷ ops)) e = ground arith

fields_eq :
    (f g : Fields)
    → f.class_name ≡ g.class_name
    → f.author ≡ g.author
    → f.target_object ≡ g.target_object
    → f.prev_ops ≡ g.prev_ops
    → f.causal_ops ≡ g.causal_ops
    → f ≡ g
fields_eq f g a b c d e = cc

module _ {T : Type 0} (hash : MutationOp T → Hash) where
  undo_of_alternates :
      (undo : Bool) (target : MutationOp T)
      → alternates undo target ≡ true
      → (if is_cascaded target then not (is_undo target) else true) ≡ undo
  unfolding alternates
  undo_of_alternates undo (plain_op g x) a = sym a
  undo_of_alternates undo (invalidate_after_op g t) a = sym a
  undo_of_alternates undo (cascaded_op g u t c) a = ground arith

  alternates_of_undo :
      (undo : Bool) (target : MutationOp T)
      → (if is_cascaded target then not (is_undo target) else true) ≡ undo
      → alternates undo target ≡ true
  unfolding alternates
  alternates_of_undo undo (plain_op g x) a = sym a
  alternates_of_undo undo (invalidate_after_op g t) a = sym a
  alternates_of_undo undo (cascaded_op g u t c) a = ground arith

  construct-made :
      (undo : Bool) (target cause : MutationOp T)
      → merited hash target cause ≡ true
      → alternates undo target ≡ true
      → cause_ok (fields target).target_object undo target cause ≡ true
      → construct hash undo target cause ≡ ok (made hash undo target cause)
  unfolding construct cause_ok check_cause same_target_object get_target_op
  construct-made undo target (plain_op g x) m a c = cc
  construct-made undo target (invalidate_after_op g t) m a c = ground arith
  construct-made undo target (cascaded_op g u t d) m a c = ground arith

  construct_ok :
      (undo : Bool) (target cause op : MutationOp T)
      → construct hash undo target cause ≡ ok op
      → (merited hash target cause ≡ true)
        × (alternates undo target ≡ true)
        × (cause_ok (fields target).target_object undo target cause ≡ true)
        × (op ≡ made hash undo target cause)
  unfolding construct cause_ok check_cause same_target_object get_target_op
  construct_ok undo target (plain_op g x) op e = cc
  construct_ok undo target (invalidate_after_op g t) op e = ground arith
  construct_ok undo target (cascaded_op g u t d) op e = ground arith

module _ {T : Type 0} (hash : MutationOp T → Hash) (object : TargetObject)
    (references : JsMap Hash (Referenced T)) (f : Fields) (undo : Bool)
    (target cause : MutationOp T) where
  -- The operation is of this class and changes the object, and the references hold operations under
  -- their own hashes.
  pub record IsFor : Type 0 where
    pub of_class : f.class_name ≡ cascaded_class_name
    pub of_object : f.target_object ≡ object.hash
    pub holds_target :
        (op : MutationOp T) → Map.get (hash target) references ≡ some (an_op op) → op ≡ target

  target_of_referenced :
      (r : Option (Referenced T))
      → Map.get (hash target) references ≡ r
      → IsFor
      → is_prev_op object r ≡ true
      → (fields target).target_object ≡ object.hash
  unfolding is_prev_op
  target_of_referenced none e i p = cc
  target_of_referenced (some another_object) e i p = cc
  target_of_referenced (some (an_op op)) e i p = ground (arith, ap fields (i.holds_target op e))

  target_object_eq :
      IsFor
      → validate object references (cascaded_op f undo target cause) ≡ true
      → f.prev_ops ≡ some (hash target ∷ [])
      → (fields target).target_object ≡ f.target_object
  unfolding validate are_prev_ops fields
  target_object_eq i v p =
      target_of_referenced (Map.get (hash target) references) refl i (ground (arith, v, p))
      ∙ sym i.of_object

  abbrev op : MutationOp T
  op = cascaded_op f undo target cause

  made_of :
      IsFor
      → (fields target).target_object ≡ f.target_object
      → f.author ≡ none
      → f.prev_ops ≡ some (hash target ∷ [])
      → f.causal_ops ≡ some ((cause_key, hash cause) ∷ [])
      → made hash undo target cause ≡ op
  unfolding made
  made_of i o a p c =
      ap (λ g. cascaded_op g undo target cause)
        (fields_eq _ f (sym i.of_class) (sym a) o (sym p) (sym c))

  create_eq :
      alternates undo target ≡ true → create hash target cause ≡ construct hash undo target cause
  unfolding create
  create_eq a = ap (λ u. construct hash u target cause) (undo_of_alternates hash undo target a)

  created :
      IsFor → validate_cascade hash object references op ≡ true → create hash target cause ≡ ok op
  unfolding validate_cascade
  created i h =
      let v : validate object references op ≡ true = ground arith in
      let p = are_just_eq (hash target) f.prev_ops (ground arith) in
      let o = target_object_eq i v p in
      let a : alternates undo target ≡ true = ground arith in
      let c : cause_ok f.target_object undo target cause ≡ true = ground arith in
      create_eq a
      ∙ construct-made hash undo target cause (ground arith) a (rw o c)
      ∙ ap ok (
          made_of i o (is_absent_eq f.author (ground arith)) p
            (is_only_cause_eq (hash cause) f.causal_ops (ground arith)))

  accepted :
      validate object references op ≡ true
      → create hash target cause ≡ ok op
      → validate_cascade hash object references op ≡ true
  unfolding validate_cascade create made fields
  accepted v e =
      let (m, a, c, k) = construct_ok hash _ target cause op e in
      let u : undo ≡ (if is_cascaded target then not (is_undo target) else true) = ap is_undo k in
      let g = ap fields k in
      let o : f.target_object ≡ (fields target).target_object = ap (λ z. z.target_object) g in
      let passed : cause_ok f.target_object undo target cause ≡ true = rw (o, u) c in
      ground (
        arith,
        v,
        m,
        is_absent-none f.author (ap (λ z. z.author) g),
        is_only_cause-one (hash cause) f.causal_ops (ap (λ z. z.causal_ops) g),
        are_just-one (hash target) f.prev_ops (ap (λ z. z.prev_ops) g),
        passed,
        subst (λ w. alternates w target ≡ true) (sym u) a,
      )

  -- Where the references hold the target under its hash, if at all, and an undo or redo is of its
  -- class and changes the object, it is accepted exactly if it passes the validation of
  -- operations and is the very one that create makes from its target and its cause.
  pub accepted_iff :
      IsFor
      → (validate_cascade hash object references op ≡ true)
        ↔ ((validate object references op ≡ true) × (create hash target cause ≡ ok op))
  unfolding validate_cascade
  accepted_iff i = ((λ h. (ground arith, created i h)), λ h. accepted h.0 h.1)
