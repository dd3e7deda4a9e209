-- ===== src/Prelude/Any.antt =====
-- A Boolean test of the entries of a list, whose order does not matter. (The library's `any` cannot
-- be unfolded.)
use mathlib.Core.Path.{◌≡◌, refl, ap, ap₂, ◌∙◌}
use mathlib.Core.Logic.{∥∥₁_elim}
use mathlib.Core.Bool.{Bool, false, ◌||◌, Bool-set}
use mathlib.Core.List.{List, [], ◌∷◌, Perm, Permᴰ}
use native.Mathlib.Omega.{arith}

module _ {A : Type 0} (test : A → Bool) where
  abbrev pub any : List A → Bool
  any [] = false
  any (x ∷ xs) = test x || any xs

  any-permᴰ : {xs ys : List A} → Permᴰ xs ys → any xs ≡ any ys
  any-permᴰ Permᴰ.nil = refl
  any-permᴰ (Permᴰ.cons e p) = ap₂ (λ x t. test x || t) e (any-permᴰ p)
  any-permᴰ (Permᴰ.swap {l = l} e f) = ground (arith, ap test e, ap test f)
  any-permᴰ (Permᴰ.trans p q) = any-permᴰ p ∙ any-permᴰ q

  pub any-perm : {xs ys : List A} → Perm xs ys → any xs ≡ any ys
  any-perm p = ∥∥₁_elim p (Bool-set _ _) any-permᴰ
