-- ===== src/Prelude/Keys.antt =====
-- Keys that the program compares with `===`. A hash is a text.
use Prim.Native.Nat.{ℕ}
use Prim.Native.String.{String}
use mathlib.Core.Path.{◌≡◌, refl}
use mathlib.Core.Bool.{Bool, true, false}
use native.Mathlib.Decide.{ℕ_discrete}
use text.Mathlib.Text.{◌==◌}
use text.Mathlib.TextEquality.{eq_iff}

pub record Key {ℓ} (K : Type ℓ) : Type ℓ where
  pub discrete : Discrete K

abbrev pub same {ℓ} : {K : Type ℓ} ⦃k : Key K⦄ → Discrete K
same ⦃k⦄ = k.discrete

abbrev pub Hash : Type 0
Hash = String

pub ne_of_test : (s t : String) → (s == t) ≡ false → ¬ (s ≡ t)
ne_of_test s t e p = cc ((eq_iff s t).1 p)

abbrev string_decision : (s t : String) (b : Bool) → (s == t) ≡ b → Dec (s ≡ t)
string_decision s t true e = yes ((eq_iff s t).0 e)
string_decision s t false e = no (ne_of_test s t e)

unfoldable pub string_discrete : Discrete String
string_discrete s t = string_decision s t (s == t) refl

instance abbrev pub string_key : Key String
string_key = record { discrete = string_discrete }

instance abbrev pub nat_key : Key ℕ
nat_key = record { discrete = ℕ_discrete }
