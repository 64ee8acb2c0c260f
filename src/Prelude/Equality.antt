-- ===== src/Prelude/Equality.antt =====
-- Equality tests by instances: numbers, lists of them (texts and byte strings).
use Prim.Native.Nat.{ℕ}
use mathlib.Core.Path.{◌≡◌, refl}
use mathlib.Core.Logic.{◌↔◌}
use mathlib.Core.Bool.{Bool, true, false, ◌&&◌}
use mathlib.Core.List.{List, [], ◌∷◌}
use native.Mathlib.Omega.{arith}
use asgire.Prelude.Tests.{◌=ℕ◌, =ℕ_iff}

-- Python's `==` on a type's values, which tells equal ones from others.
pub record Eq {ℓ} (Key : Type ℓ) : Type ℓ where
  pub test : Key → Key → Bool
  pub test_iff : (k j : Key) → (test k j ≡ true) ↔ (k ≡ j)

module _ {ℓ} {Key : Type ℓ} ⦃e : Eq Key⦄ where
  infix 50 ◌==◌
  abbrev pub ◌==◌ : Key → Key → Bool
  k == j = e.test k j

  pub ==-refl : (k : Key) → (k == k) ≡ true
  ==-refl k = (e.test_iff k k).1 refl

instance abbrev pub nat_eq : Eq ℕ
nat_eq = record { test = ◌=ℕ◌; test_iff = =ℕ_iff }

abbrev pub list_beq : List ℕ → List ℕ → Bool
list_beq [] [] = true
list_beq (x ∷ xs) (y ∷ ys) = (x =ℕ y) && list_beq xs ys
list_beq _ _ = false

pub list_beq_iff : (xs ys : List ℕ) → (list_beq xs ys ≡ true) ↔ (xs ≡ ys)
list_beq_iff [] [] = ground arith
list_beq_iff [] (y ∷ ys) = ground arith
list_beq_iff (x ∷ xs) [] = ground arith
list_beq_iff (x ∷ xs) (y ∷ ys) = ground (arith, list_beq_iff xs ys)

instance abbrev pub list_eq : Eq (List ℕ)
list_eq = record { test = list_beq; test_iff = list_beq_iff }
