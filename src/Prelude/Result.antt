-- ===== src/Prelude/Result.antt =====
-- The result of Python code that returns or raises.
use mathlib.Core.Path.{◌≡◌, refl}

pub data Result (E A : Type 0) : Type 0 where
  ok : A → Result E A
  err : E → Result E A

infixl 5 ◌>>=◌ ◌>>◌
abbrev pub ◌>>=◌ : {E A B : Type 0} → Result E A → (A → Result E B) → Result E B
ok a >>= f = f a
err e >>= f = err e

abbrev pub ◌>>◌ : {E B : Type 0} → Result E (Unit {0}) → Result E B → Result E B
m >> k = m >>= λ _. k

pub >>=-eq-ok :
    {E A B : Type 0} {b : B} (first : Result E A) (then : A → Result E B)
    → (first >>= then) ≡ ok b
    → (x : A) × (first ≡ ok x) × (then x ≡ ok b)
>>=-eq-ok (err e) then returned = cc
>>=-eq-ok (ok x) then returned = (x, refl, returned)
