-- ===== src/Prelude/Exec.antt =====
-- Methods that write to an object and may raise: what is written before an exception stays
-- written, so the object comes back beside the error too.
use mathlib.Core.Path.{◌≡◌, ap}
use asgire.Prelude.Result.{Result, ok, err}

abbrev pub Exec : Type 0 → Type 0 → Type 0 → Type 0
Exec S E A = S → Result E A × S

abbrev pub continue : {S E A B : Type 0} → Result E A → (A → Exec S E B) → Exec S E B
continue (ok a) f s = f a s
continue (err e) f s = (err e, s)

infixl 5 ◌>>=◌ ◌>>◌
abbrev pub ◌>>=◌ : {S E A B : Type 0} → Exec S E A → (A → Exec S E B) → Exec S E B
◌>>=◌ m f s = let (r, s') = m s in continue r f s'

abbrev pub ◌>>◌ : {S E B : Type 0} → Exec S E (Unit {0}) → Exec S E B → Exec S E B
m >> n = m >>= λ _. n

-- A first part that raises nothing.
pub >>-ok :
    {S E B : Type 0} (m : Exec S E (Unit {0})) (n : Exec S E B) (s : S)
    → (m s).0 ≡ ok tt
    → (m >> n) s ≡ n (m s).1
>>-ok m n s h = ap (λ r. continue r (λ _. n) (m s).1) h
