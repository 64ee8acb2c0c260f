-- ===== src/Text/Int.antt =====
-- `int(s)` of a str: white space around it, a sign, and digits with single underscores between
-- them. `none` is the ValueError. The length limit on digits is not modelled.
use asgire.Prelude.{
  ℕ, ◌+◌, ◌-◌, ◌*◌, List, [], ◌∷◌, Bool, true, false, ◌&&◌, ◌||◌, Option, none, some, leb, ◌=ℕ◌,
  if◌then◌else◌, ◌≡◌, refl,
}
use mathlib.Core.List.{reverse}
use mathlib.Core.Option
use asgire.Prelude.Int.{ℤ, pos, negsuc, sub_ℕ}

abbrev is_space : ℕ → Bool
is_space c = (leb 9 c && leb c 13) || (leb 28 c && leb c 32) || (c =ℕ 133) || (c =ℕ 160)

left_strip : List ℕ → List ℕ
left_strip [] = []
left_strip (c ∷ s) = let rest = left_strip s in if is_space c then rest else c ∷ s

strip : List ℕ → List ℕ
unfolding left_strip
strip s = reverse (left_strip (reverse (left_strip s)))

-- `after_digit` says that the character before was a digit.
abbrev next_digit : Bool → ℕ → ℕ → Option (Bool × ℕ)
next_digit after_digit n c =
    if leb 48 c && leb c 57
    then some (true, n * 10 + (c - 48))
    else if (c =ℕ 95) && after_digit
    then some (false, n)
    else none

digits : Bool → ℕ → List ℕ → Option ℕ
digits after_digit n [] = if after_digit then some n else none
digits after_digit n (c ∷ s) = elim (next_digit after_digit n c) [
  | none ↦ none
  | some (b, m) ↦ digits b m s
]

signed : List ℕ → Option ℤ
unfolding digits
signed [] = none
signed (c ∷ s) =
    if c =ℕ 45
    then Option.map (λ n. sub_ℕ 0 n) (digits false 0 s)
    else if c =ℕ 43
    then Option.map pos (digits false 0 s)
    else Option.map pos (digits false 0 (c ∷ s))

unfoldable pub int : List ℕ → Option ℤ
unfolding strip signed
int s = signed (strip s)

int_tests :
    (int (32 ∷ 50 ∷ 95 ∷ 48 ∷ 48 ∷ 10 ∷ []) ≡ some (pos 200))
    × (int (45 ∷ 53 ∷ []) ≡ some (negsuc 4))
    × (int (50 ∷ 95 ∷ []) ≡ none)
    × (int [] ≡ none)
unfolding int
int_tests = (refl, refl, refl, refl)
