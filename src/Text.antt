-- ===== src/Text.antt =====
-- The functions on Python's str and bytes that asgiref/wsgi.py calls. A str is the list of its
-- code points, bytes the list of its bytes; decoding by latin1 is then the identity. The case
-- tables are those of Latin-1: WSGI's native strings and header bytes have no code point above it.
pub mod Int
use Prim.Native.Char.{code}
use Prim.Native.String.{String}
use mathlib.Core.List.{flat_map}
use asgire.Prelude.{
  ℕ, zero, suc, ◌+◌, ◌-◌, ◌*◌, ◌/◌, ◌%◌, List, [], ◌∷◌, ◌++◌, map, Bool, true, false, not, ◌&&◌,
  ◌||◌, Option, none, some, leb, ltb, ◌=ℕ◌, ◌==◌, list_eq, if◌then◌else◌, ◌≡◌, refl, length, drop,
  arith,
}

abbrev pub Str : Type 0
Str = List ℕ

abbrev pub Bytes : Type 0
Bytes = List ℕ

-- A literal's code points.
abbrev pub str : String → Str
str String.[] = []
str (String.◌∷◌ c s) = code c ∷ str s

abbrev is_upper : ℕ → Bool
is_upper c = (leb 65 c && leb c 90) || (leb 192 c && leb c 222 && not (c =ℕ 215))

abbrev is_lower : ℕ → Bool
is_lower c = (leb 97 c && leb c 122) || (leb 224 c && leb c 254 && not (c =ℕ 247))

unfoldable pub lower_char : ℕ → ℕ
lower_char c = if is_upper c then c + 32 else c

unfoldable pub upper_char : ℕ → Str
upper_char c =
    if is_lower c
    then (c - 32) ∷ []
    else if c =ℕ 181
    then 924 ∷ []
    else if c =ℕ 223
    then 83 ∷ 83 ∷ []
    else if c =ℕ 255
    then 376 ∷ []
    else c ∷ []

unfoldable pub lower : Str → Str
unfolding lower_char
lower = map lower_char

unfoldable pub upper : Str → Str
unfolding upper_char
upper [] = []
upper (c ∷ s) = upper_char c ++ upper s

-- `replace("-", "_")`
unfoldable pub dashes_to_underscores : Str → Str
dashes_to_underscores = map (λ c. if c =ℕ 45 then 95 else c)

-- `encode("ascii")` and `decode("ascii")`; `none` is the UnicodeError, which is a ValueError.
unfoldable pub ascii : List ℕ → Option (List ℕ)
ascii [] = some []
ascii (c ∷ s) = elim (ascii s) [ none ↦ none | some t ↦ if ltb c 128 then some (c ∷ t) else none ]

-- `encode("utf8")` of one code point; a surrogate has none.
unfoldable pub utf8_char : ℕ → Option Bytes
utf8_char c =
    if ltb c 128
    then some (c ∷ [])
    else if ltb c 2048
    then some ((192 + c / 64) ∷ (128 + c % 64) ∷ [])
    else if leb 55296 c && leb c 57343
    then none
    else if ltb c 65536
    then some ((224 + c / 4096) ∷ (128 + c / 64 % 64) ∷ (128 + c % 64) ∷ [])
    else some
        ((240 + c / 262144) ∷ (128 + c / 4096 % 64) ∷ (128 + c / 64 % 64) ∷ (128 + c % 64) ∷ [])

unfoldable pub utf8 : Str → Option Bytes
unfolding utf8_char
utf8 [] = some []
utf8 (c ∷ s) = elim (utf8 s) [
  | none ↦ none
  | some t ↦ elim (utf8_char c) [ none ↦ none | some b ↦ some (b ++ t) ]
]

unfoldable pub starts_with : Str → Str → Bool
starts_with s [] = true
starts_with [] (p ∷ ps) = false
starts_with (c ∷ s) (p ∷ ps) = (c =ℕ p) && starts_with s ps

-- `s.split(" ", 1)` where it gives two parts.
unfoldable pub split_space : Str → Option (Str × Str)
split_space [] = none
split_space (c ∷ s) =
    let later = split_space s in
    if c =ℕ 32 then some ([], s) else elim later [ none ↦ none | some (a, b) ↦ some (c ∷ a, b) ]

-- `",".join(values)`
unfoldable pub join_commas : List Str → Str
join_commas [] = []
join_commas (v ∷ []) = v
join_commas (v ∷ w ∷ vs) = v ++ 44 ∷ join_commas (w ∷ vs)

-- `str(n)` of a number, with fuel for its digits.
decimal_digits : ℕ → ℕ → Str
decimal_digits zero n = []
decimal_digits (suc fuel) n =
    let front = decimal_digits fuel (n / 10) in
    (if ltb n 10 then [] else front) ++ (48 + n % 10) ∷ []

unfoldable pub decimal : ℕ → Str
unfolding decimal_digits
decimal n = decimal_digits (suc n) n

decimal_test : decimal 8080 ≡ str "8080"
unfolding decimal
decimal_test = refl

lower_test : lower (str "Content-LENGTH") ≡ str "content-length"
unfolding lower
lower_test = refl

upper_test : dashes_to_underscores (upper (str "x-forwarded")) ≡ str "X_FORWARDED"
unfolding dashes_to_underscores upper
upper_test = refl

utf8_test :
    utf8 (233 ∷ 8364 ∷ 128512 ∷ [])
    ≡ some (0xc3 ∷ 0xa9 ∷ 0xe2 ∷ 0x82 ∷ 0xac ∷ 0xf0 ∷ 0x9f ∷ 0x98 ∷ 0x80 ∷ [])
unfolding utf8
utf8_test = refl
