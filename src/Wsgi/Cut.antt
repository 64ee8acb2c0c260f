-- ===== src/Wsgi/Cut.antt =====
-- The cut of an output at the content length, and the bytes of what was sent.
use asgire.Prelude.{
  ℕ, suc, ◌+◌, ◌-◌, ◌≤◌, ◌<◌, List, [], ◌∷◌, ◌++◌, true, false, Option, none, some, ◌≡◌, refl, sym,
  ◌∙◌, ap, arith, length, length-take, take, append_assoc, append-nil, take-all, take_full,
  take_short, ◌=ℕ◌,
}
use asgire.Prelude.Int.{ℤ, pos, negsuc}
use asgire.Text.{Bytes}
use asgire.Wsgi.Messages.{SendEvent, response_start, response_body}
use asgire.Wsgi.Instance.{truncate, reached}

abbrev pub body_of : SendEvent → Bytes
body_of (response_start code headers) = []
body_of (response_body body more) = body

-- The body that the client gets.
abbrev pub bodies : List SendEvent → Bytes
bodies [] = []
bodies (m ∷ ms) = body_of m ++ bodies ms

pub bodies-append : (ms ns : List SendEvent) → bodies (ms ++ ns) ≡ bodies ms ++ bodies ns
bodies-append [] ns = refl
bodies-append (m ∷ ms) ns = simp (bodies-append ms ns, append_assoc)

pub bodies-snoc :
    (ms : List SendEvent) (m : SendEvent) → bodies (ms ++ m ∷ []) ≡ bodies ms ++ body_of m
bodies-snoc ms m = bodies-append ms (m ∷ []) ∙ simp append-nil

-- `n` bytes fit in the content length, if it is not negative.
abbrev pub Fits : ℕ → Option ℤ → Type 0
Fits n none = Unit {0}
Fits n (some (pos m)) = n ≤ m
Fits n (some (negsuc m)) = Unit {0}

pub length-truncate :
    (limit : Option ℤ) (n : ℕ) (output : Bytes)
    → Fits n limit
    → Fits (n + length (truncate limit n output)) limit
unfolding truncate
length-truncate none n output h = tt
length-truncate (some (pos m)) n output h = ground (arith, length-take (m - n) output)
length-truncate (some (negsuc m)) n output h = tt

-- What a content length lets through of `x`, after `n` bytes.
abbrev pub allowed : Option ℤ → ℕ → Bytes → Bytes
allowed none n x = x
allowed (some (pos m)) n x = take (m - n) x
allowed (some (negsuc m)) n x = []

-- The content length is not negative and not passed.
abbrev pub Open : Option ℤ → ℕ → Type 0
Open none n = Unit {0}
Open (some (pos m)) n = n ≤ m
Open (some (negsuc m)) n = ⊥

pub truncate-eq-take : (m n : ℕ) (c : Bytes) → n ≤ m → truncate (some (pos m)) n c ≡ take (m - n) c
unfolding truncate
truncate-eq-take m n c h = ground (arith, take-all (m - n) c)

pub unreached : (n : ℕ) (c : Bytes) → reached (n + length (truncate none n c)) none ≡ true → ⊥
unfolding reached
unreached n c h = cc

pub reached_iff : (n m : ℕ) → reached n (some (pos m)) ≡ (n =ℕ m)
unfolding reached
reached_iff n m = refl

pub truncate-none : (n : ℕ) (c : Bytes) → truncate none n c ≡ c
unfolding truncate
truncate-none n c = refl

-- One output more.
pub truncate-last :
    (limit : Option ℤ) (n : ℕ) (c rest : Bytes)
    → Open limit n
    → reached (n + length (truncate limit n c)) limit ≡ true
    → truncate limit n c ≡ allowed limit n (c ++ rest)
truncate-last none n c rest o h = absurd (unreached n c h)
truncate-last (some (pos m)) n c rest o h =
    let e = truncate-eq-take m n c o in
    e
    ∙ sym (
        take_full (m - n) c rest
          (ground (arith, ap length e, reached_iff (n + length (truncate (some (pos m)) n c)) m)))
truncate-last (some (negsuc m)) n c rest o h = absurd o

pub truncate-more :
    (limit : Option ℤ) (n : ℕ) (c rest : Bytes)
    → Open limit n
    → reached (n + length (truncate limit n c)) limit ≡ false
    → (truncate limit n c ++ allowed limit (n + length (truncate limit n c)) rest
        ≡ allowed limit n (c ++ rest))
      × Open limit (n + length (truncate limit n c))
truncate-more none n c rest o h = (rw (truncate-none n c), tt)
truncate-more (some (pos m)) n c rest o h =
    let e = truncate-eq-take m n c o in
    let k = length (truncate (some (pos m)) n c) in
    let short : length (take (m - n) c) < m - n =
      ground (arith, ap length e, length-take (m - n) c, reached_iff (n + k) m) in
    (
      ap (λ t. t ++ take (m - (n + k)) rest) e
          ∙ ap (λ j. take (m - n) c ++ take j rest) (omega (arith, ap length e))
          ∙ sym (take_short (m - n) c rest short),
      omega (arith, ap length e),
    )
truncate-more (some (negsuc m)) n c rest o h = absurd o

-- A negative Content-Length is taken as it stands: the first output, if it is longer than the
-- number says, loses so many of its last bytes, and the rest of it, which is not empty, is sent.
truncate_negative :
    (m : ℕ) (output : Bytes)
    → suc m < length output
    → (truncate (some (negsuc m)) 0 output ≡ take (length output - suc m) output)
      × (0 < length (truncate (some (negsuc m)) 0 output))
unfolding truncate
truncate_negative m output h =
    (ground arith, ground (arith, length-take (length output - suc m) output))
