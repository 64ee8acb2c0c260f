-- ===== src/Sync/Nesting.antt =====
-- Nested `with` blocks of context managers, with calls that use the context's pool inside.
use asgire.Prelude.{
  ℕ, zero, suc, ◌+◌, List, [], ◌∷◌, ◌++◌, Option, none, some, ◌≡◌, ◌≢◌, refl, ap, ◌∙◌, inl, inr,
  Bool-cases, ◌=ℕ◌, =ℕ_iff, nat_eq,
}
use native.Mathlib.Nat.{zero-add, suc-add}
use asgire.Prelude.Dict.{Dict, get, insert, get-insert}
use asgire.Prelude.Result.{ok}
use asgire.Prelude.Exec.{continue, ◌>>=◌, ◌>>◌}
use asgire.Sync.Pools.{
  Token, Contexts, Action, set_token, enter, loop_executor, ManagerClass, exit_of,
}
use asgire.Sync.Pools.Steps.{
  exit_unheld, enter_nested, loop_executor_within, pool_for_found, pool_for_made,
}

-- A body: a call that uses a pool, or a `with` block, and what follows.
pub data Body : Type 0 where
  finished : Body
  calls : Body → Body
  within : ℕ → Body → Body → Body

use_pool : Action ℕ
use_pool s = let (p, s') = loop_executor s in (ok p, s')

-- The pools that the calls use, in order. A block's exit runs also after an exception.
unfoldable pub run : ManagerClass → Body → Action (List ℕ)
unfolding use_pool
run class finished s = (ok [], s)
run class (calls rest) s = (do p ← use_pool; ps ← run class rest; λ t. (ok (p ∷ ps), t)) s
run class (within m inner rest) s =
    let (r, s') = (enter m >> run class inner) s in
    (exit_of class m >> λ t. continue r (λ ps. run class rest >>= λ qs u. (ok (ps ++ qs), u)) t) s'

unfoldable pub count_calls : Body → ℕ
count_calls finished = 0
count_calls (calls rest) = suc (count_calls rest)
count_calls (within m inner rest) = count_calls inner + count_calls rest

abbrev pub replicate : ℕ → ℕ → List ℕ
replicate zero p = []
replicate (suc n) p = p ∷ replicate n p

-- No manager of the body has a token.
abbrev pub Unheld : (ℕ → Option Token) → Body → Type 0
Unheld tokens finished = Unit
Unheld tokens (calls rest) = Unheld tokens rest
Unheld tokens (within m inner rest) = (tokens m ≡ none) × Unheld tokens inner × Unheld tokens rest

replicate-add : (n m p : ℕ) → replicate n p ++ replicate m p ≡ replicate (n + m) p
replicate-add zero m p = rw (zero-add m) refl
replicate-add (suc n) m p = rw (suc-add n m) (ap (◌∷◌ p) (replicate-add n m p))

-- Inside a context that has its pool, a body uses that pool alone and changes nothing.
run_found :
    (class : ManagerClass) (c p : ℕ) (b : Body) (s : Contexts)
    → s.variable ≡ some c
    → get c s.pools ≡ some p
    → Unheld s.tokens b
    → run class b s ≡ (ok (replicate (count_calls b) p), s)
unfolding run count_calls
run_found class c p finished s v g u = refl
run_found class c p (calls rest) s v g u =
    rw (loop_executor_within c s v ∙ pool_for_found c p s g, run_found class c p rest s v g u) refl
run_found class c p (within m inner rest) s v g u =
    rw
      (
        enter_nested m c s v,
        run_found class c p inner s v g u.1,
        exit_unheld class m s u.0,
        run_found class c p rest s v g u.2,
      )
      (ap (λ (l : List ℕ). (ok l, s)) (replicate-add (count_calls inner) (count_calls rest) p))

-- The state once the context's pool is made, if there was a call.
abbrev pub after_calls : ℕ → ℕ → Contexts → Contexts
after_calls zero c s = s
after_calls (suc n) c s = record s {
  pools = insert c s.next_pool s.pools;
  next_pool = suc s.next_pool;
}

pub get_made : (c p : ℕ) (d : Dict ℕ ℕ) → get c (insert c p d) ≡ some p
get_made c p d = get-insert c c p d ∙ rw ((=ℕ_iff c c).1 refl) refl

pub tokens-after_calls : (n c : ℕ) (s : Contexts) → (after_calls n c s).tokens ≡ s.tokens
tokens-after_calls zero c s = refl
tokens-after_calls (suc n) c s = refl

-- What follows a part with `n` calls.
rest_made :
    (class : ManagerClass) (c n : ℕ) (rest : Body) (s : Contexts)
    → s.variable ≡ some c
    → Unheld s.tokens rest
    → run class rest s
      ≡ (ok (replicate (count_calls rest) s.next_pool), after_calls (count_calls rest) c s)
    → run class rest (after_calls n c s)
      ≡ (ok (replicate (count_calls rest) s.next_pool), after_calls (n + count_calls rest) c s)
rest_made class c zero rest s v u ih = rw (zero-add (count_calls rest)) ih
rest_made class c (suc n) rest s v u ih =
    rw (suc-add n (count_calls rest))
      (run_found class c s.next_pool rest (after_calls 1 c s) v (get_made c s.next_pool s.pools) u)

within_made :
    (class : ManagerClass) (c m n k p : ℕ) (inner rest : Body) (s t : Contexts)
    → s.variable ≡ some c
    → s.tokens m ≡ none
    → run class inner s ≡ (ok (replicate n p), after_calls n c s)
    → run class rest (after_calls n c s) ≡ (ok (replicate k p), t)
    → run class (within m inner rest) s ≡ (ok (replicate (n + k) p), t)
unfolding run
within_made class c m n k p inner rest s t v h first second =
    let h' : (after_calls n c s).tokens m ≡ none = ap (λ f. f m) (tokens-after_calls n c s) ∙ h in
    rw (enter_nested m c s v, first, exit_unheld class m (after_calls n c s) h', second)
      (ap (λ (l : List ℕ). (ok l, t)) (replicate-add n k p))

-- The first call makes the pool, and the later ones find it.
pub run_made :
    (class : ManagerClass) (c : ℕ) (b : Body) (s : Contexts)
    → s.variable ≡ some c
    → get c s.pools ≡ none
    → Unheld s.tokens b
    → run class b s ≡ (ok (replicate (count_calls b) s.next_pool), after_calls (count_calls b) c s)
unfolding run count_calls
run_made class c finished s v g u = refl
run_made class c (calls rest) s v g u =
    rw
      (
        loop_executor_within c s v ∙ pool_for_made c s g,
        run_found class c s.next_pool rest (after_calls 1 c s) v (get_made c s.next_pool s.pools) u,
      )
      refl
run_made class c (within m inner rest) s v g u =
    let n = count_calls inner in
    let k = count_calls rest in
    unfold count_calls in
    within_made class c m n k s.next_pool inner rest s (after_calls (n + k) c s) v u.0
      (run_made class c inner s v g u.1)
      (rest_made class c n rest s v u.2 (run_made class c rest s v g u.2))

-- The managers of the body are others than `m`.
abbrev pub Others : ℕ → Body → Type 0
Others m finished = Unit
Others m (calls rest) = Others m rest
Others m (within k inner rest) = (m ≢ k) × Others m inner × Others m rest

pub Unheld-held :
    (m : ℕ) (t : Token) (tokens : ℕ → Option Token) (b : Body)
    → Others m b
    → Unheld tokens b
    → Unheld (set_token m t tokens) b
Unheld-held m t tokens finished o u = tt
Unheld-held m t tokens (calls rest) o u = Unheld-held m t tokens rest o u
Unheld-held m t tokens (within k inner rest) o u = (
  elim (Bool-cases (m =ℕ k)) [ inl y ↦ absurd (o.0 ((=ℕ_iff m k).0 y)) | inr n ↦ rw n u.0 ],
  Unheld-held m t tokens inner o.1 u.1,
  Unheld-held m t tokens rest o.2 u.2,
)
