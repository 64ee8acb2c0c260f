-- ===== src/Sync/Outermost.antt =====
-- A whole `with` block of a context manager, and one that is entered again inside itself.
use asgire.Prelude.{
  ℕ, zero, suc, List, [], ◌∷◌, ◌++◌, Option, none, some, ◌≡◌, refl, sym, ap, ◌∙◌, =ℕ_iff, nat_eq,
  append-nil,
}
use asgire.Prelude.Dict.{get, remove_missing, remove-insert_new}
use asgire.Prelude.Result.{ok, err}
use asgire.Sync.Pools.{runtime_error, Token, Contexts, set_token, ManagerClass}
use asgire.Sync.Pools.Steps.{
  fresh_token, used_token, left, held, exit_held, exit_used, enter_nested, enter_outermost,
}
use asgire.Sync.Nesting.{
  Body, get_made, finished, within, run, count_calls, replicate, Unheld, Others, Unheld-held,
  after_calls, tokens-after_calls, run_made,
}

-- The pools that are shut down at the end of a block with so many calls.
abbrev pub given_up : ℕ → ℕ → List ℕ
given_up zero p = []
given_up (suc n) p = p ∷ []

-- The block's calls all use one pool, made by the first and shut down at the end; the context
-- variable and the table are then as before the block.
pub record Block (class : ManagerClass) (m : ℕ) (b : Body) (s : Contexts) : Type 0 where
  pub after : Contexts
  pub result :
      run class (within m b finished) s ≡ (ok (replicate (count_calls b) s.next_pool), after)
  pub variable : after.variable ≡ none
  pub pools : after.pools ≡ s.pools
  pub shut_down : after.shut_down ≡ s.shut_down ++ given_up (count_calls b) s.next_pool

left_pools :
    (n m : ℕ) (s : Contexts)
    → get m s.pools ≡ none
    → (left m (after_calls n m (held m s))).pools ≡ s.pools
left_pools zero m s g = remove_missing m s.pools g
left_pools (suc n) m s g = remove-insert_new m s.next_pool s.pools g

left_shut_down :
    (n m : ℕ) (s : Contexts)
    → get m s.pools ≡ none
    → (left m (after_calls n m (held m s))).shut_down ≡ s.shut_down ++ given_up n s.next_pool
left_shut_down zero m s g = rw (left, g) (sym (append-nil s.shut_down))
left_shut_down (suc n) m s g = rw (left, get_made m s.next_pool s.pools) refl

set_token_same : (m : ℕ) (t : Token) (tokens : ℕ → Option Token) → set_token m t tokens m ≡ some t
set_token_same m t tokens = rw ((=ℕ_iff m m).1 refl) refl

token_after : (n m : ℕ) (s : Contexts) → (after_calls n m (held m s)).tokens m ≡ some fresh_token
token_after n m s =
    ap (λ f. f m) (tokens-after_calls n m (held m s)) ∙ set_token_same m fresh_token s.tokens

run_inside :
    (class : ManagerClass) (m : ℕ) (b : Body) (s : Contexts)
    → get m s.pools ≡ none
    → Others m b
    → Unheld s.tokens b
    → run class b (held m s)
      ≡ (ok (replicate (count_calls b) s.next_pool), after_calls (count_calls b) m (held m s))
run_inside class m b s g o u =
    run_made class m b (held m s) refl g (Unheld-held m fresh_token s.tokens b o u)

-- An outermost block of either class, whose manager has no pool and is not entered again inside,
-- and whose inner managers have never been entered outermost: its calls all use one pool, which is
-- made by the first and shut down at the end, and the context variable and the table of pools are
-- then as they were.
pub run-Block :
    (class : ManagerClass) (m : ℕ) (b : Body) (s : Contexts)
    → s.variable ≡ none
    → get m s.pools ≡ none
    → Others m b
    → Unheld s.tokens b
    → Block class m b s
unfolding run
run-Block class m b s v g o u =
    let n = count_calls b in
    let t = after_calls n m (held m s) in
    record {
      after = left m t;
      result =
          rw
            (
              enter_outermost m s v,
              run_inside class m b s g o u,
              exit_held class m t (token_after n m s),
            )
            (ap (λ (l : List ℕ). (ok l, left m t)) (append-nil (replicate n s.next_pool)));
      variable = refl;
      pools = left_pools n m s g;
      shut_down = left_shut_down n m s g;
    }

-- A manager of either class that has no pool and is entered again as the whole of its own
-- outermost block: the outer exit raises a RuntimeError, whatever calls, and blocks of other
-- managers that have no token, stand inside, and whatever follows the block.
pub reentered_raises :
    (class : ManagerClass) (m : ℕ) (b rest : Body) (s : Contexts)
    → s.variable ≡ none
    → get m s.pools ≡ none
    → Others m b
    → Unheld s.tokens b
    → (run class (within m (within m b finished) rest) s).0 ≡ err runtime_error
unfolding run
reentered_raises class m b rest s v g o u =
    let n = count_calls b in
    let t = after_calls n m (held m s) in
    rw
      (
        enter_outermost m s v,
        enter_nested m m (held m s) refl,
        run_inside class m b s g o u,
        exit_held class m t (token_after n m s),
      )
      (rw (exit_used class m (left m t) (set_token_same m used_token t.tokens)) refl)
