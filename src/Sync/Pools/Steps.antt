-- ===== src/Sync/Pools/Steps.antt =====
-- What the managers' methods come to, one equation for each way.
use asgire.Prelude.{
  ℕ, suc, [], ◌∷◌, ◌++◌, none, some, ◌≡◌, refl, inl, inr, true, false, Option-cases, nat_eq,
}
use asgire.Prelude.Dict.{get, insert, remove}
use asgire.Prelude.Result.{ok, err}
use asgire.Sync.Pools.{
  runtime_error, Token, Contexts, set_token, enter, single_exit, sensitive_exit, pool_for,
  loop_executor, ManagerClass, single, sensitive, exit_of,
}

abbrev pub fresh_token : Token
fresh_token = record { old_value = none; used = false }

abbrev pub used_token : Token
used_token = record { old_value = none; used = true }

-- The state after an exit that gives up the manager's pool.
abbrev pub left : ℕ → Contexts → Contexts
left m s = record s {
  variable = none;
  pools = remove m s.pools;
  shut_down = (elim (get m s.pools) [ none ↦ s.shut_down | some p ↦ s.shut_down ++ p ∷ [] ]);
  tokens = set_token m used_token s.tokens;
}

pub exit_unheld :
    (class : ManagerClass) (m : ℕ) (s : Contexts)
    → s.tokens m ≡ none
    → exit_of class m s ≡ (ok tt, s)
unfolding exit_of single_exit sensitive_exit
exit_unheld single m s h = rw h refl
exit_unheld sensitive m s h = rw h refl

pub exit_held :
    (class : ManagerClass) (m : ℕ) (s : Contexts)
    → s.tokens m ≡ some fresh_token
    → exit_of class m s ≡ (ok tt, left m s)
unfolding exit_of single_exit sensitive_exit
exit_held single m s h = elim (Option-cases (get m s.pools)) [
  | inl e ↦ rw (h, e) refl
  | inr (p, e) ↦ rw (h, e) refl
]
exit_held sensitive m s h = elim (Option-cases (get m s.pools)) [
  | inl e ↦ rw (h, e) refl
  | inr (p, e) ↦ rw (h, e) refl
]

pub exit_used :
    (class : ManagerClass) (m : ℕ) (s : Contexts)
    → s.tokens m ≡ some used_token
    → (exit_of class m s).0 ≡ err runtime_error
unfolding exit_of single_exit sensitive_exit
exit_used single m s h = elim (Option-cases (get m s.pools)) [
  | inl e ↦ rw (h, e) refl
  | inr (p, e) ↦ rw (h, e) refl
]
exit_used sensitive m s h = rw h refl

pub enter_nested : (m c : ℕ) (s : Contexts) → s.variable ≡ some c → enter m s ≡ (ok tt, s)
unfolding enter
enter_nested m c s h = rw h refl

abbrev pub held : ℕ → Contexts → Contexts
held m s = record s { variable = some m; tokens = set_token m fresh_token s.tokens }

pub enter_outermost : (m : ℕ) (s : Contexts) → s.variable ≡ none → enter m s ≡ (ok tt, held m s)
unfolding enter
enter_outermost m s h = rw h refl

pub loop_executor_within :
    (c : ℕ) (s : Contexts) → s.variable ≡ some c → loop_executor s ≡ pool_for c s
unfolding loop_executor
loop_executor_within c s h = rw h refl

pub pool_for_found : (c p : ℕ) (s : Contexts) → get c s.pools ≡ some p → pool_for c s ≡ (p, s)
unfolding pool_for
pool_for_found c p s h = rw h refl

pub pool_for_made :
    (c : ℕ) (s : Contexts)
    → get c s.pools ≡ none
    → pool_for c s ≡ (
      s.next_pool,
      record s { pools = insert c s.next_pool s.pools; next_pool = suc s.next_pool },
    )
unfolding pool_for
pool_for_made c s h = rw h refl
