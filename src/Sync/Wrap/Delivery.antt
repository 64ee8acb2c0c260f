-- ===== src/Sync/Wrap/Delivery.antt =====
-- What the waiting thread finds when main_wrap has put a result into `call_result`.
use asgire.Prelude.{
  ℕ, List, [], ◌∷◌, ◌++◌, Option, none, some, ◌≡◌, ◌≢◌, ◌⊎◌, inl, inr, refl, ap, ◌=ℕ◌, =ℕ_iff, All,
  Bool, Bool-cases,
}
use asgire.Local.{CValue, Context, restore_context}
use asgire.Sync.Wrap.{Outcome, Wrap, LoopRun, main_wrap, remove_task, appended, removed}

abbrev pub last : {A : Type 0} → A → List A → A
last a [] = a
last a (x ∷ xs) = last x xs

-- No task of the list is this one.
abbrev pub NotIn : Option ℕ → Option (List ℕ) → Type 0
NotIn (some t) (some ts) = All (λ u. u ≢ t) ts
NotIn _ _ = Unit

remove_appended : (t : ℕ) (ts : List ℕ) → All (λ u. u ≢ t) ts → remove_task t (ts ++ t ∷ []) ≡ ts
remove_appended t [] h = rw ((=ℕ_iff t t).1 refl) refl
remove_appended t (u ∷ us) h = elim (Bool-cases (u =ℕ t)) [
  | inl y ↦ absurd (h.0 ((=ℕ_iff u t).0 y))
  | inr n ↦ rw n (ap (◌∷◌ u) (remove_appended t us h.1))
]

removed-appended :
    (t : Option ℕ) (ts : Option (List ℕ)) → NotIn t ts → removed t (appended t ts) ≡ ts
removed-appended (some t) (some ts) h = ap (λ l. some l) (remove_appended t ts h)
removed-appended (some t) none h = refl
removed-appended none (some ts) h = refl
removed-appended none none h = refl

module _ {V : Type 0} (is_local : ℕ → Bool) (same : CValue V → CValue V → Bool) where
  -- The context that the awaitable runs in.
  abbrev pub inside : LoopRun V → Context V → Context V
  inside run context = restore_context is_local same run.ident context run.base

  pub main_wrap_end :
      (run : LoopRun V) (w : Wrap V) (o : Outcome) (final : Context V)
      → run.awaitable (inside run w.cell) ≡ some (o, final)
      → ((last w (main_wrap is_local same run w)).call_result ≡ some o)
        × ((last w (main_wrap is_local same run w)).cell ≡ final)
  unfolding main_wrap
  main_wrap_end run w o final h = rw h (refl, refl)

  -- If the awaitable completes in the restored context: whenever `call_result` is set, `context[0]`
  -- is the awaitable's context already; and at the end `call_result` has the awaitable's outcome,
  -- and the caller's list of tasks is as it was.
  pub main_wrap-Delivers :
      (run : LoopRun V) (w : Wrap V) (o : Outcome) (final : Context V)
      → run.awaitable (inside run w.cell) ≡ some (o, final)
      → w.call_result ≡ none
      → NotIn run.current_task w.task_context
      → All
          (λ (t : Wrap V). (t.call_result ≡ none) ⊎ (t.cell ≡ final))
          (main_wrap is_local same run w)
        × ((last w (main_wrap is_local same run w)).call_result ≡ some o)
        × ((last w (main_wrap is_local same run w)).cell ≡ final)
        × ((last w (main_wrap is_local same run w)).task_context ≡ w.task_context)
  unfolding main_wrap
  main_wrap-Delivers run w o final h r u = rw h (
    (inl r, (inl r, (inl r, (inl r, (inl r, (inr refl, tt)))))),
    refl,
    refl,
    removed-appended run.current_task w.task_context u,
  )
