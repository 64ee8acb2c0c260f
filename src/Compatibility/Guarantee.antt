-- ===== src/Compatibility/Guarantee.antt =====
-- Which applications are double-callable, and what guarantee_single_callable makes of any.
use asgire.Prelude.{
  true, false, some, if◌then◌else◌, ◌≡◌, ◌≢◌, ◌↔◌, ◌⊎◌, inl, inr, refl, Bool-cases, arith,
}
use asgire.Prelude.Result.{◌>>=◌}
use asgire.Compatibility.{Application, is_double_callable, guarantee_single_callable}

module _ {Scope Ports Value : Type 0} where
  -- What a legacy application is: one without the single-callable hint that has the other hint, or
  -- is a class, or is no coroutine function and has no `__call__` that is one.
  abbrev IsLegacy : Application Scope Ports Value → Type 0
  IsLegacy a =
      (a.asgi_single_callable ≡ false)
      × ((a.asgi_double_callable ≡ true)
          ⊎ ((a.is_class ≡ true) ⊎ ((a.call_is_coroutine ≢ some true) × (a.is_coroutine ≡ false))))

  -- `is_double_callable` is true of exactly the applications without the single-callable hint that
  -- have the other hint, or are classes, or are no coroutine functions and have no `__call__` that
  -- is one.
  is_double_callable_iff :
      (a : Application Scope Ports Value) → (is_double_callable a ≡ true) ↔ IsLegacy a
  unfolding is_double_callable
  is_double_callable_iff a = ground arith

  -- The result of `guarantee_single_callable` is never double-callable, so that a second
  -- application of it changes nothing; and one call of it with scope, receive and send is, for a
  -- double-callable application, the call with the scope followed by the call of what that
  -- returns, and for any other the application's own call.
  pub guarantee_single_callable_lem :
      (a : Application Scope Ports Value) (scope : Scope) (ports : Ports)
      → (is_double_callable (guarantee_single_callable a) ≡ false)
        × (guarantee_single_callable (guarantee_single_callable a) ≡ guarantee_single_callable a)
        × ((guarantee_single_callable a).call_single scope ports ≡ (
            if is_double_callable a
            then (a.call_double scope >>= λ inst. inst ports)
            else a.call_single scope ports))
  unfolding guarantee_single_callable
  guarantee_single_callable_lem a scope ports = elim (Bool-cases (is_double_callable a)) [
    | inl y ↦ rw y (refl, refl, refl)
    | inr n ↦ (rw n n, rw n (rw n refl), rw n refl)
  ]
