-- ===== src/Compatibility.antt =====
-- asgiref/compatibility.py: single- and double-callable applications. An application is what the
-- code can see of it: two hints, what `inspect` says, and what calling it does.
pub mod Guarantee
mod Tests
use asgire.Prelude.{ℕ, Bool, true, false, not, Option, none, some, if◌then◌else◌}
use asgire.Prelude.Result.{Result, ok, err, ◌>>=◌}

pub data Error : Type 0 where
  type_error : Error
  raised : ℕ → Error

-- `call_is_coroutine` is `iscoroutinefunction(application.__call__)`, where there is a `__call__`.
-- A call takes the scope, receive and send, or the scope alone; `Ports` are receive and send. What
-- awaiting a call gives is in the results.
pub record Application (Scope Ports Value : Type 0) : Type 0 where
  pub asgi_single_callable : Bool
  pub asgi_double_callable : Bool
  pub is_class : Bool
  pub call_is_coroutine : Option Bool
  pub is_coroutine : Bool
  pub call_single : Scope → Ports → Result Error Value
  pub call_double : Scope → Result Error (Ports → Result Error Value)

abbrev has_coroutine_call : Option Bool → Bool
has_coroutine_call none = false
has_coroutine_call (some b) = b

module _ {Scope Ports Value : Type 0} where
  unfoldable pub is_double_callable : Application Scope Ports Value → Bool
  is_double_callable application =
      if application.asgi_single_callable
      then false
      else if application.asgi_double_callable
      then true
      else if application.is_class
      then true
      else if has_coroutine_call application.call_is_coroutine
      then false
      else not application.is_coroutine

  -- `new_application`, an async function: its `__call__` is none. With one argument it is a
  -- TypeError.
  unfoldable pub double_to_single_callable :
      Application Scope Ports Value → Application Scope Ports Value
  double_to_single_callable application = record {
    asgi_single_callable = false;
    asgi_double_callable = false;
    is_class = false;
    call_is_coroutine = some false;
    is_coroutine = true;
    call_single = λ scope ports. do
      inst ← application.call_double scope
      inst ports;
    call_double = λ scope. err type_error;
  }

  unfoldable pub guarantee_single_callable :
      Application Scope Ports Value → Application Scope Ports Value
  unfolding is_double_callable double_to_single_callable
  guarantee_single_callable application =
      if is_double_callable application then double_to_single_callable application else application
