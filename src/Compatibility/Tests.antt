-- ===== src/Compatibility/Tests.antt =====
-- Applications of each kind, and the theorems on one of them.
use asgire.Prelude.{ℕ, ◌+◌, zero, suc, true, false, some, ◌≡◌, refl, if◌then◌else◌}
use asgire.Prelude.Result.{Result, ok, err, ◌>>=◌}
use asgire.Compatibility.{
  Error, type_error, raised, Application, is_double_callable, guarantee_single_callable,
  double_to_single_callable,
}
use asgire.Compatibility.Guarantee.{guarantee_single_callable_lem}

-- A class whose instances are called with the ports; a scope of 0 is refused.
abbrev instantiate : ℕ → Result Error (ℕ → Result Error ℕ)
instantiate zero = err (raised 9)
instantiate (suc n) = ok (λ ports. ok (n + ports))

abbrev old_class : Application ℕ ℕ ℕ
old_class = record {
  asgi_single_callable = false;
  asgi_double_callable = false;
  is_class = true;
  call_is_coroutine = some false;
  is_coroutine = false;
  call_single = λ scope ports. err type_error;
  call_double = instantiate;
}

abbrev object_with_call : Application ℕ ℕ ℕ
object_with_call = record old_class { is_class = false; call_is_coroutine = some true }

abbrev plain_function : Application ℕ ℕ ℕ
plain_function = record old_class { is_class = false }

kinds :
    (is_double_callable old_class ≡ true)
    × (is_double_callable object_with_call ≡ false)
    × (is_double_callable plain_function ≡ true)
    × (is_double_callable (record old_class { asgi_single_callable = true }) ≡ false)
unfolding is_double_callable
kinds = (refl, refl, refl, refl)

calls :
    ((guarantee_single_callable old_class).call_single 3 4 ≡ ok 6)
    × ((guarantee_single_callable old_class).call_single 0 4 ≡ err (raised 9))
unfolding guarantee_single_callable is_double_callable double_to_single_callable
calls = (refl, refl)

guarantee_single_callable_lem_example :
    (is_double_callable (guarantee_single_callable old_class) ≡ false)
    × (guarantee_single_callable (guarantee_single_callable old_class)
        ≡ guarantee_single_callable old_class)
    × ((guarantee_single_callable old_class).call_single 3 4 ≡ (
        if is_double_callable old_class
        then (old_class.call_double 3 >>= λ inst. inst 4)
        else old_class.call_single 3 4))
guarantee_single_callable_lem_example = guarantee_single_callable_lem old_class 3 4
