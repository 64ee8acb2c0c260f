-- ===== src/Wsgi/Adapter.antt =====
-- WsgiToAsgi of asgiref/wsgi.py: the adapter that makes a fresh instance for every call.
use asgire.Prelude.{ℕ, List, [], Option, ◌==◌, list_eq, inl, inr, refl, Bool-cases}
use asgire.Text.{str}
use asgire.Wsgi.Messages.{HttpScope, ReceiveEvent, SendEvent}
use asgire.Wsgi.Environ.{Environ}
use asgire.Wsgi.Instance.{
  App, init, Called, ends, waits, Received, complete, not_request, waiting, call, call_received,
  receive_body,
}
use asgire.Wsgi.Protocol.{After, Complete, run_wsgi_app-After}

pub record WsgiToAsgi : Type 0 where
  pub wsgi_application : Environ → App
  pub duplicate_header_limit : ℕ

-- A call with a server's `send`, which may fail, and the events that `receive` gives.
unfoldable pub call_adapter :
    WsgiToAsgi → (List SendEvent → SendEvent → Option ℕ) → HttpScope → List ReceiveEvent → Called
call_adapter adapter fails scope events =
    call adapter.wsgi_application scope events (init adapter.duplicate_header_limit fails)

abbrev pub AfterCall : Called → Type 0
AfterCall waits = Unit
AfterCall (ends r s) = After Complete (r, s)

call_received-After :
    (app : Environ → App) (scope : HttpScope) (limit : ℕ)
    (fails : List SendEvent → SendEvent → Option ℕ) (r : Received)
    → AfterCall (call_received app scope r (init limit fails))
unfolding call_received
call_received-After app scope limit fails (complete body) =
    run_wsgi_app-After app scope body limit fails
call_received-After app scope limit fails not_request = inl refl
call_received-After app scope limit fails waiting = tt

-- Whatever the scope, the events received, the application and the sends that fail: a call of the
-- adapter waits for ever; or returns, and one start event was sent, then bodies with `more_body`,
-- then one without; or raises, and what was sent is nothing, or a start event and bodies with
-- `more_body`.
pub call_adapter-After :
    (adapter : WsgiToAsgi) (fails : List SendEvent → SendEvent → Option ℕ) (scope : HttpScope)
    (events : List ReceiveEvent)
    → AfterCall (call_adapter adapter fails scope events)
unfolding call_adapter call
call_adapter-After adapter fails scope events = elim (Bool-cases (scope.type_name == str "http")) [
  | inl y ↦ rw y (
      call_received-After adapter.wsgi_application scope adapter.duplicate_header_limit fails
        (receive_body events []))
  | inr n ↦ rw n (inl refl)
]
