-- ===== src/Wsgi/Receive.antt =====
-- The wait for the request's body, and what a call comes to.
use asgire.Prelude.{
  List, [], ◌∷◌, ◌++◌, Bool, true, false, Option, none, some, ◌≡◌, refl, sym, ◌∙◌, ap, append_assoc,
  append-nil, ◌==◌, list_eq, if◌then◌else◌,
}
use asgire.Prelude.Result.{err}
use asgire.Text.{Bytes, str}
use asgire.Wsgi.Messages.{HttpScope, ReceiveEvent, http_request, other, value_error}
use asgire.Wsgi.Environ.{Environ, get_or}
use asgire.Wsgi.Instance.{
  Instance, App, Received, complete, receive_body, run_wsgi_app, call, call_received, Called, ends,
  waits,
}

-- Request events that announce more, the body missing in some.
abbrev pub parts : List (Option Bytes) → List ReceiveEvent
parts [] = []
parts (c ∷ cs) = http_request c (some true) ∷ parts cs

abbrev pub joined : List (Option Bytes) → Bytes
joined [] = []
joined (c ∷ cs) = get_or c [] ++ joined cs

receive_parts :
    (cs : List (Option Bytes)) (events : List ReceiveEvent) (body : Bytes)
    → receive_body (parts cs ++ events) body ≡ receive_body events (body ++ joined cs)
unfolding receive_body
receive_parts [] events body = ap (receive_body events) (sym (append-nil body))
receive_parts (c ∷ cs) events body =
    receive_parts cs events (body ++ get_or c [])
    ∙ ap (receive_body events) (append_assoc body (get_or c []) (joined cs))

-- What is to come of the events: the first that is not a request, or announces no more, decides.
abbrev pub expected : (Environ → App) → HttpScope → Bytes → List ReceiveEvent → Instance → Called
expected app scope body [] s = waits
expected app scope body (other ∷ rest) s = ends (err value_error) s
expected app scope body (http_request c more ∷ rest) s =
    let r = run_wsgi_app app scope (body ++ get_or c []) s in ends r.0 r.1

abbrev pub IsLast : List ReceiveEvent → Type 0
IsLast [] = Unit {0}
IsLast (other ∷ rest) = Unit {0}
IsLast (http_request c more ∷ rest) = get_or more false ≡ false

receive_last :
    (c : Option Bytes) (more : Option Bool) (rest : List ReceiveEvent) (body : Bytes)
    → get_or more false ≡ false
    → receive_body (http_request c more ∷ rest) body ≡ complete (body ++ get_or c [])
unfolding receive_body
receive_last c none rest body h = refl
receive_last c (some false) rest body h = refl
receive_last c (some true) rest body h = cc

received_last :
    (app : Environ → App) (scope : HttpScope) (body : Bytes) (last : List ReceiveEvent)
    (s : Instance)
    → IsLast last
    → call_received app scope (receive_body last body) s ≡ expected app scope body last s
unfolding call_received receive_body
received_last app scope body [] s h = refl
received_last app scope body (other ∷ rest) s h = refl
received_last app scope body (http_request c more ∷ rest) s h =
    ap (λ (r : Received). call_received app scope r s) (receive_last c more rest body h)

-- In an http scope, after any events that announce more: the call runs the WSGI application on
-- all the bodies joined in order, a missing one being empty, when an event announces no more,
-- whatever comes later; it raises a ValueError at the first event of another type; and it waits
-- where the events end.
pub call-eq-expected :
    (app : Environ → App) (scope : HttpScope) (cs : List (Option Bytes)) (last : List ReceiveEvent)
    (s : Instance)
    → (scope.type_name == str "http") ≡ true
    → IsLast last
    → call app scope (parts cs ++ last) s ≡ expected app scope (joined cs) last s
unfolding call
call-eq-expected app scope cs last s http h =
    ap
      (λ (b : Bool).
        if b
        then call_received app scope (receive_body (parts cs ++ last) []) s
        else ends (err value_error) s)
      http
    ∙ ap (λ (r : Received). call_received app scope r s) (receive_parts cs last [])
    ∙ received_last app scope (joined cs) last s h
