-- ===== src/Wsgi/Instance.antt =====
-- WsgiToAsgiInstance of asgiref/wsgi.py: start_response, run_wsgi_app and the call.
use asgire.Prelude.{
  ℕ, suc, ◌+◌, ◌-◌, List, [], ◌∷◌, ◌++◌, Bool, true, false, Option, none, some, ◌=ℕ◌, ◌==◌, list_eq,
  length, take, if◌then◌else◌,
}
use asgire.Prelude.Int.{ℤ, pos, negsuc, ltb_ℤ, ◌-ℤ◌}
use asgire.Prelude.Result.{Result, ok, err}
use asgire.Prelude.Exec.{Exec, ◌>>=◌, ◌>>◌}
use asgire.Text.{Str, Bytes, str, lower, ascii, split_space}
use asgire.Text.Int.{int}
use asgire.Wsgi.Messages.{
  HttpScope, ReceiveEvent, http_request, other, SendEvent, response_start, response_body, Error,
  value_error, type_error, attribute_error, app_error, send_error,
}
use asgire.Wsgi.Environ.{Environ, build_environ, get_or}

-- `sent` is what went through `sync_send`; the server's `send` may raise, which `send_fails` says
-- for the events sent before and the one at hand.
pub record Instance : Type 0 where
  pub duplicate_header_limit : ℕ
  pub response_started : Bool
  pub response_content_length : Option ℤ
  pub response_start_event : Option SendEvent
  pub send_fails : List SendEvent → SendEvent → Option ℕ
  pub sent : List SendEvent

abbrev pub init : ℕ → (List SendEvent → SendEvent → Option ℕ) → Instance
init limit fails = record {
  duplicate_header_limit = limit;
  response_started = false;
  response_content_length = none;
  response_start_event = none;
  send_fails = fails;
  sent = [];
}

abbrev pub Action : Type 0 → Type 0
Action = Exec Instance Error

abbrev pub throw : {A : Type 0} → Error → Action A
throw e s = (err e, s)

abbrev pub return : {A : Type 0} → A → Action A
return a s = (ok a, s)

abbrev or_value_error : {A : Type 0} → Option A → Action A
or_value_error none = throw value_error
or_value_error (some a) = return a

unfoldable pub sync_send : SendEvent → Action Unit
sync_send m s = elim (s.send_fails s.sent m) [
  | some x ↦ (err (send_error x), s)
  | none ↦ (ok tt, record s { sent = s.sent ++ m ∷ [] })
]

-- `[(name.lower().encode("ascii"), value.encode("ascii")) for name, value in response_headers]`
unfoldable pub encode_headers : List (Str × Str) → Option (List (Bytes × Bytes))
encode_headers [] = some []
encode_headers ((name, value) ∷ hs) = elim (encode_headers hs) [
  | none ↦ none
  | some rest ↦ elim (ascii (lower name)) [
    | none ↦ none
    | some n ↦ elim (ascii value) [ none ↦ none | some v ↦ some ((n, v) ∷ rest) ]
  ]
]

abbrev pub is_content_length : Str → Bool
is_content_length name = lower name == str "content-length"

set_length : Option ℤ → Action Unit
set_length none = throw value_error
set_length (some n) = λ s. (ok tt, record s { response_content_length = some n })

-- The loop that looks for Content-Length: the last one stays.
unfoldable pub find_length : List (Str × Str) → Action Unit
unfolding set_length
find_length [] = return tt
find_length ((name, value) ∷ hs) =
    (if is_content_length name then set_length (int value) else return tt) >> find_length hs

abbrev pub raise_exc : Option ℕ → Error
raise_exc none = type_error
raise_exc (some x) = app_error x

-- `hasattr(self, "response_start") and exc_info is None`
unfoldable pub has_second_call : Option SendEvent → Option ℕ → Bool
has_second_call none exc_info = false
has_second_call (some m) none = true
has_second_call (some m) (some x) = false

-- The content length is looked for afresh, then the event is kept.
unfoldable pub keep_start : ℤ → List (Bytes × Bytes) → List (Str × Str) → Action Unit
unfolding find_length
keep_start code encoded headers = do
  λ s. (ok tt, record s { response_content_length = none })
  find_length headers
  λ s. (ok tt, record s { response_start_event = some (response_start code encoded) })

unfoldable pub begin_response : Str → List (Str × Str) → Action Unit
begin_response status headers = do
  parts ← or_value_error (split_space status)
  code ← or_value_error (int parts.0)
  encoded ← or_value_error (encode_headers headers)
  keep_start code encoded headers

unfoldable pub start_response : Str → List (Str × Str) → Option ℕ → Action Unit
unfolding has_second_call
start_response status headers exc_info s =
    if s.response_started
    then throw (raise_exc exc_info) s
    else if has_second_call s.response_start_event exc_info
    then throw value_error s
    else begin_response status headers s

-- A WSGI application together with the iterable that it returns: what it does next. It may call
-- `start_response` at any time and goes on by what the call gave.
pub data App : Type 0 where
  finishes : App
  raises : ℕ → App
  yields : Bytes → App → App
  starts : Str → List (Str × Str) → Option ℕ → (Result Error (Unit {0}) → App) → App

-- `output[:n]`
unfoldable pub slice_to : ℤ → Bytes → Bytes
slice_to (pos n) output = take n output
slice_to (negsuc n) output = take (length output - suc n) output

unfoldable pub truncate : Option ℤ → ℕ → Bytes → Bytes
unfolding slice_to ◌-ℤ◌
truncate none bytes_sent output = output
truncate (some n) bytes_sent output =
    let bytes_allowed = n -ℤ pos bytes_sent in
    if ltb_ℤ bytes_allowed (pos (length output)) then slice_to bytes_allowed output else output

-- `self.sync_send(self.response_start)`, an AttributeError if there is none.
unfoldable pub send_start : Option SendEvent → Action Unit
send_start none = throw attribute_error
send_start (some m) = sync_send m

unfoldable pub ensure_started : Action Unit
unfolding send_start
ensure_started s =
    if s.response_started
    then (ok tt, s)
    else send_start s.response_start_event (record s { response_started = true })

-- `bytes_sent == self.response_content_length`
unfoldable pub reached : ℕ → Option ℤ → Bool
reached n none = false
reached n (some (pos m)) = n =ℕ m
reached n (some (negsuc m)) = false

-- One turn of the `for` loop; the result is the new `bytes_sent`.
unfoldable pub send_output : ℕ → Bytes → Action ℕ
unfolding ensure_started sync_send
send_output bytes_sent output = do
  ensure_started
  cut ← λ s. (ok (truncate s.response_content_length bytes_sent output), s)
  sync_send (response_body cut true)
  return (bytes_sent + length cut)

unfoldable pub close : Action Unit
unfolding ensure_started sync_send
close = do ensure_started; sync_send (response_body [] false)

unfoldable pub iterate : App → ℕ → Action Unit
iterate finishes bytes_sent s = close s
iterate (raises x) bytes_sent s = (err (app_error x), s)
iterate (yields output rest) bytes_sent s =
    (send_output bytes_sent output >>= λ n s'. elim (reached n s'.response_content_length) [
      | true ↦ close s'
      | false ↦ iterate rest n s'
    ])
      s
iterate (starts status headers exc_info rest) bytes_sent s =
    let (r, s') = start_response status headers exc_info s in iterate (rest r) bytes_sent s'

abbrev pub bad_request_start : SendEvent
bad_request_start = response_start (pos 400) ((str "content-type", str "text/plain") ∷ [])

abbrev pub bad_request_body : SendEvent
bad_request_body = response_body (str "Bad Request: Too many duplicate headers") false

-- `except ValueError` takes that error alone.
unfoldable pub run_with : (Environ → App) → Result Error Environ → Action Unit
run_with app (ok environ) = iterate (app environ) 0
run_with app (err value_error) = do sync_send bad_request_start; sync_send bad_request_body
run_with app (err e) = throw e

unfoldable pub run_wsgi_app : (Environ → App) → HttpScope → Bytes → Action Unit
unfolding run_with
run_wsgi_app app scope body s = run_with app (build_environ s.duplicate_header_limit scope body) s

-- What the wait for the request comes to: the body, an error, or a wait that the events given do
-- not end.
pub data Received : Type 0 where
  complete : Bytes → Received
  not_request : Received
  waiting : Received

unfoldable pub receive_body : List ReceiveEvent → Bytes → Received
receive_body [] body = waiting
receive_body (other ∷ events) body = not_request
receive_body (http_request chunk more_body ∷ events) body =
    let body' = body ++ get_or chunk [] in
    elim (get_or more_body false) [ true ↦ receive_body events body' | false ↦ complete body' ]

-- The end of a call, or a wait for ever.
pub data Called : Type 0 where
  ends : Result Error (Unit {0}) → Instance → Called
  waits : Called

unfoldable pub call_received : (Environ → App) → HttpScope → Received → Instance → Called
call_received app scope (complete body) s = let (r, s') = run_wsgi_app app scope body s in ends r s'
call_received app scope not_request s = ends (err value_error) s
call_received app scope waiting s = waits

unfoldable pub call : (Environ → App) → HttpScope → List ReceiveEvent → Instance → Called
unfolding call_received receive_body
call app scope events s =
    if scope.type_name == str "http"
    then call_received app scope (receive_body events []) s
    else ends (err value_error) s
