-- ===== src/Wsgi/Refused.antt =====
-- The requests that do not reach the WSGI application.
use asgire.Prelude.{
  ℕ, ◌≤◌, ◌<◌, List, [], ◌∷◌, Option, none, some, ◌≡◌, ◌≢◌, ◌⊎◌, inl, inr, ap, arith, length,
}
use asgire.Prelude.Result.{Result, ok, err}
use asgire.Text.{Str, Bytes, utf8, ascii}
use asgire.Wsgi.Messages.{HttpScope, null, Error, value_error, type_error, SendEvent}
use asgire.Wsgi.Environ.{Environ, Headers, get_or, base_of, group_headers, build_environ}
use asgire.Wsgi.Instance.{
  App, Instance, init, run_wsgi_app, run_with, sync_send, bad_request_start, bad_request_body,
}
use asgire.Wsgi.Headers.{values_of, Grouped, group_headers-Grouped}

abbrev pub never_fails : List SendEvent → SendEvent → Option ℕ
never_fails ms m = none

-- The instance after a refusal.
abbrev pub refused : ℕ → Instance
refused limit = record (init limit never_fails) { sent = bad_request_start ∷ bad_request_body ∷ [] }

run_refused :
    (app : Environ → App) (limit : ℕ) (scope : HttpScope) (body : Bytes)
    → build_environ limit scope body ≡ err value_error
    → run_wsgi_app app scope body (init limit never_fails) ≡ (ok tt, refused limit)
unfolding run_wsgi_app run_with sync_send
run_refused app limit scope body h = ap (λ r. run_with app r (init limit never_fails)) h

over_refused :
    (limit : ℕ) (hs : List (Bytes × Bytes)) (r : Result Error Headers) (k : Str)
    → Grouped limit hs r
    → limit ≢ 0
    → limit < length (values_of k hs)
    → r ≡ err value_error
over_refused limit hs (ok d) k g nz lt = go (g.2 k)
  where
    go :
        (limit ≡ 0) ⊎ (length (values_of k hs) ≤ limit)
        → ◌≡◌ {A = Result Error Headers} (ok d) (err value_error)
    go (inl z) = absurd (nz z)
    go (inr le) = absurd (omega arith)
over_refused limit hs (err e) k g nz lt = ap err g.0

build_without_base :
    (limit : ℕ) (scope : HttpScope) (body : Bytes) (e : Error)
    → base_of scope body ≡ err e
    → build_environ limit scope body ≡ err e
unfolding build_environ
build_without_base limit scope body e h = rw h

build_over :
    (limit : ℕ) (scope : HttpScope) (body : Bytes) (base : Environ) (e : Error)
    → base_of scope body ≡ ok base
    → group_headers limit scope.headers [] ≡ err e
    → build_environ limit scope body ≡ err e
unfolding build_environ
build_over limit scope body base e h g = rw (h, g)

module _ (scope : HttpScope) (body root path : Bytes)
    (r : utf8 (get_or scope.root_path []) ≡ some root) (p : utf8 scope.path ≡ some path) where
  base_non_ascii : ascii scope.query_string ≡ none → base_of scope body ≡ err value_error
  unfolding base_of
  base_non_ascii q = rw (r, p, q)

  base_no_server :
      (query : Bytes)
      → ascii scope.query_string ≡ some query
      → scope.server ≡ null
      → base_of scope body ≡ err type_error
  unfolding base_of
  base_no_server query q n = ground arith

-- A request with more headers of one corrected name than the limit, which is not 0, is answered
-- by the two events of a 400 response; the application does not run.
too_many_headers_refused :
    (app : Environ → App) (limit : ℕ) (scope : HttpScope) (body : Bytes) (base : Environ) (k : Str)
    → base_of scope body ≡ ok base
    → limit ≢ 0
    → limit < length (values_of k scope.headers)
    → run_wsgi_app app scope body (init limit never_fails) ≡ (ok tt, refused limit)
too_many_headers_refused app limit scope body base k b nz lt = run_refused app limit scope body (
    build_over limit scope body base value_error b (
      over_refused limit scope.headers (group_headers limit scope.headers []) k
        (group_headers-Grouped limit scope.headers) nz lt))

-- A request whose query string is not ASCII gets the same answer, whatever its headers: a 400
-- response with the text about duplicate headers.
non_ascii_query_refused :
    (app : Environ → App) (limit : ℕ) (scope : HttpScope) (body : Bytes) (root path : Bytes)
    → utf8 (get_or scope.root_path []) ≡ some root
    → utf8 scope.path ≡ some path
    → ascii scope.query_string ≡ none
    → run_wsgi_app app scope body (init limit never_fails) ≡ (ok tt, refused limit)
non_ascii_query_refused app limit scope body root path r p q =
    run_refused app limit scope body
      (build_without_base limit scope body value_error (base_non_ascii scope body root path r p q))

-- A scope whose server is None raises a TypeError before anything is sent.
server_none_raises :
    (app : Environ → App) (limit : ℕ) (scope : HttpScope) (body : Bytes) (root path query : Bytes)
    → utf8 (get_or scope.root_path []) ≡ some root
    → utf8 scope.path ≡ some path
    → ascii scope.query_string ≡ some query
    → scope.server ≡ null
    → run_wsgi_app app scope body (init limit never_fails)
      ≡ (err type_error, init limit never_fails)
unfolding run_wsgi_app run_with
server_none_raises app limit scope body root path query r p q n =
    ap (λ e. run_with app e (init limit never_fails))
      (build_without_base limit scope body type_error
        (base_no_server scope body root path r p query q n))
