-- ===== src/Wsgi/Tests.antt =====
-- Runs of the WSGI wrapper, and its theorems at concrete inputs.
use asgire.Prelude.{List, [], ◌∷◌, ◌++◌, true, false, none, some, ◌≡◌, refl, arith, list_eq}
use asgire.Prelude.Dict.{get, insert}
use asgire.Prelude.Int.{pos}
use asgire.Prelude.Result.{Result, ok, err}
use asgire.Text.{
  Bytes, str, lower, upper, dashes_to_underscores, ascii, utf8, starts_with, split_space,
  join_commas,
}
use asgire.Text.Int.{int}
use asgire.Wsgi.Messages.{
  HttpScope, http_request, other, absent, SendEvent, response_start, response_body, Error,
}
use asgire.Wsgi.Environ.{
  Environ, text, build_environ, base_of, corrected_name, group_headers, set_headers,
}
use asgire.Wsgi.Instance.{
  Instance, App, starts, init, iterate, start_response, begin_response, keep_start, encode_headers,
  find_length, send_output, truncate, reached, close, call,
}
use asgire.Wsgi.Length.{Within, iterate-Within}
use asgire.Wsgi.Adapter.{WsgiToAsgi, call_adapter, AfterCall, call_adapter-After}
use asgire.Wsgi.Exact.{Exact, iterate-Exact, outputs}
use asgire.Wsgi.Joined.{get-build_environ}
use asgire.Wsgi.Receive.{parts, expected, call-eq-expected}
use asgire.Wsgi.Refused.{never_fails}

abbrev cookies : List (Bytes × Bytes)
cookies = (str "x-a", str "1") ∷ (str "host", str "h") ∷ (str "X-A", str "2") ∷ []

abbrev scope : HttpScope
scope = record {
  type_name = str "http";
  http_version = str "1.1";
  method = str "GET";
  scheme = none;
  path = str "/app/x";
  query_string = str "q=1";
  root_path = some (str "/app");
  headers = cookies;
  client = none;
  server = absent;
}

-- It names five bytes and yields seven.
abbrev app : Environ → App
app environ =
    starts (str "200 OK") ((str "Content-Length", str "5") ∷ []) none
      λ r. outputs ((1 ∷ 2 ∷ 3 ∷ []) ∷ (4 ∷ 5 ∷ 6 ∷ 7 ∷ []) ∷ [])

abbrev start : SendEvent
start = response_start (pos 200) ((str "content-length", str "5") ∷ [])

served :
    (iterate (app []) 0 (init 100 never_fails)).1.sent
    ≡ start
      ∷ response_body (1 ∷ 2 ∷ 3 ∷ []) true
      ∷ response_body (4 ∷ 5 ∷ []) true
      ∷ response_body [] false
      ∷ []
unfolding iterate start_response begin_response keep_start encode_headers find_length send_output
    truncate reached close lower split_space int ascii
served = refl

iterate-Within_example : Within (iterate (app []) 0 (init 100 never_fails)).1
iterate-Within_example = iterate-Within (app []) 100 never_fails

abbrev three : Bytes
three = 1 ∷ 2 ∷ 3 ∷ []

-- The instance after the application's call of `start_response`.
abbrev begun : Instance
begun = record (init 100 never_fails) {
  response_content_length = some (pos 5);
  response_start_event = some start;
}

begun_test :
    start_response (str "200 OK") ((str "Content-Length", str "5") ∷ []) none (init 100 never_fails)
    ≡ (ok tt, begun)
unfolding start_response begin_response keep_start encode_headers find_length lower split_space int
    ascii
begun_test = refl

iterate-Exact_example : Exact begun start ((1 ∷ 2 ∷ 3 ∷ []) ∷ (4 ∷ 5 ∷ 6 ∷ 7 ∷ []) ∷ [])
iterate-Exact_example =
    iterate-Exact begun start ((1 ∷ 2 ∷ 3 ∷ []) ∷ (4 ∷ 5 ∷ 6 ∷ 7 ∷ []) ∷ []) (λ ms m. refl) refl
      refl (omega arith)

abbrev environ_of : Result Error Environ → Environ
environ_of (ok environ) = environ
environ_of (err e) = []

get-build_environ_example :
    get (str "HTTP_X_A") (environ_of (build_environ 100 scope []))
    ≡ some (text (join_commas (str "1" ∷ str "2" ∷ [])))
unfolding build_environ base_of group_headers set_headers corrected_name upper dashes_to_underscores
    get insert utf8 ascii starts_with
get-build_environ_example =
    get-build_environ 100 scope [] (environ_of (build_environ 100 scope [])) (str "HTTP_X_A")
      (str "1") (str "2" ∷ []) refl refl

path_info_test :
    get (str "PATH_INFO") (environ_of (build_environ 100 scope [])) ≡ some (text (str "/x"))
unfolding build_environ base_of group_headers set_headers corrected_name upper dashes_to_underscores
    get insert utf8 ascii starts_with
path_info_test = refl

call-eq-expected_example :
    call app scope
      (parts (some (1 ∷ []) ∷ none ∷ []) ++ http_request (some (2 ∷ [])) none ∷ other ∷ [])
      (init 100 never_fails)
    ≡ expected app scope
        (1 ∷ [])
        (http_request (some (2 ∷ [])) none ∷ other ∷ [])
        (init 100 never_fails)
call-eq-expected_example =
    call-eq-expected app scope (some (1 ∷ []) ∷ none ∷ [])
      (http_request (some (2 ∷ [])) none ∷ other ∷ []) (init 100 never_fails) refl refl

abbrev adapter : WsgiToAsgi
adapter = record { wsgi_application = app; duplicate_header_limit = 100 }

call_adapter-After_example :
    AfterCall
      (call_adapter adapter never_fails scope (http_request (some (2 ∷ [])) none ∷ other ∷ []))
call_adapter-After_example =
    call_adapter-After adapter never_fails scope (http_request (some (2 ∷ [])) none ∷ other ∷ [])
