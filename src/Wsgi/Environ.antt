-- ===== src/Wsgi/Environ.antt =====
-- WsgiToAsgiInstance.build_environ of asgiref/wsgi.py.
use asgire.Prelude.{
  ℕ, List, [], ◌∷◌, ◌++◌, Bool, true, false, not, ◌&&◌, Option, none, some, leb, ◌=ℕ◌, ◌==◌,
  list_eq, length, drop, if◌then◌else◌,
}
use asgire.Prelude.Dict.{Dict, get, insert}
use asgire.Prelude.Result.{Result, ok, err, ◌>>=◌}
use asgire.Text.{
  Str, Bytes, str, upper, dashes_to_underscores, ascii, utf8, starts_with, join_commas, decimal,
}
use asgire.Wsgi.Messages.{
  HttpScope, ServerKey, absent, null, address, Error, value_error, type_error,
}

pub data EnvValue : Type 0 where
  text : Str → EnvValue
  version : ℕ → ℕ → EnvValue
  input : Bytes → EnvValue
  stderr : EnvValue
  flag : Bool → EnvValue

abbrev pub Environ : Type 0
Environ = Dict Str EnvValue

abbrev pub get_or : {A : Type 0} → Option A → A → A
get_or none d = d
get_or (some a) d = a

or_value_error : {A : Type 0} → Option A → Result Error A
or_value_error none = err value_error
or_value_error (some a) = ok a

-- The name under which a header stands in the environ.
unfoldable pub corrected_name : Bytes → Str
corrected_name name =
    if name == str "content-length"
    then str "CONTENT_LENGTH"
    else if name == str "content-type"
    then str "CONTENT_TYPE"
    else str "HTTP_" ++ dashes_to_underscores (upper name)

abbrev pub Headers : Type 0
Headers = Dict Str (List Str)

-- A limit of 0 is no limit.
unfoldable pub add_header : ℕ → Bytes × Bytes → Headers → Result Error Headers
add_header limit (name, value) headers =
    let key = corrected_name name in
    let values = get_or (get key headers) [] in
    if not (limit =ℕ 0) && leb limit (length values)
    then err value_error
    else ok (insert key (values ++ value ∷ []) headers)

unfoldable pub group_headers : ℕ → List (Bytes × Bytes) → Headers → Result Error Headers
unfolding add_header
group_headers limit [] headers = ok headers
group_headers limit (h ∷ hs) headers = do
  headers' ← add_header limit h headers
  group_headers limit hs headers'

-- `for name, values in _headers.items(): environ[name] = ",".join(values)`
unfoldable pub set_headers : Headers → Environ → Environ
set_headers [] environ = environ
set_headers ((name, values) ∷ rest) environ =
    set_headers rest (insert name (text (join_commas values)) environ)

-- `str(port)`, which is "None" where there is no port.
port_text : Option ℕ → Str
port_text none = str "None"
port_text (some port) = decimal port

set_server : ServerKey → Environ → Result Error Environ
unfolding port_text
set_server absent environ = ok (
    insert (str "SERVER_PORT") (text (str "80"))
      (insert (str "SERVER_NAME") (text (str "localhost")) environ))
set_server null environ = err type_error
set_server (address host port) environ = ok (
    insert (str "SERVER_PORT") (text (port_text port))
      (insert (str "SERVER_NAME") (text host) environ))

set_client : Option (Str × ℕ) → Environ → Environ
set_client none environ = environ
set_client (some (host, port)) environ = insert (str "REMOTE_ADDR") (text host) environ

strip_script_name : Str → Str → Str
strip_script_name script_name path_info =
    if starts_with path_info script_name then drop (length script_name) path_info else path_info

-- The dict display of the first part.
base_environ : HttpScope → Bytes → Str → Str → Str → Environ
base_environ scope body script_name path_info query_string =
    (str "REQUEST_METHOD", text scope.method)
    ∷ (str "SCRIPT_NAME", text script_name)
    ∷ (str "PATH_INFO", text path_info)
    ∷ (str "QUERY_STRING", text query_string)
    ∷ (str "SERVER_PROTOCOL", text (str "HTTP/" ++ scope.http_version))
    ∷ (str "wsgi.version", version 1 0)
    ∷ (str "wsgi.url_scheme", text (get_or scope.scheme (str "http")))
    ∷ (str "wsgi.input", input body)
    ∷ (str "wsgi.errors", stderr)
    ∷ (str "wsgi.multithread", flag true)
    ∷ (str "wsgi.multiprocess", flag true)
    ∷ (str "wsgi.run_once", flag false)
    ∷ []

-- The environ before the headers go in.
unfoldable pub base_of : HttpScope → Bytes → Result Error Environ
unfolding strip_script_name base_environ set_server set_client or_value_error
base_of scope body = do
  script_name ← or_value_error (utf8 (get_or scope.root_path []))
  path ← or_value_error (utf8 scope.path)
  query_string ← or_value_error (ascii scope.query_string)
  let path_info = strip_script_name script_name path
  environ ← set_server scope.server (base_environ scope body script_name path_info query_string)
  ok (set_client scope.client environ)

unfoldable pub build_environ : ℕ → HttpScope → Bytes → Result Error Environ
build_environ limit scope body = do
  environ ← base_of scope body
  headers ← group_headers limit scope.headers []
  ok (set_headers headers environ)
