-- ===== src/Typing/Scopes.antt =====
-- The scopes of asgiref/typing.py.
use asgire.Prelude.{List, [], ◌∷◌}
use asgire.Text.{str}
use asgire.Typing.{
  PyType, any_type, int_type, str_type, bytes_type, literal, either, iterable, tuple_of, dict_of,
  typed_dict, optional, no_keys, ◌&◌, required, not_required, Class,
}

-- `Iterable[Tuple[bytes, bytes]]`
abbrev pub headers_type : PyType
headers_type = iterable (tuple_of bytes_type bytes_type)

abbrev pub asgi_versions : PyType
asgi_versions = typed_dict (
    required (str "spec_version") str_type
    & required (str "version") (either (literal (str "2.0")) (literal (str "3.0")))
    & no_keys)

abbrev pub http_scope : Class
http_scope = record {
  type_name = str "http";
  keys =
      required (str "asgi") asgi_versions
      & required (str "http_version") str_type
      & required (str "method") str_type
      & required (str "scheme") str_type
      & required (str "path") str_type
      & required (str "raw_path") bytes_type
      & required (str "query_string") bytes_type
      & required (str "root_path") str_type
      & required (str "headers") headers_type
      & required (str "client") (optional (tuple_of str_type int_type))
      & required (str "server") (optional (tuple_of str_type (optional int_type)))
      & not_required (str "state") (dict_of str_type any_type)
      & required (str "extensions") (optional (dict_of str_type (dict_of any_type any_type)))
      & no_keys;
}

abbrev pub websocket_scope : Class
websocket_scope = record {
  type_name = str "websocket";
  keys =
      required (str "asgi") asgi_versions
      & required (str "http_version") str_type
      & required (str "scheme") str_type
      & required (str "path") str_type
      & required (str "raw_path") bytes_type
      & required (str "query_string") bytes_type
      & required (str "root_path") str_type
      & required (str "headers") headers_type
      & required (str "client") (optional (tuple_of str_type int_type))
      & required (str "server") (optional (tuple_of str_type (optional int_type)))
      & required (str "subprotocols") (iterable str_type)
      & not_required (str "state") (dict_of str_type any_type)
      & required (str "extensions") (optional (dict_of str_type (dict_of any_type any_type)))
      & no_keys;
}

abbrev pub lifespan_scope : Class
lifespan_scope = record {
  type_name = str "lifespan";
  keys =
      required (str "asgi") asgi_versions
      & not_required (str "state") (dict_of str_type any_type)
      & no_keys;
}

-- `WWWScope`
abbrev pub www_scope : List Class
www_scope = http_scope ∷ websocket_scope ∷ []

-- `Scope`
abbrev pub scope : List Class
scope = http_scope ∷ websocket_scope ∷ lifespan_scope ∷ []
