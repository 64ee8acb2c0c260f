-- ===== src/Typing/Events.antt =====
-- The events of asgiref/typing.py.
use asgire.Prelude.{List, [], ◌∷◌}
use asgire.Text.{str}
use asgire.Typing.{
  any_type, bool_type, int_type, str_type, bytes_type, dict_of, optional, no_keys, ◌&◌, required,
  Class,
}
use asgire.Typing.Scopes.{headers_type}

abbrev pub http_request_event : Class
http_request_event = record {
  type_name = str "http.request";
  keys = required (str "body") bytes_type & required (str "more_body") bool_type & no_keys;
}

abbrev pub http_response_debug_event : Class
http_response_debug_event = record {
  type_name = str "http.response.debug";
  keys = required (str "info") (dict_of str_type any_type) & no_keys;
}

abbrev pub http_response_start_event : Class
http_response_start_event = record {
  type_name = str "http.response.start";
  keys =
      required (str "status") int_type
      & required (str "headers") headers_type
      & required (str "trailers") bool_type
      & no_keys;
}

abbrev pub http_response_body_event : Class
http_response_body_event = record {
  type_name = str "http.response.body";
  keys = required (str "body") bytes_type & required (str "more_body") bool_type & no_keys;
}

abbrev pub http_response_trailers_event : Class
http_response_trailers_event = record {
  type_name = str "http.response.trailers";
  keys = required (str "headers") headers_type & required (str "more_trailers") bool_type & no_keys;
}

abbrev pub http_response_pathsend_event : Class
http_response_pathsend_event = record {
  type_name = str "http.response.pathsend";
  keys = required (str "path") str_type & no_keys;
}

abbrev pub http_server_push_event : Class
http_server_push_event = record {
  type_name = str "http.response.push";
  keys = required (str "path") str_type & required (str "headers") headers_type & no_keys;
}

abbrev pub http_disconnect_event : Class
http_disconnect_event = record { type_name = str "http.disconnect"; keys = no_keys }

abbrev pub websocket_connect_event : Class
websocket_connect_event = record { type_name = str "websocket.connect"; keys = no_keys }

abbrev pub websocket_accept_event : Class
websocket_accept_event = record {
  type_name = str "websocket.accept";
  keys =
      required (str "subprotocol") (optional str_type)
      & required (str "headers") headers_type
      & no_keys;
}

abbrev pub websocket_receive_event : Class
websocket_receive_event = record {
  type_name = str "websocket.receive";
  keys =
      required (str "bytes") (optional bytes_type)
      & required (str "text") (optional str_type)
      & no_keys;
}

abbrev pub websocket_send_event : Class
websocket_send_event = record {
  type_name = str "websocket.send";
  keys =
      required (str "bytes") (optional bytes_type)
      & required (str "text") (optional str_type)
      & no_keys;
}

abbrev pub websocket_response_start_event : Class
websocket_response_start_event = record {
  type_name = str "websocket.http.response.start";
  keys = required (str "status") int_type & required (str "headers") headers_type & no_keys;
}

abbrev pub websocket_response_body_event : Class
websocket_response_body_event = record {
  type_name = str "websocket.http.response.body";
  keys = required (str "body") bytes_type & required (str "more_body") bool_type & no_keys;
}

abbrev pub websocket_disconnect_event : Class
websocket_disconnect_event = record {
  type_name = str "websocket.disconnect";
  keys = required (str "code") int_type & required (str "reason") (optional str_type) & no_keys;
}

abbrev pub websocket_close_event : Class
websocket_close_event = record {
  type_name = str "websocket.close";
  keys = required (str "code") int_type & required (str "reason") (optional str_type) & no_keys;
}

abbrev pub lifespan_startup_event : Class
lifespan_startup_event = record { type_name = str "lifespan.startup"; keys = no_keys }

abbrev pub lifespan_shutdown_event : Class
lifespan_shutdown_event = record { type_name = str "lifespan.shutdown"; keys = no_keys }

abbrev pub lifespan_startup_complete_event : Class
lifespan_startup_complete_event = record {
  type_name = str "lifespan.startup.complete";
  keys = no_keys;
}

abbrev pub lifespan_startup_failed_event : Class
lifespan_startup_failed_event = record {
  type_name = str "lifespan.startup.failed";
  keys = required (str "message") str_type & no_keys;
}

abbrev pub lifespan_shutdown_complete_event : Class
lifespan_shutdown_complete_event = record {
  type_name = str "lifespan.shutdown.complete";
  keys = no_keys;
}

abbrev pub lifespan_shutdown_failed_event : Class
lifespan_shutdown_failed_event = record {
  type_name = str "lifespan.shutdown.failed";
  keys = required (str "message") str_type & no_keys;
}

-- `ASGIReceiveEvent`
abbrev pub asgi_receive_event : List Class
asgi_receive_event =
    http_request_event ∷ http_disconnect_event ∷ websocket_connect_event ∷ websocket_receive_event
    ∷ websocket_disconnect_event ∷ lifespan_startup_event ∷ lifespan_shutdown_event ∷ []

-- `ASGISendEvent`
abbrev pub asgi_send_event : List Class
asgi_send_event =
    http_response_start_event ∷ http_response_body_event ∷ http_response_trailers_event
    ∷ http_server_push_event ∷ http_disconnect_event ∷ websocket_accept_event ∷ websocket_send_event
    ∷ websocket_response_start_event ∷ websocket_response_body_event ∷ websocket_close_event
    ∷ lifespan_startup_complete_event ∷ lifespan_startup_failed_event
    ∷ lifespan_shutdown_complete_event ∷ lifespan_shutdown_failed_event ∷ []
