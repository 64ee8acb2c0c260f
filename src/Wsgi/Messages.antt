-- ===== src/Wsgi/Messages.antt =====
-- The ASGI scope and messages of asgiref/typing.py, as asgiref/wsgi.py reads and writes them. A key
-- that the code reads with `.get` or tests with `in` may be missing.
use asgire.Prelude.{ℕ, Bool, Option, List}
use asgire.Prelude.Int.{ℤ}
use asgire.Text.{Str, Bytes}

-- `scope["server"]`: absent, None, or a host with a port, which is None for a unix socket.
pub data ServerKey : Type 0 where
  absent null : ServerKey
  address : Str → Option ℕ → ServerKey

pub record HttpScope : Type 0 where
  pub type_name : Str
  pub http_version : Str
  pub method : Str
  pub scheme : Option Str
  pub path : Str
  pub query_string : Bytes
  pub root_path : Option Str
  pub headers : List (Bytes × Bytes)
  pub client : Option (Str × ℕ)
  pub server : ServerKey

-- What `receive` gives: an http.request event, or one of another type.
pub data ReceiveEvent : Type 0 where
  http_request : Option Bytes → Option Bool → ReceiveEvent
  other : ReceiveEvent

-- http.response.start, and http.response.body with its `body` and `more_body`, which are empty
-- and false where they are missing.
pub data SendEvent : Type 0 where
  response_start : ℤ → List (Bytes × Bytes) → SendEvent
  response_body : Bytes → Bool → SendEvent

pub data Error : Type 0 where
  value_error type_error attribute_error : Error
  app_error send_error : ℕ → Error
