-- ===== src/Typing/Sent.antt =====
-- The dicts that asgiref/wsgi.py sends, against the declarations of asgiref/typing.py.
use asgire.Prelude.{List, [], ◌∷◌, Bool, true, false, ◌≡◌, refl, nat_eq, list_eq}
use asgire.Text.{Str, Bytes, str}
use asgire.Wsgi.Messages.{SendEvent, response_start, response_body}
use asgire.Typing.{
  Value, boolean, integer, text, bytes, list, tuple, dict, Values, nil, cons, Entries, end, entry,
  has_type, tuple_of, bytes_type, field, all_values, is_any_of,
}
use asgire.Typing.Events.{asgi_send_event}

abbrev pub header_values : List (Bytes × Bytes) → Values
header_values [] = nil
header_values ((name, value) ∷ hs) =
    cons (tuple (cons (bytes name) (cons (bytes value) nil))) (header_values hs)

abbrev key : Str → Value → Entries → Entries
key k v es = entry (text k) v es

-- The entries of the dict literal that an event is sent as, before some others. A last body is
-- `{"type": "http.response.body"}`, or that of the 400 response, which has a `body`.
abbrev pub entries : SendEvent → Entries → Entries
entries (response_start code headers) rest =
    key (str "type") (text (str "http.response.start"))
      (key (str "status") (integer code) (key (str "headers") (list (header_values headers)) rest))
entries (response_body body true) rest =
    key (str "type") (text (str "http.response.body"))
      (key (str "body") (bytes body) (key (str "more_body") (boolean true) rest))
entries (response_body [] false) rest = key (str "type") (text (str "http.response.body")) rest
entries (response_body (b ∷ body) false) rest =
    key (str "type") (text (str "http.response.body")) (key (str "body") (bytes (b ∷ body)) rest)

unfoldable pub send_dict : SendEvent → Value
send_dict m = dict (entries m end)

-- The keys that the declaration of the event has besides, with the values that the ASGI
-- specification gives to a missing one.
abbrev pub missing : SendEvent → Entries
missing (response_start code headers) = key (str "trailers") (boolean false) end
missing (response_body body true) = end
missing (response_body [] false) =
    key (str "body") (bytes []) (key (str "more_body") (boolean false) end)
missing (response_body (b ∷ body) false) = key (str "more_body") (boolean false) end

abbrev pub is_streamed : SendEvent → Bool
is_streamed (response_body body true) = true
is_streamed _ = false

all_header_values :
    (hs : List (Bytes × Bytes))
    → all_values (has_type (tuple_of bytes_type bytes_type)) (header_values hs) ≡ true
unfolding has_type
all_header_values [] = refl
all_header_values ((name, value) ∷ hs) = all_header_values hs

-- Of the events that are sent, those are an ASGISendEvent as it is declared that are a body with
-- `more_body`. Each of the others lacks a declared key: with the missing keys at the specification's
-- defaults, every event is one.
pub is_any_of-send_dict :
    (m : SendEvent)
    → (is_any_of asgi_send_event (send_dict m) ≡ is_streamed m)
      × (is_any_of asgi_send_event (dict (entries m (missing m))) ≡ true)
unfolding is_any_of has_type field send_dict
is_any_of-send_dict (response_start code headers) = rw (all_header_values headers) (refl, refl)
is_any_of-send_dict (response_body body true) = (refl, refl)
is_any_of-send_dict (response_body [] false) = (refl, refl)
is_any_of-send_dict (response_body (b ∷ body) false) = (refl, refl)
