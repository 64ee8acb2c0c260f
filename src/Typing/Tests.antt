-- ===== src/Typing/Tests.antt =====
-- Messages and scopes against their declarations, and the theorems at concrete inputs.
use asgire.Prelude.{[], ◌∷◌, true, false, ◌≡◌, refl, nat_eq, list_eq}
use asgire.Prelude.Int.{pos}
use asgire.Text.{str}
use asgire.Wsgi.Messages.{SendEvent, response_start}
use asgire.Typing.{
  Value, null, boolean, text, bytes, dict, end, entry, is_any_of, is_instance, has_type, field,
}
use asgire.Typing.Scopes.{scope}
use asgire.Typing.Events.{asgi_receive_event, asgi_send_event, http_response_pathsend_event}
use asgire.Typing.Sent.{entries, missing, is_streamed, send_dict, is_any_of-send_dict}

abbrev connect : Value
connect = dict (entry (text (str "type")) (text (str "websocket.connect")) end)

-- A key that is not declared is let pass, a missing one is not.
abbrev request : Value
request = dict (
    entry (text (str "more_body")) (boolean false) (
      entry (text (str "type")) (text (str "http.request"))
        (entry (text (str "body")) (bytes []) (entry (text (str "x")) null end))))

abbrev bare_request : Value
bare_request = dict (entry (text (str "type")) (text (str "http.request")) end)

receives :
    (is_any_of asgi_receive_event connect ≡ true)
    × (is_any_of asgi_receive_event request ≡ true)
    × (is_any_of asgi_receive_event bare_request ≡ false)
unfolding is_any_of has_type field
receives = (refl, refl, refl)

abbrev lifespan : Value
lifespan = dict (
    entry (text (str "type")) (text (str "lifespan")) (
      entry (text (str "asgi"))
        (dict (
          entry (text (str "version")) (text (str "3.0"))
            (entry (text (str "spec_version")) (text (str "2.0")) end)))
        end))

is_scope : is_any_of scope lifespan ≡ true
unfolding is_any_of has_type field
is_scope = refl

-- A class that is declared, and stands in no union.
abbrev pathsend : Value
pathsend = dict (
    entry (text (str "type")) (text (str "http.response.pathsend"))
      (entry (text (str "path")) (text (str "/a")) end))

pathsend_in_no_union :
    (is_instance http_response_pathsend_event pathsend ≡ true)
    × (is_any_of asgi_send_event pathsend ≡ false)
unfolding is_any_of has_type field
pathsend_in_no_union = (refl, refl)

abbrev not_found : SendEvent
not_found = response_start (pos 404) ((str "content-type", str "text/plain") ∷ [])

is_any_of-send_dict_example :
    (is_any_of asgi_send_event (send_dict not_found) ≡ is_streamed not_found)
    × (is_any_of asgi_send_event (dict (entries not_found (missing not_found))) ≡ true)
is_any_of-send_dict_example = is_any_of-send_dict not_found
