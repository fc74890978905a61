-- ===== src/Message.antt =====
-- services/websocket-message.service.ts and the listener for messages in websocket.gateway.ts.
use gateway_realtime.Common.{
  if◌then◌else◌, or_default, is_some, Map, map_get, map_set, concat, nat_eq, string_eq, ℕ, String,
  Option, none, some, List, [], ◌∷◌,
}
use gateway_realtime.EventStore.State.{StoreConfig}
use gateway_realtime.Events.Binary.{stream_image, upload_audio, execute_binary}
use gateway_realtime.Events.Classes.{EventClass, event_classes}
use gateway_realtime.Events.Execute.{execute_event}
use gateway_realtime.Events.State.{App, Services, change_world}
use gateway_realtime.Gateway.{same_client, message_failed}
use gateway_realtime.Json.{Json, null, str, obj, Fields, get_field}
use gateway_realtime.Principal.{browser, device, product_name, device_product_of, role_product_of}
use gateway_realtime.Session.{Session}
use gateway_realtime.WsError.{Thrown, plain_error, Outcome, ok, thrown, app_ws_exception}

-- The handlers by label: of two classes with one label the later one.
unfoldable pub json_handlers : List EventClass → Map String EventClass → Map String EventClass
json_handlers [] handlers = handlers
json_handlers (c ∷ cs) handlers = json_handlers cs (map_set c.label c handlers)

abbrev product_key : EventClass → String
product_key c = elim c.product [ none ↦ "undefined" | some p ↦ product_name p ]

unfoldable pub binary_handlers : List EventClass → Map String EventClass → Map String EventClass
binary_handlers [] handlers = handlers
binary_handlers (c ∷ cs) handlers = binary_handlers cs (map_set (product_key c) c handlers)

abbrev socket_unavailable : Thrown
socket_unavailable = app_ws_exception "SOCKET_UNAVAILABLE" "No active connection"

abbrev event_required : Thrown
event_required = app_ws_exception "INVALID_EVENT" "Event is required"

-- `const { event, data } = parsed`: the fields of an object; `null` has none and throws.
abbrev pub field_or_null : String → Fields → Json
field_or_null k fs = or_default (get_field k fs) null

unfoldable pub parsed_event : Json → Outcome (String × Json)
parsed_event null = thrown (plain_error "Cannot destructure property 'event' of 'parsed'")
parsed_event (obj fs) = elim (get_field "event" fs) [
  | some (str name) ↦ ok (name, field_or_null "data" fs)
  | _ ↦ thrown event_required
]
parsed_event _ = thrown event_required

abbrev unknown_event : String → Thrown
unknown_event name = app_ws_exception "INVALID_EVENT" (concat ("Unknown event " ∷ name ∷ []))

unfoldable pub run_handler :
    StoreConfig
    → Services
    → ℕ
    → ℕ
    → ℕ
    → Session
    → Outcome (String × Json)
    → App
    → App × Option Thrown
run_handler config sv ttl now ref s (thrown e) app = (app, some e)
run_handler config sv ttl now ref s (ok (name, payload)) app =
    elim (map_get name (json_handlers event_classes [])) [
      | none ↦ (app, some (unknown_event name))
      | some c ↦ execute_event config sv ttl now c ref s payload app
    ]

abbrev parse_result : Option Json → Outcome (String × Json)
parse_result none = thrown (app_ws_exception "INVALID_JSON" "Payload must be JSON")
parse_result (some parsed) = parsed_event parsed

-- `parsed` is what `JSON.parse` makes of the text, `none` where it throws.
unfoldable pub on_message :
    StoreConfig → Services → ℕ → ℕ → ℕ → Session → Option Json → App → App × Option Thrown
on_message config sv ttl now ref s parsed app =
    if is_some s.socket
    then run_handler config sv ttl now ref s (parse_result parsed) app
    else (app, some socket_unavailable)

abbrev invalid_type : Thrown
invalid_type = app_ws_exception "INVALID_TYPE" "Cannot determine product for binary event"

-- The product of a binary message; its key in the map of handlers.
unfoldable pub binary_product : Session → Outcome String
binary_product s = elim s.type [
  | browser ↦
      ok (elim (role_product_of s.principal) [ none ↦ "undefined" | some p ↦ product_name p ])
  | device ↦
      ok (elim (device_product_of s.principal) [ none ↦ "undefined" | some p ↦ product_name p ])
  | _ ↦ thrown invalid_type
]

unfoldable pub run_binary :
    Services → ℕ → ℕ → ℕ → Session → List ℕ → Outcome String → App → App × Option Thrown
run_binary sv ttl now ref s buffer (thrown e) app = (app, some e)
run_binary sv ttl now ref s buffer (ok key) app =
    elim (map_get key (binary_handlers (stream_image ∷ upload_audio ∷ []) [])) [
      | none ↦ (app, some (app_ws_exception "INVALID_PRODUCT" "Binary not supported"))
      | some c ↦ execute_binary sv ttl now c ref s buffer app
    ]

unfoldable pub on_binary : Services → ℕ → ℕ → ℕ → Session → List ℕ → App → App × Option Thrown
on_binary sv ttl now ref s buffer app =
    if is_some s.socket
    then run_binary sv ttl now ref s buffer (binary_product s) app
    else (app, some socket_unavailable)

pub data Incoming : Type 0 where
  text_message : Option Json → Incoming
  binary_message : List ℕ → Incoming

unfoldable pub handle_incoming :
    StoreConfig → Services → ℕ → ℕ → ℕ → Session → Incoming → App → App × Option Thrown
handle_incoming config sv ttl now ref s (text_message parsed) app =
    on_message config sv ttl now ref s parsed app
handle_incoming config sv ttl now ref s (binary_message buffer) app =
    on_binary sv ttl now ref s buffer app

abbrev report : ℕ → App × Option Thrown → App
report client (app, none) = app
report client (app, some e) = change_world (message_failed e client) app

unfoldable pub receive_in :
    StoreConfig → Services → ℕ → ℕ → ℕ → ℕ → Option Session → Incoming → App → App
receive_in config sv ttl now client ref none incoming app = app
receive_in config sv ttl now client ref (some s) incoming app =
    if same_client s.socket client
    then report client (handle_incoming config sv ttl now ref s incoming app)
    else app

-- The listener of a client that has been given the session `ref`.
unfoldable pub receive : StoreConfig → Services → ℕ → ℕ → ℕ → ℕ → Incoming → App → App
receive config sv ttl now client ref incoming app =
    receive_in config sv ttl now client ref (map_get ref app.world.sessions) incoming app
