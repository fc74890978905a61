-- ===== src/Lifecycle/Notify.antt =====
-- What a device's lifecycle tells the browsers of its tenant: lifesycles/device.lifesycle.ts.
use gateway_realtime.Common.{
  is_some, map_get, nat_eq, string_eq, ℕ, String, Bool, ◌&&◌, ◌||◌, not, Option, none, some, List,
  [], ◌∷◌,
}
use gateway_realtime.Json.{Json, str, obj, Fields, no_fields, field, object1}
use gateway_realtime.Principal.{
  product_is, client_id_of, device_product_of, id_device_of, device_id_of,
}
use gateway_realtime.Registry.{get_browsers_by_tenant}
use gateway_realtime.Session.{state_name, Session, Clients, is_active}
use gateway_realtime.World.{World, send_to, socket_of}

-- A field that is `undefined` is not in the JSON.
abbrev pub opt_str : String → Option String → Fields → Fields
opt_str k none fs = fs
opt_str k (some v) fs = field k (str v) fs

-- `session.isActive() && (session.product == undefined || device.device_product == session.product)`
abbrev pub watches : Clients → Session → Session → Bool
watches clients dev s =
    is_active clients s
    && (not (is_some s.product) || product_is (device_product_of dev.principal) s.product)

unfoldable pub watching_browsers : Session → World → List ℕ
watching_browsers dev w =
    get_browsers_by_tenant (client_id_of dev.principal) (watches w.clients dev) w.sessions
      w.registry

unfoldable pub send_each : Json → List ℕ → World → World
send_each message [] w = w
send_each message (ref ∷ refs) w =
    send_each message refs (send_to (socket_of (map_get ref w.sessions)) message w)

abbrev pub device_event : String → Fields → Json
device_event name data_fields = obj (field "event" (str name) (object1 "data" (obj data_fields)))

abbrev pub state_field : Session → Fields → Fields
state_field s fs = field "state" (str (state_name s.state)) fs

unfoldable pub device_connected : Session → World → World
device_connected s w =
    send_each
      (device_event "device-connected" (
        opt_str "id" (id_device_of s.principal)
          (opt_str "deviceId" (device_id_of s.principal) (state_field s no_fields))))
      (watching_browsers s w) w

unfoldable pub device_disconnected : Session → World → World
device_disconnected s w =
    send_each
      (device_event "device-disconnected"
        (opt_str "id" (id_device_of s.principal) (state_field s no_fields)))
      (watching_browsers s w) w

unfoldable pub device_suspend : Session → World → World
device_suspend s w =
    send_each
      (device_event "device-suspend"
        (opt_str "id" (id_device_of s.principal) (state_field s no_fields)))
      (watching_browsers s w) w

unfoldable pub device_reconnect : Session → World → World
device_reconnect s w =
    send_each
      (device_event "device-reconnect" (
        opt_str "id" (id_device_of s.principal)
          (state_field s (opt_str "deviceId" (device_id_of s.principal) no_fields))))
      (watching_browsers s w) w
