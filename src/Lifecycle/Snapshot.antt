-- ===== src/Lifecycle/Snapshot.antt =====
-- The devices that a browser is shown when it connects: lifesycles/browser.lifesycle.ts. Ids of
-- devices are the decimal strings of the database, which `Number` keeps apart.
use gateway_realtime.Common.{
  if◌then◌else◌, or_default, Map, map_get, map_set, nat_eq, string_eq, ℕ, String, Bool, true, false,
  not, Option, none, some, List, [], ◌∷◌,
}
use gateway_realtime.Json.{Json, str, arr, obj, Items, no_items, item, field, object1}
use gateway_realtime.Principal.{
  Product, product_name, product_is, client_id_of, device_product_of, role_product_of, id_device_of,
}
use gateway_realtime.Registry.{get_devices_by_tenant}
use gateway_realtime.Session.{ConnectionState, offline, state_name, Session, Sessions}
use gateway_realtime.World.{World, send_to}

pub record DeviceInfo : Type 0 where
  pub id : String
  pub device_id : String
  pub product : Product

-- `getDevicesWithInfoByTenant` of the device service, a database query; `none` where it throws.
abbrev pub DeviceSource : Type 0
DeviceSource = String → Option Product → Option (List DeviceInfo)

-- `productFilter === undefined || user.device_product === productFilter`
abbrev pub shown_product : Option Product → Session → Bool
shown_product none s = true
shown_product (some p) s = product_is (device_product_of s.principal) (some p)

abbrev pub put_state : Option Session → Map String ConnectionState → Map String ConnectionState
put_state none states = states
put_state (some s) states = map_set (or_default (id_device_of s.principal) "NaN") s.state states

unfoldable pub device_states :
    Sessions → List ℕ → Map String ConnectionState → Map String ConnectionState
device_states sessions [] states = states
device_states sessions (ref ∷ refs) states =
    device_states sessions refs (put_state (map_get ref sessions) states)

abbrev pub shown_device : Map String ConnectionState → DeviceInfo → Json
shown_device states d = obj (
    field "id" (str d.id) (
      field "deviceId" (str d.device_id) (
        field "product" (str (product_name d.product))
          (object1 "state" (str (state_name (or_default (map_get d.id states) offline)))))))

abbrev pub items_of : (DeviceInfo → Json) → List DeviceInfo → Items
items_of f [] = no_items
items_of f (d ∷ ds) = item (f d) (items_of f ds)

abbrev pub snapshot_message : Items → Json
snapshot_message items = obj (field "event" (str "device-snapshot") (object1 "data" (arr items)))

abbrev pub other_product : Option Product → Option Product → Bool
other_product none allowed = false
other_product (some p) allowed = not (product_is (some p) allowed)

unfoldable pub snapshot_items : Map String ConnectionState → Option (List DeviceInfo) → Items
snapshot_items states none = no_items
snapshot_items states (some ds) = items_of (shown_device states) ds

unfoldable pub send_snapshot : DeviceSource → Session → World → World
send_snapshot devices s w =
    if other_product s.product (role_product_of s.principal)
    then w
    else let tenant = client_id_of s.principal in
      let refs = get_devices_by_tenant tenant (shown_product s.product) w.sessions w.registry in
      send_to s.socket
        (snapshot_message
          (snapshot_items (device_states w.sessions refs []) (devices tenant s.product)))
        w
