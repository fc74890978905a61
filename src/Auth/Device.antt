-- ===== src/Auth/Device.antt =====
-- auth/services/device.service.ts: what the database knows of a device. Its queries are parameters.
use gateway_realtime.Common.{
  map_set, set_add, string_eq, nat_eq, ℕ, String, Option, some, List, [], ◌∷◌,
}
use gateway_realtime.Lifecycle.{seen}
use gateway_realtime.Principal.{Product, Products, DeviceUser}
use gateway_realtime.RateLimit.Storage.{get}
use gateway_realtime.World.{send}
use gateway_realtime.WsError.{Outcome, ok, thrown, app_ws_exception}

-- A row of the query of `getDevice`: a device joined with one product of its client.
pub record DeviceRow : Type 0 where
  pub client_id : String
  pub id_device : String
  pub device_id : String
  pub id_enduser : ℕ
  pub key_device : Option String
  pub product_name : String
  pub device_product : Product
  pub domain : String
  pub secret : String

pub record DeviceQueries : Type 0 where
  pub device_rows : String → String → Outcome (List DeviceRow)
  pub blacklist_send : String → Outcome (List String)
  pub blacklist_get : String → Outcome (List String)

pub record AuthDevice : Type 0 where
  pub id_enduser : ℕ
  pub key_device : Option String
  pub user : DeviceUser

-- `[...new Set(ids)]`
unfoldable pub distinct_ids : List String → List String → List String
distinct_ids seen [] = seen
distinct_ids seen (x ∷ xs) = distinct_ids (set_add x seen) xs

unfoldable pub products_of_rows : Products → List DeviceRow → Products
products_of_rows products [] = products
products_of_rows products (r ∷ rs) =
    products_of_rows
      (map_set r.product_name record { domain = r.domain; secret = r.secret } products) rs

unfoldable pub map_auth : DeviceRow → List DeviceRow → List String → List String → AuthDevice
unfolding distinct_ids products_of_rows
map_auth first rest send get = record {
  id_enduser = first.id_enduser;
  key_device = first.key_device;
  user = record {
    client_id = first.client_id;
    products = products_of_rows [] (first ∷ rest);
    device_id = first.device_id;
    blacklist_send = some (distinct_ids [] send);
    blacklist_get = some (distinct_ids [] get);
    id_device = first.id_device;
    device_product = first.device_product;
  };
}

abbrev with_get :
    DeviceRow → List DeviceRow → List String → Outcome (List String) → Outcome AuthDevice
unfolding map_auth
with_get first rest send (thrown e) = thrown e
with_get first rest send (ok get) = ok (map_auth first rest send get)

abbrev with_send :
    DeviceRow → List DeviceRow → Outcome (List String) → Outcome (List String) → Outcome AuthDevice
unfolding with_get
with_send first rest (thrown e) get = thrown e
with_send first rest (ok send) get = with_get first rest send get

unfoldable pub auth_of_rows : DeviceQueries → Outcome (List DeviceRow) → Outcome AuthDevice
unfolding with_send
auth_of_rows queries (thrown e) = thrown e
auth_of_rows queries (ok []) = thrown (app_ws_exception "UNAUTHENTICATED" "Penyusup lu?")
auth_of_rows queries (ok (first ∷ rest)) =
    with_send first rest (queries.blacklist_send first.id_device)
      (queries.blacklist_get first.id_device)

unfoldable pub get_auth : DeviceQueries → String → String → Outcome AuthDevice
unfolding auth_of_rows
get_auth queries client_id device_id =
    auth_of_rows queries (queries.device_rows client_id device_id)
