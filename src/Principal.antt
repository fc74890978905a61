-- ===== src/Principal.antt =====
-- Who is at the other end of a connection: commons/schemas, commons/enums. A cast that the code
-- makes without a test, `principal as DeviceUser`, gives `none` (`undefined`) for a field that the
-- principal does not have.
use gateway_realtime.Common.{
  Map, map_get, nat_eq, string_eq, String, Bool, true, false, Option, none, some, List,
}

pub data EnduserType : Type 0 where
  browser device self desktop server : EnduserType

pub data Product : Type 0 where
  absensi monitoring bell : Product

abbrev pub enduser_beq : EnduserType → EnduserType → Bool
enduser_beq browser browser = true
enduser_beq device device = true
enduser_beq self self = true
enduser_beq desktop desktop = true
enduser_beq server server = true
enduser_beq _ _ = false

abbrev pub product_name : Product → String
product_name absensi = "absensi"
product_name monitoring = "monitoring"
product_name bell = "bell"

abbrev pub product_beq : Product → Product → Bool
product_beq absensi absensi = true
product_beq monitoring monitoring = true
product_beq bell bell = true
product_beq _ _ = false

-- `a === b` for products that may be `undefined`.
abbrev pub product_is : Option Product → Option Product → Bool
product_is none none = true
product_is (some p) (some q) = product_beq p q
product_is _ _ = false

pub record ProductAccess : Type 0 where
  pub domain : String
  pub secret : String

abbrev pub Products : Type 0
Products = Map String ProductAccess

pub record BrowserUser : Type 0 where
  pub client_id : String
  pub products : Products
  pub role : String
  pub white_list_send : List String
  pub white_list_get : List String
  pub role_product : Product

pub record DeviceUser : Type 0 where
  pub client_id : String
  pub products : Products
  pub device_id : String
  pub blacklist_send : Option (List String)
  pub blacklist_get : Option (List String)
  pub id_device : String
  pub device_product : Product

pub data Principal : Type 0 where
  browser_user : BrowserUser → Principal
  device_user : DeviceUser → Principal

abbrev pub client_id_of : Principal → String
client_id_of (browser_user u) = u.client_id
client_id_of (device_user u) = u.client_id

abbrev pub products_of : Principal → Products
products_of (browser_user u) = u.products
products_of (device_user u) = u.products

-- `none` is the exception `PRODUCT_NOT_ALLOWED`.
unfoldable pub get_product : Product → Principal → Option ProductAccess
get_product product p = map_get (product_name product) (products_of p)

abbrev pub device_product_of : Principal → Option Product
device_product_of (device_user u) = some u.device_product
device_product_of _ = none

abbrev pub role_product_of : Principal → Option Product
role_product_of (browser_user u) = some u.role_product
role_product_of _ = none

abbrev pub id_device_of : Principal → Option String
id_device_of (device_user u) = some u.id_device
id_device_of _ = none

abbrev pub device_id_of : Principal → Option String
device_id_of (device_user u) = some u.device_id
device_id_of _ = none

abbrev pub role_of : Principal → Option String
role_of (browser_user u) = some u.role
role_of _ = none
