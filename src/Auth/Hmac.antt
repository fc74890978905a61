-- ===== src/Auth/Hmac.antt =====
-- auth/strategies/hmac-auth.strategy.ts.
pub mod Laws
use Prim.Native.Char.{code}
use Prim.Native.String
-- The fields that the strategy takes from the payload, which are texts as FormatHMAC declares them;
-- `none` is a field that is missing.

use gateway_realtime.Common.{
  ltb, nat_beq, if◌then◌else◌, concat, ℕ, ◌+◌, ◌-◌, ◌*◌, String, Bool, true, false, ◌&&◌, Option,
  none, some, List, [], ◌∷◌,
}
use gateway_realtime.Auth.Device.{DeviceQueries, AuthDevice, get_auth}
use gateway_realtime.Auth.JsInt.{JsInt, nan, plus, minus, hex_digit, parse_int}
use gateway_realtime.Principal.{Principal, device_user}
use gateway_realtime.RateLimit.KeyExtractor.{non_empty}
use gateway_realtime.WsError.{Thrown, plain_error, Outcome, ok, thrown, app_ws_exception}

pub record HmacPayload : Type 0 where
  pub client_id : Option String
  pub timestamp : Option String
  pub signature : Option String
  pub device_id : Option String

-- What `JSON.parse` makes of a token: no JSON, `null`, of which no field can be taken, or a value.
pub data ParsedToken : Type 0 where
  not_json null_value : ParsedToken
  payload_value : HmacPayload → ParsedToken

-- `JSON.parse` and the digest of a secret and a message in hexadecimal.
pub record HmacContext : Type 0 where
  pub parse_json : String → ParsedToken
  pub hmac_sha256 : String → String → String
  pub queries : DeviceQueries

-- The payload once no field of it is missing or empty.
pub record HmacFields : Type 0 where
  pub client_id : String
  pub timestamp : String
  pub signature : String
  pub device_id : String

abbrev fields_of : Option String → Option String → Option String → Option String → Option HmacFields
fields_of (some client_id) (some timestamp) (some signature) (some device_id) = some record {
  client_id = client_id;
  timestamp = timestamp;
  signature = signature;
  device_id = device_id;
}
fields_of _ _ _ _ = none

unfoldable pub complete_fields : HmacPayload → Option HmacFields
complete_fields p =
    fields_of (non_empty p.client_id) (non_empty p.timestamp) (non_empty p.signature)
      (non_empty p.device_id)

abbrev pub hmac_window : ℕ
hmac_window = 300000

-- `Math.abs(now - timestamp) > 300000`, which is false of `NaN`.
unfoldable pub hmac_expired : ℕ → JsInt → Bool
hmac_expired now nan = false
hmac_expired now (plus t) = ltb hmac_window ((now - t) + (t - now))
hmac_expired now (minus t) = ltb hmac_window (now + t)

abbrev hex_byte : Option ℕ → Option ℕ → List ℕ → List ℕ
hex_byte (some high) (some low) rest = (high * 16 + low) ∷ rest
hex_byte (some high) none rest = []
hex_byte none low rest = []

-- `Buffer.from(text, 'hex')`: the bytes up to the first pair that is not two hexadecimal digits.
unfoldable pub from_hex : String → List ℕ
unfolding hex_digit
from_hex String.[] = []
from_hex (String.◌∷◌ c String.[]) = []
from_hex (String.◌∷◌ c (String.◌∷◌ d s)) =
    hex_byte (hex_digit (code c)) (hex_digit (code d)) (from_hex s)

abbrev pub bytes_beq : List ℕ → List ℕ → Bool
bytes_beq [] [] = true
bytes_beq (x ∷ xs) (y ∷ ys) = nat_beq x y && bytes_beq xs ys
bytes_beq _ _ = false

-- `timingSafeEqual` throws for texts of different lengths, which is caught.
unfoldable pub compare_signatures : String → String → Bool
unfolding from_hex
compare_signatures sig1 sig2 = bytes_beq (from_hex sig1) (from_hex sig2)

abbrev unknown_device : Thrown
unknown_device = app_ws_exception "UNAUTHENTICATED" "Unknown Device"

unfoldable pub keyed_hmac : HmacContext → Option String → String → Outcome String
keyed_hmac context none message = thrown unknown_device
keyed_hmac context (some key) message = ok (context.hmac_sha256 key message)

unfoldable pub create_hmac : HmacContext → Option String → String → Outcome String
unfolding keyed_hmac
create_hmac context secret message = keyed_hmac context (non_empty secret) message

abbrev pub signed_message : HmacFields → String
signed_message f = concat (f.device_id ∷ f.timestamp ∷ f.client_id ∷ [])

pub record AuthResult : Type 0 where
  pub auth : Principal
  pub id_enduser : ℕ

abbrev pub device_result : AuthDevice → AuthResult
device_result d = record { auth = device_user d.user; id_enduser = d.id_enduser }

unfoldable pub check_signature : String → AuthDevice → Outcome String → Outcome AuthResult
unfolding compare_signatures
check_signature signature found (thrown e) = thrown e
check_signature signature found (ok expected) =
    if compare_signatures signature expected
    then ok (device_result found)
    else thrown (app_ws_exception "INVALID_SIGNATURE" "Invalid HMAC signature")

unfoldable pub check_device : HmacContext → HmacFields → Outcome AuthDevice → Outcome AuthResult
unfolding check_signature create_hmac
check_device context f (thrown e) = thrown e
check_device context f (ok found) =
    check_signature f.signature found (create_hmac context found.key_device (signed_message f))

unfoldable pub check_fields : HmacContext → ℕ → Option HmacFields → Outcome AuthResult
unfolding hmac_expired check_device
check_fields context now none =
    thrown (app_ws_exception "INVALID_TOKEN_FORMAT" "Missing HMAC fields")
check_fields context now (some f) =
    if hmac_expired now (parse_int f.timestamp)
    then thrown (app_ws_exception "TOKEN_EXPIRED" "HMAC token expired")
    else check_device context f (get_auth context.queries f.client_id f.device_id)

unfoldable pub check_parsed : HmacContext → ℕ → ParsedToken → Outcome AuthResult
unfolding check_fields complete_fields
check_parsed context now not_json =
    thrown (app_ws_exception "INVALID_TOKEN_FORMAT" "Token must be a valid JSON HMAC payload")
check_parsed context now null_value = thrown (plain_error "Cannot destructure property 'clientId'")
check_parsed context now (payload_value p) = check_fields context now (complete_fields p)

unfoldable pub hmac_validate : HmacContext → ℕ → String → Outcome AuthResult
unfolding check_parsed
hmac_validate context now token = check_parsed context now (context.parse_json token)
