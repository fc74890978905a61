-- ===== src/Webhook.antt =====
-- The requests to the products' own servers: webhook/services/absensi-api.service.ts and
-- bell-api.service.ts. What the HTTP client and the check of its answer come to is a parameter of
-- the events.
use gateway_realtime.Common.{concat, String, Option, none, some, [], ◌∷◌}
use gateway_realtime.Json.{Json, str, obj, get_field, object1}
use gateway_realtime.Principal.{ProductAccess}

pub record ApiRequest : Type 0 where
  pub url : String
  pub method : String
  pub payload : Option Json
  pub secret : String

-- A field of a payload in a template string.
abbrev pub text_field : String → Json → String
text_field k (obj fs) = elim (get_field k fs) [ some (str s) ↦ s | _ ↦ "undefined" ]
text_field k _ = "undefined"

abbrev uid_payload : Json → Option Json
uid_payload payload = some (obj (object1 "uid" (str (text_field "uid" payload))))

abbrev request : ProductAccess → String → String → Option Json → ApiRequest
request p path method payload = record {
  url = concat (p.domain ∷ path ∷ []);
  method = method;
  payload = payload;
  secret = p.secret;
}

unfoldable pub login_request : ProductAccess → Json → ApiRequest
login_request p payload = request p "/scan/login" "POST" (uid_payload payload)

unfoldable pub register_request : ProductAccess → Json → ApiRequest
register_request p payload = request p "/scan/register" "POST" (uid_payload payload)

unfoldable pub update_request : ProductAccess → Json → ApiRequest
update_request p payload = request p "/scan/update" "POST" (uid_payload payload)

unfoldable pub get_all_reservasi_request : ProductAccess → Json → ApiRequest
get_all_reservasi_request p payload = request p "/reservasi" "POST" (some payload)

unfoldable pub cancel_reservasi_request : ProductAccess → Json → ApiRequest
cancel_reservasi_request p payload =
    request p (concat ("/reservasi/" ∷ text_field "id" payload ∷ [])) "DELETE" (uid_payload payload)

unfoldable pub store_request : ProductAccess → Json → ApiRequest
store_request p payload = request p "/bell" "POST" (some payload)

unfoldable pub destroy_request : ProductAccess → Json → ApiRequest
destroy_request p payload =
    request p (concat ("/bell/" ∷ text_field "time" payload ∷ [])) "DELETE" none

unfoldable pub destroy_all_request : ProductAccess → ApiRequest
destroy_all_request p = request p "/bell" "DELETE" none
