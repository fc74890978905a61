-- ===== src/Events/Payload.antt =====
-- `modifiedPayload` of the event classes, and what they emit while they make it.
use gateway_realtime.Common.{
  if◌then◌else◌, or_default, ◌==◌, nat_eq, string_eq, String, Bool, true, false, Option, none, some,
  List, [], ◌∷◌,
}
use gateway_realtime.Events.Classes.{
  EventKind, forwards, acknowledges, scans, cancels, lists_reservations, creates_bell,
  destroys_bell, destroys_all_bells, uploads, EventClass,
}
use gateway_realtime.Json.{Json, boolean, str, obj, Fields, no_fields, field, get_field, object1}
use gateway_realtime.Principal.{absensi, ProductAccess, Principal, client_id_of, get_product}
use gateway_realtime.Webhook.{
  ApiRequest, text_field, login_request, register_request, update_request,
  get_all_reservasi_request, cancel_reservasi_request, store_request, destroy_request,
  destroy_all_request,
}
use gateway_realtime.WsError.{plain_error, Outcome, ok, thrown}

-- The payload for the receivers, with the names and the data of what is emitted on the way.
abbrev pub Made : Type 0
Made = Outcome (Fields × List (String × Json))

abbrev is_success : Fields → Bool
is_success fs = elim (get_field "isSuccess" fs) [ some (boolean b) ↦ b | _ ↦ false ]

abbrev data_of : Fields → Fields
data_of fs = elim (get_field "data" fs) [ some v ↦ object1 "data" v | none ↦ no_fields ]

abbrev notice_data : Principal → Fields → Json
notice_data p fs = obj (field "clientId" (str (client_id_of p)) (data_of fs))

-- A result that says that it succeeded is also emitted under a name.
unfoldable pub emitting : String → Principal → Outcome Fields → Made
emitting name p (thrown e) = thrown e
emitting name p (ok fs) =
    if is_success fs then ok (fs, (name, notice_data p fs) ∷ []) else ok (fs, [])

abbrev silent : Outcome Fields → Made
silent (thrown e) = thrown e
silent (ok fs) = ok (fs, [])

unfoldable pub scan_payload :
    (ApiRequest → Outcome Fields) → Principal → ProductAccess → Json → String → Made
scan_payload call p access payload mode =
    if mode == "login"
    then emitting "absensi.scan.login" p (call (login_request access payload))
    else if mode == "register"
    then silent (call (register_request access payload))
    else if mode == "update"
    then silent (call (update_request access payload))
    else thrown (plain_error "Unsupported mode")

unfoldable pub product_payload :
    (ApiRequest → Outcome Fields) → EventKind → Principal → ProductAccess → Json → Made
product_payload call scans p access payload =
    scan_payload call p access payload (text_field "mode" payload)
product_payload call cancels p access payload =
    emitting "absensi.reservasi.cancel" p (call (cancel_reservasi_request access payload))
product_payload call lists_reservations p access payload =
    silent (call (get_all_reservasi_request access payload))
product_payload call creates_bell p access payload = silent (call (store_request access payload))
product_payload call destroys_bell p access payload = silent (call (destroy_request access payload))
product_payload call destroys_all_bells p access payload =
    silent (call (destroy_all_request access))
product_payload call _ p access payload = ok (object1 "data" payload, [])

abbrev asks_product : EventKind → Bool
asks_product forwards = false
asks_product acknowledges = false
asks_product uploads = false
asks_product _ = true

unfoldable pub with_product :
    (ApiRequest → Outcome Fields) → EventKind → Principal → Option ProductAccess → Json → Made
with_product call kind p none payload = thrown (plain_error "PRODUCT_NOT_ALLOWED")
with_product call kind p (some access) payload = product_payload call kind p access payload

unfoldable pub modified_payload :
    (ApiRequest → Outcome Fields) → EventClass → Principal → Json → Made
modified_payload call c p payload =
    if asks_product c.kind
    then with_product call c.kind p (get_product (or_default c.product absensi) p) payload
    else ok (object1 "data" payload, [])
