-- ===== src/Events/Execute.antt =====
-- `execute` and `executeBase` of events/base-ws.event.ts and events/json/base-ws-json.event.ts, and
-- the side effects of the classes.
use gateway_realtime.Common.{
  nat_beq, if◌then◌else◌, or_default, truthy, set_contains, concat, string_eq, nat_eq, ◌==◌, ℕ,
  String, Bool, true, false, ◌&&◌, not, Option, none, some, List, [], ◌∷◌, ◌++◌,
}
use gateway_realtime.EventRecord.{qos1, EventRecord}
use gateway_realtime.EventStore.Create.{CreateOptions, no_options, create}
use gateway_realtime.EventStore.Marks.{mark_applied}
use gateway_realtime.EventStore.State.{StoreConfig, get_event}
use gateway_realtime.Events.Classes.{acknowledges, scans, cancels, EventClass}
use gateway_realtime.Events.Dispatch.{stored_world, qossing, settle, dispatch}
use gateway_realtime.Events.Payload.{Made, modified_payload}
use gateway_realtime.Events.Receivers.{get_receivers}
use gateway_realtime.Events.State.{App, Services, change_world}
use gateway_realtime.Feedback.{quiet_store}
use gateway_realtime.Json.{
  Json, null, boolean, num, str, obj, Fields, no_fields, field, get_field, object1, plain_message,
}
use gateway_realtime.Lifecycle.Notify.{opt_str}
use gateway_realtime.Principal.{
  browser, absensi, enduser_beq, product_is, client_id_of, role_product_of, role_of,
}
use gateway_realtime.Registry.{get_browsers_by_tenant}
use gateway_realtime.Session.{Session, Clients, is_active}
use gateway_realtime.SessionManager.{session_at, get_session_by_id}
use gateway_realtime.Webhook.{text_field}
use gateway_realtime.World.{World, send_to, change_store, socket_of}
use gateway_realtime.WsError.{Thrown, Outcome, ok, thrown, app_ws_exception}

abbrev event_error : String → Thrown
event_error message = app_ws_exception "EVENT_ERROR" message

-- `!payload`
abbrev is_falsy : Json → Bool
is_falsy null = true
is_falsy (boolean b) = not b
is_falsy (num n) = nat_beq n 0
is_falsy (str s) = s == ""
is_falsy _ = false

abbrev dto_result : Option String → Option Thrown
dto_result none = none
dto_result (some errors) = some (event_error errors)

unfoldable pub validate_structure : Services → EventClass → Json → Option Thrown
validate_structure sv c payload =
    if c.checks_structure
    then if is_falsy payload
      then some (event_error "Payload is empty")
      else dto_result (sv.dto_errors c.label payload)
    else none

unfoldable pub validate_payload : EventClass → Json → Bool
validate_payload c payload =
    if c.by_mode then set_contains (text_field "mode" payload) c.allowed_event else true

unfoldable pub get_event_message : EventClass → Json → String
get_event_message c payload = if c.by_mode then text_field "mode" payload else c.label

-- The confirmation to the device that has scanned a card.
unfoldable pub confirm_scan : Session → Fields → String → World → World
confirm_scan s payload event w =
    if is_active w.clients s
    then send_to s.socket (plain_message (concat (event ∷ ":apply" ∷ [])) payload) w
    else w

-- `session.isActive() && browser.role_product == this.productName`, where `browser` is the sender.
abbrev pub told_of_cancel : World → Session → Session → Bool
told_of_cancel w sender s =
    is_active w.clients s && product_is (role_product_of sender.principal) (some absensi)

unfoldable pub told_browsers : Session → World → List ℕ
told_browsers s w =
    get_browsers_by_tenant (client_id_of s.principal) (told_of_cancel w s) w.sessions w.registry

-- The fields of an object that a template or an object literal leaves out when they are missing.
abbrev message_field : Json → Fields
message_field (obj fs) = elim (get_field "message" fs) [
  | some v ↦ object1 "message" v
  | none ↦ no_fields
]
message_field _ = no_fields

-- What the sender of an event is told of its acknowledgement. The condition of the code,
-- `session.type === 'browser' || 'desktop'`, always holds: it reads the role, which a device lacks.
abbrev pub ack_notice : ℕ → Session → EventRecord → Json → Fields
ack_notice now s r payload = field "originalEventId" (str r.event_id) (
    field "originalEventName" (str r.event_name) (
      opt_str "deliveredTo" (role_of s.principal)
        (field "deliveredAt" (num now) (message_field payload))))

abbrev reaches : Clients → Option Session → Bool
reaches clients none = false
reaches clients (some s) = is_active clients s

abbrev ack_options : CreateOptions
ack_options = record no_options { ttl = some 3600000 }

unfoldable pub tell_sender :
    StoreConfig → Services → ℕ → ℕ → Option Session → Fields → World → Outcome World
tell_sender config sv now sender target notice w =
    if reaches w.clients target
    then ok (
        send_to (socket_of target)
          (obj (field "event" (str "event:delivered") (object1 "data" (obj notice)))) w)
    else stored_world w (
        create config now (sv.fresh_id w) (sender ∷ []) "event:delivered" notice qos1 ack_options
          (quiet_store w))

unfoldable pub ack_found :
    StoreConfig → Services → ℕ → Session → Option EventRecord → Json → World → Outcome World
ack_found config sv now s none payload w = ok w
ack_found config sv now s (some r) payload w =
    let sender = or_default r.sender_id 0 in
    if r.notify_sender && (truthy r.sender_id && not (nat_beq sender s.session_id))
    then tell_sender config sv now sender (session_at (get_session_by_id sender w) w.sessions)
        (ack_notice now s r payload) w
    else ok w

abbrev pub finish : Outcome World → App → App × Option Thrown
finish (ok w) app = (record app { world = w }, none)
finish (thrown e) app = (app, some e)

unfoldable pub acknowledge : StoreConfig → Services → ℕ → Session → Json → App → App × Option Thrown
acknowledge config sv now s payload app =
    let event_id = text_field "eventId" payload in
    let w = change_store (mark_applied s.session_id event_id) app.world in
    finish (ack_found config sv now s (get_event event_id app.world.store) payload w)
      (record app { world = w })

-- `payload` is what the client sent and `made` what the receivers get.
unfoldable pub side_effect :
    StoreConfig
    → Services
    → ℕ
    → EventClass
    → Session
    → Json
    → Fields
    → String
    → App
    → App × Option Thrown
side_effect config sv now c s payload made event app = elim c.kind [
  | scans ↦ (change_world (confirm_scan s made event) app, none)
  | cancels ↦ (
    settle (qossing config sv now c browser s (told_browsers s app.world) made app.world) app,
    none,
  )
  | acknowledges ↦ acknowledge config sv now s payload app
  | _ ↦ (app, none)
]

unfoldable pub deliver_to :
    StoreConfig
    → Services
    → ℕ
    → EventClass
    → Session
    → Json
    → Fields
    → App × Outcome (List ℕ)
    → App × Option Thrown
deliver_to config sv now c s payload made (app, thrown e) = (app, some e)
deliver_to config sv now c s payload made (app, ok receivers) =
    side_effect config sv now c s payload made (get_event_message c payload)
      (dispatch config sv now c s receivers made app)

unfoldable pub execute_made :
    StoreConfig
    → Services
    → ℕ
    → ℕ
    → EventClass
    → ℕ
    → Session
    → Json
    → Made
    → App
    → App × Option Thrown
execute_made config sv ttl now c ref s payload (thrown e) app = (app, some e)
execute_made config sv ttl now c ref s payload (ok (made, notices)) app =
    deliver_to config sv now c s payload made (
      get_receivers sv ttl now c (get_event_message c payload) ref s
        (record app { emitted = app.emitted ++ notices }))

unfoldable pub execute_base :
    StoreConfig → Services → ℕ → ℕ → EventClass → ℕ → Session → Json → App → App × Option Thrown
execute_base config sv ttl now c ref s payload app = elim (validate_structure sv c payload) [
  | some e ↦ (app, some e)
  | none ↦
      if validate_payload c payload
      then execute_made config sv ttl now c ref s payload
          (modified_payload sv.call c s.principal payload) app
      else (app, some (event_error "Payload Tidak tepat"))
]

-- A class without a sender type is open to all.
unfoldable pub validate_access : EventClass → Session → Bool
validate_access c s = elim c.sender [ none ↦ true | some type ↦ enduser_beq s.type type ]

unfoldable pub execute_event :
    StoreConfig → Services → ℕ → ℕ → EventClass → ℕ → Session → Json → App → App × Option Thrown
execute_event config sv ttl now c ref s payload app =
    if validate_access c s
    then execute_base config sv ttl now c ref s payload app
    else (app, some (app_ws_exception "UNAUTHENTICATED" "Akses event ditolak"))
