-- ===== src/Events/Dispatch.antt =====
-- `dispatch` and `qossing` of events/json/base-ws-json.event.ts. What `qossing` awaits is answered at
-- once. A receiver is active, or the sender itself, so that it has a socket. What is sent before
-- `create` throws is left out: on a store whose index is right it does not throw.
use gateway_realtime.Common.{
  if◌then◌else◌, map_get, set_contains, filter, string_eq, nat_eq, ℕ, String, Bool, true, false,
  not, Option, none, some, List, [], ◌∷◌, ◌++◌,
}
use gateway_realtime.EventRecord.{Qos, qos0, qos1, qos2}
use gateway_realtime.EventStore.Create.{CreateOptions, create}
use gateway_realtime.EventStore.Marks.{mark_delivered}
use gateway_realtime.EventStore.State.{StoreConfig, EventStore}
use gateway_realtime.Events.Classes.{EventClass}
use gateway_realtime.Events.State.{App, Services, change_world}
use gateway_realtime.Feedback.{quiet_store, emit_notices}
use gateway_realtime.Json.{Fields, plain_message, tracked_message}
use gateway_realtime.Lifecycle.Notify.{send_each}
use gateway_realtime.Principal.{EnduserType, self, server}
use gateway_realtime.Session.{Session, is_active}
use gateway_realtime.SessionManager.{get_id_enduser_by_type}
use gateway_realtime.World.{World, change_store}
use gateway_realtime.WsError.{plain_error, Outcome, ok, thrown, app_ws_exception}

abbrev pub active_ids : World → List ℕ → List ℕ
active_ids w [] = []
active_ids w (ref ∷ refs) = elim (map_get ref w.sessions) [
  | none ↦ active_ids w refs
  | some s ↦
      let rest_of = active_ids w refs in
      if is_active w.clients s then s.session_id ∷ rest_of else rest_of
]

-- The ids of the database that are not among the online ones.
abbrev pub offline_ids : List ℕ → List ℕ → List ℕ
offline_ids online_ids targets = filter (λ id. not (set_contains id online_ids)) targets

abbrev pub qos1_options : EventClass → CreateOptions
qos1_options c = record {
  ttl = some c.ttl;
  sender_id = none;
  notify_sender = none;
  sender_event_name = some c.label;
}

abbrev pub qos2_options : EventClass → Session → CreateOptions
qos2_options c s = record {
  ttl = some c.ttl;
  sender_id = some s.session_id;
  notify_sender = some c.notify_sender;
  sender_event_name = some c.label;
}

abbrev pub stored_world : World → Option EventStore → Outcome World
stored_world w none = thrown (plain_error "Cannot read properties of undefined")
stored_world w (some st) = ok (emit_notices st w)

unfoldable pub qos1_store :
    StoreConfig → Services → ℕ → EventClass → List ℕ → Fields → World → Outcome World
qos1_store config sv now c [] payload w = ok w
qos1_store config sv now c (id ∷ ids) payload w = stored_world w (
    create config now (sv.fresh_id w) (id ∷ ids) c.label_to_receiver payload qos1 (qos1_options c)
      (quiet_store w))

abbrev pub mark_delivered_all : ℕ → String → List ℕ → EventStore → EventStore
mark_delivered_all now event_id [] st = st
mark_delivered_all now event_id (user ∷ users) st =
    mark_delivered_all now event_id users (mark_delivered now user event_id st)

unfoldable pub qos2_send :
    ℕ → EventClass → String → List ℕ → List ℕ → Fields → Outcome World → Outcome World
qos2_send now c event_id online_ids receivers payload (thrown e) = thrown e
qos2_send now c event_id online_ids receivers payload (ok w) = ok (
    change_store (mark_delivered_all now event_id online_ids)
      (send_each (tracked_message c.label_to_receiver payload event_id) receivers w))

unfoldable pub qos2_store :
    StoreConfig
    → Services
    → ℕ
    → EventClass
    → Session
    → List ℕ
    → List ℕ
    → List ℕ
    → Fields
    → World
    → Outcome World
qos2_store config sv now c s online_ids [] receivers payload w = ok w
qos2_store config sv now c s online_ids (id ∷ ids) receivers payload w =
    let event_id = sv.fresh_id w in
    qos2_send now c event_id online_ids receivers payload (
      stored_world w (
        create config now event_id (id ∷ ids) c.label_to_receiver payload qos2 (qos2_options c s)
          (quiet_store w)))

-- The ids are those of the database, `none` where the type of receiver has none.
unfoldable pub qos_with_ids :
    StoreConfig
    → Services
    → ℕ
    → EventClass
    → Session
    → List ℕ
    → Fields
    → Option (List ℕ)
    → Qos
    → World
    → Outcome World
qos_with_ids config sv now c s receivers payload none qos w =
    thrown (app_ws_exception "UNSUPPORTED_AUTH_TYPE" "Auth type is not supported")
qos_with_ids config sv now c s receivers payload (some targets) qos0 w = ok w
qos_with_ids config sv now c s receivers payload (some targets) qos1 w =
    qos1_store config sv now c (offline_ids (active_ids w receivers) targets) payload
      (send_each (plain_message c.label_to_receiver payload) receivers w)
qos_with_ids config sv now c s receivers payload (some targets) qos2 w =
    let online_ids = active_ids w receivers in
    qos2_store config sv now c s online_ids (online_ids ++ offline_ids online_ids targets) receivers
      payload w

abbrev pub qossing_at :
    StoreConfig
    → Services
    → ℕ
    → EventClass
    → EnduserType
    → Session
    → List ℕ
    → Fields
    → Qos
    → World
    → Outcome World
qossing_at config sv now c receiver s receivers payload qos0 w =
    ok (send_each (plain_message c.label_to_receiver payload) receivers w)
qossing_at config sv now c receiver s receivers payload qos w =
    qos_with_ids config sv now c s receivers payload
      (get_id_enduser_by_type sv.ids s receiver c.product) qos w

-- `receiver` is the class's, but for the cancelled reservations.
unfoldable pub qossing :
    StoreConfig
    → Services
    → ℕ
    → EventClass
    → EnduserType
    → Session
    → List ℕ
    → Fields
    → World
    → Outcome World
qossing config sv now c receiver s receivers payload w =
    qossing_at config sv now c receiver s receivers payload c.qos w

-- Nothing waits for `qossing`: what it throws reaches no handler.
abbrev pub settle : Outcome World → App → App
settle (ok w) app = record app { world = w }
settle (thrown e) app = record app { unhandled = app.unhandled ++ (e ∷ []) }

abbrev pub to_server_or_self : EnduserType → Bool
to_server_or_self server = true
to_server_or_self self = true
to_server_or_self _ = false

unfoldable pub dispatch :
    StoreConfig → Services → ℕ → EventClass → Session → List ℕ → Fields → App → App
dispatch config sv now c s receivers payload app =
    if to_server_or_self c.receiver
    then change_world (send_each (plain_message c.label_to_receiver payload) receivers) app
    else settle (qossing config sv now c c.receiver s receivers payload app.world) app
