-- ===== src/Feedback.antt =====
-- The listener of `event.expired` in services/event-retry-heartbeat.service.ts. The emitter calls it
-- at once, within the call of the event store that emits; that reads and writes nothing of the
-- listener's, so that the notices of a call are handled here in their order when it is done.
pub mod Laws
mod Examples
use gateway_realtime.Common.{
  if◌then◌else◌, or_default, truthy, string_eq, nat_eq, ◌==◌, String, Option, none, some, List, [],
  ◌∷◌,
}
use gateway_realtime.EventStore.State.{
  RemoveReason, by_applied, by_expired, by_force, ExpiredNotice, EventStore,
}
use gateway_realtime.Json.{Json, str, obj, field, object1}
use gateway_realtime.Session.{Session, is_active}
use gateway_realtime.SessionManager.{session_at, get_session_by_id}
use gateway_realtime.World.{World, send_to}

abbrev pub reason_name : RemoveReason → String
reason_name by_applied = "applied"
reason_name by_expired = "expired"
reason_name by_force = "force"

-- `payload.senderEventName || payload.eventName`
abbrev pub shown_name : Option String → String → String
shown_name none name = name
shown_name (some sender_name) name = if sender_name == "" then name else sender_name

abbrev pub expired_message : ExpiredNotice → Json
expired_message n = obj (
    field "event" (str "event_expired") (
      field "eventId" (str n.event_id) (
        field "eventName" (str (shown_name n.sender_event_name n.event_name))
          (object1 "reason" (str (reason_name n.reason))))))

unfoldable pub notify_session : ExpiredNotice → Option Session → World → World
notify_session n none w = w
notify_session n (some s) w =
    if is_active w.clients s then send_to s.socket (expired_message n) w else w

-- The listener of `event.expired`.
unfoldable pub handle_event_expired : ExpiredNotice → World → World
unfolding notify_session
handle_event_expired n w =
    if truthy n.sender_id
    then notify_session n (session_at (get_session_by_id (or_default n.sender_id 0) w) w.sessions) w
    else w

unfoldable pub handle_notices : List ExpiredNotice → World → World
handle_notices [] w = w
handle_notices (n ∷ ns) w = handle_notices ns (handle_event_expired n w)

-- The store as a call of it finds it: `notices` has those of one call.
abbrev pub quiet_store : World → EventStore
quiet_store w = record w.store { notices = [] }

-- The world after a call of the store, with its notices handled.
unfoldable pub emit_notices : EventStore → World → World
emit_notices st w = handle_notices st.notices (record w { store = record st { notices = [] } })
