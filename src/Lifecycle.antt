-- ===== src/Lifecycle.antt =====
-- lifesycles/base.lifesycle.ts, lifesycles/default.lifesycle.ts and
-- services/lifecycle-factory.service.ts.
pub mod Notify
pub mod Snapshot
pub mod Delivery
pub mod Outputs
use gateway_realtime.Common.{
  if◌then◌else◌, map_get, map_set, map_delete, map_update, nat_eq, string_eq, ℕ, ◌+◌, String, Bool,
  false, Option, none, some, List, [], ◌∷◌,
}
use gateway_realtime.EventRecord.{Qos, qos0, qos1, qos2, EventRecord}
use gateway_realtime.EventStore.Marks.{mark_delivered, mark_applied}
use gateway_realtime.EventStore.Queries.{get_pending}
use gateway_realtime.EventStore.State.{EventStore}
use gateway_realtime.EventStore.Steps.{next}
use gateway_realtime.Json.{Json, plain_message, tracked_message}
use gateway_realtime.Lifecycle.Notify.{
  device_connected, device_disconnected, device_suspend, device_reconnect,
}
use gateway_realtime.Lifecycle.Snapshot.{DeviceSource, send_snapshot}
use gateway_realtime.Principal.{EnduserType, browser, device, desktop}
use gateway_realtime.Registry.{unregister}
use gateway_realtime.Session.{
  ConnectionState, online, suspend, replace, offline, Client, Session, Clients, is_active,
}
use gateway_realtime.SessionManager.{is_suspended}
use gateway_realtime.World.{World, send_to, update_session, change_store, clear_timer}

pub data Lifecycle : Type 0 where
  device_lifecycle browser_lifecycle default_lifecycle : Lifecycle

unfoldable pub resolve : EnduserType → Lifecycle
resolve device = device_lifecycle
resolve browser = browser_lifecycle
resolve desktop = browser_lifecycle
resolve _ = default_lifecycle

unfoldable pub after_connect : DeviceSource → Lifecycle → ℕ → Session → World → World
after_connect devices device_lifecycle ref s w = device_connected s w
after_connect devices browser_lifecycle ref s w = send_snapshot devices s w
after_connect devices default_lifecycle ref s w = w

unfoldable pub after_resume : Lifecycle → Session → World → World
after_resume device_lifecycle s w = device_reconnect s w
after_resume _ s w = w

unfoldable pub after_suspend : Lifecycle → Session → World → World
after_suspend device_lifecycle s w = device_suspend s w
after_suspend _ s w = w

unfoldable pub after_disconnect : Lifecycle → Session → World → World
after_disconnect device_lifecycle s w = device_disconnected s w
after_disconnect _ s w = w

unfoldable pub mark_qos : Qos → ℕ → ℕ → String → EventStore → EventStore
mark_qos qos0 now user event_id st = st
mark_qos qos1 now user event_id st = mark_applied user event_id st
mark_qos qos2 now user event_id st = mark_delivered now user event_id st

-- What is recorded of an event that has been sent to a user.
unfoldable pub mark_sent : ℕ → ℕ → EventRecord → EventStore → EventStore
mark_sent now user r st = mark_qos r.qos now user r.event_id st

abbrev pub pending_message : EventRecord → Json
pending_message r = elim r.qos [
  | qos2 ↦ tracked_message r.event_name r.payload r.event_id
  | _ ↦ plain_message r.event_name r.payload
]

unfoldable pub deliver_record : ℕ → Session → EventRecord → World → World
deliver_record now s r w =
    change_store (mark_sent now s.session_id r) (send_to s.socket (pending_message r) w)

unfoldable pub deliver_records : ℕ → Session → List EventRecord → World → World
deliver_records now s [] w = w
deliver_records now s (r ∷ rs) w =
    if is_active w.clients s then deliver_records now s rs (deliver_record now s r w) else w

unfoldable pub deliver_pending_events : ℕ → Session → World → World
deliver_pending_events now s w = deliver_records now s (get_pending now s.session_id w.store) w

abbrev pub resumes : Option Client → Bool
resumes none = false
resumes (some c) = c.is_resume

abbrev pub client_at : Option ℕ → Clients → Option Client
client_at none clients = none
client_at (some client) clients = map_get client clients

abbrev pub go_online : ℕ → Session → Session
go_online now s = record s { last_seen = now; state = online }

unfoldable pub connect_session : DeviceSource → ℕ → ℕ → Session → World → World
connect_session devices now ref s w =
    let s' = go_online now s in
    let w' = deliver_pending_events now s' (update_session ref (go_online now) w) in
    if resumes (client_at s'.socket w'.clients)
    then after_resume (resolve s.type) s' w'
    else after_connect devices (resolve s.type) ref s' w'

unfoldable pub connect_as : DeviceSource → ℕ → ℕ → Session → Lifecycle → World → World
connect_as devices now ref s default_lifecycle w = w
connect_as devices now ref s _ w = connect_session devices now ref s w

unfoldable pub connect_found : DeviceSource → ℕ → ℕ → Option Session → World → World
unfolding connect_as
connect_found devices now ref none w = w
connect_found devices now ref (some s) w = connect_as devices now ref s (resolve s.type) w

unfoldable pub on_connect : DeviceSource → ℕ → ℕ → World → World
unfolding connect_found
on_connect devices now ref w = connect_found devices now ref (map_get ref w.sessions) w

abbrev pub go_suspend : Session → Session
go_suspend s = record s { state = suspend; socket = none }

-- The timer that the session had is cleared; the session keeps its number.
unfoldable pub on_suspend : ℕ → Session → World → World
on_suspend ref s w =
    after_suspend (resolve s.type) (go_suspend s)
      (clear_timer s.suspend_timer (update_session ref go_suspend w))

abbrev pub arm : ℕ → World → World
arm ref w = record w {
  timers = map_set w.next ref w.timers;
  sessions = map_update ref (λ s. record s { suspend_timer = some w.next }) w.sessions;
  next = w.next + 1;
}

abbrev pub leave : ℕ → Session → World → World
leave ref s w =
    after_disconnect (resolve s.type) s
      (record w { registry = unregister s.session_id w.sessions w.registry })

unfoldable pub disconnect_in : ConnectionState → ℕ → Session → World → World
disconnect_in replace ref s w = w
disconnect_in offline ref s w = leave ref s w
disconnect_in _ ref s w = arm ref (on_suspend ref s w)

abbrev pub seen : ℕ → Session → Session
seen now s = record s { last_seen = now }

unfoldable pub disconnect_as : ℕ → ℕ → Session → Lifecycle → World → World
unfolding disconnect_in
disconnect_as now ref s default_lifecycle w = w
disconnect_as now ref s _ w =
    disconnect_in s.state ref (seen now s) (update_session ref (seen now) w)

unfoldable pub disconnect_found : ℕ → ℕ → Option Session → World → World
unfolding disconnect_as
disconnect_found now ref none w = w
disconnect_found now ref (some s) w = disconnect_as now ref s (resolve s.type) w

unfoldable pub on_disconnect : ℕ → ℕ → World → World
unfolding disconnect_found
on_disconnect now ref w = disconnect_found now ref (map_get ref w.sessions) w

abbrev pub go_offline : Session → Session
go_offline s = record s { state = offline }

unfoldable pub timer_of : ℕ → Option Session → World → World
timer_of ref none w = w
timer_of ref (some s) w =
    if is_suspended s.state then leave ref (go_offline s) (update_session ref go_offline w) else w

unfoldable pub fire_found : Option ℕ → World → World
unfolding timer_of
fire_found none w = w
fire_found (some ref) w = timer_of ref (map_get ref w.sessions) w

-- The callback of a suspend timer; a timer that has been cleared does nothing.
unfoldable pub suspend_timer_fired : ℕ → World → World
unfolding fire_found
suspend_timer_fired timer w =
    fire_found (map_get timer w.timers) (record w { timers = map_delete timer w.timers })
