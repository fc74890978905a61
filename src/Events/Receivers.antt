-- ===== src/Events/Receivers.antt =====
-- `getReceivers` of events/base-ws.event.ts, with the overrides of the upload and acknowledgement
-- events.
use gateway_realtime.Common.{ℕ, String, List, [], ◌∷◌}
use gateway_realtime.Events.Classes.{EventKind, acknowledges, uploads, EventClass}
use gateway_realtime.Events.Helpers.{EventEntry, get_helper, filter_events, filter_receivers}
use gateway_realtime.Events.State.{App, Services, get_events_product}
use gateway_realtime.Session.{Session}
use gateway_realtime.SessionManager.{get_active_sockets_by_type}
use gateway_realtime.World.{World}
use gateway_realtime.WsError.{Thrown, Outcome, ok, thrown, app_ws_exception}

abbrev forbidden_event : Thrown
forbidden_event = app_ws_exception "FORBIDDEN_EVENT" "Akses event ditolak"

unfoldable pub receivers_allowed :
    EventClass → ℕ → Session → Outcome (List EventEntry) → World → Outcome (List ℕ)
receivers_allowed c ref s (thrown e) w = thrown e
receivers_allowed c ref s (ok []) w = thrown forbidden_event
receivers_allowed c ref s (ok (e ∷ es)) w = ok (
    filter_receivers (get_helper c.receiver) (e ∷ es) w.sessions
      (get_active_sockets_by_type ref s c.receiver w))

unfoldable pub base_receivers :
    Services → ℕ → ℕ → EventClass → String → ℕ → Session → App → App × Outcome (List ℕ)
base_receivers sv ttl now c event ref s app =
    let (app', entries) = get_events_product sv ttl now c app in
    (
      app',
      receivers_allowed c ref s (filter_events (get_helper s.type) s.principal event entries)
          app'.world,
    )

unfoldable pub receivers_by :
    Services → ℕ → ℕ → EventClass → String → ℕ → Session → EventKind → App → App × Outcome (List ℕ)
receivers_by sv ttl now c event ref s acknowledges app = (app, ok [])
receivers_by sv ttl now c event ref s uploads app =
    (app, ok (get_active_sockets_by_type ref s c.receiver app.world))
receivers_by sv ttl now c event ref s _ app = base_receivers sv ttl now c event ref s app

unfoldable pub get_receivers :
    Services → ℕ → ℕ → EventClass → String → ℕ → Session → App → App × Outcome (List ℕ)
unfolding receivers_by
get_receivers sv ttl now c event ref s app = receivers_by sv ttl now c event ref s c.kind app
