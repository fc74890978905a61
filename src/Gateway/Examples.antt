-- ===== src/Gateway/Examples.antt =====
-- The gateway on a small world: one browser session whose client is 5.
use gateway_realtime.Common.{
  map_get, map_set, set_contains, All, string_eq, nat_eq, ℕ, ◌≡◌, refl, true, false, none, some, [],
  ◌∷◌, ◌++◌, arith,
}
use gateway_realtime.EventStore.Acked.History.{Without}
use gateway_realtime.EventStore.Queries.{get_pending, get_pending_with_retry}
use gateway_realtime.EventStore.Sample.{small, two_events, two_events-Reach}
use gateway_realtime.EventStore.State.{default_store_config}
use gateway_realtime.EventStore.Steps.{Reach-IsIndexed}
use gateway_realtime.Gateway.{handle_connection, handle_disconnect}
use gateway_realtime.Gateway.Agreement.{belongs, GatewayReach-exact}
use gateway_realtime.Gateway.Gone.{Holds}
use gateway_realtime.Gateway.History.{Settings, opens, connects, empty_world, boots, then_step}
use gateway_realtime.Gateway.Reconnect.{
  handle_disconnect_twice, reconnect_in_time, timer_unregisters,
}
use gateway_realtime.Gateway.Replace.{replaced_client_ignored}
use gateway_realtime.Gateway.Sample.{a_browser, a_session, a_client, a_world}
use gateway_realtime.Lifecycle.{deliver_pending_events, suspend_timer_fired}
use gateway_realtime.Lifecycle.Delivery.{mark_all, is_qos1, sent_messages, deliver_pending_once}
use gateway_realtime.Lifecycle.Snapshot.{DeviceSource}
use gateway_realtime.Principal.{browser}
use gateway_realtime.RateLimit.Guard.{passed}
use gateway_realtime.Registry.{find, get_devices_by_tenant, get_browsers_by_tenant}
use gateway_realtime.Retry.{retry_user}
use gateway_realtime.Retry.Laws.{retried_messages, retry_user_round}
use gateway_realtime.Session.{Session, is_active, is_device, is_browser}
use gateway_realtime.SessionManager.{Authenticated, establish_session}
use gateway_realtime.World.{World, socket_of}
use gateway_realtime.WsError.{ok}

a_world-Holds : Holds 5 0 a_session a_world
unfolding map_get
a_world-Holds = record {
  bound = refl;
  at = refl;
  socket = refl;
  online = refl;
  has_lifecycle = refl;
}

a_world_finds : map_get 7 a_world.registry.sessions ≡ some 0
unfolding map_get
a_world_finds = refl

abbrev a_login : Authenticated
a_login = record { id_enduser = 7; auth = a_browser; type = browser; product = none }

handle_disconnect_twice_example :
    handle_disconnect 30 5 (handle_disconnect 20 5 a_world) ≡ handle_disconnect 20 5 a_world
handle_disconnect_twice_example = handle_disconnect_twice 20 30 5 0 a_session a_world a_world-Holds

reconnect_in_time_example :
    let back = establish_session 30 a_login 9 (handle_disconnect 20 5 a_world) in
    let after = suspend_timer_fired 1 back.0 in
    (back.1 ≡ 0)
    × (after.registry ≡ a_world.registry)
    × ((t : Session) × (map_get 0 after.sessions ≡ some t)
        × (t.socket ≡ some 9)
        × (t.principal ≡ a_browser))
reconnect_in_time_example =
    reconnect_in_time 20 30 5 0 9 a_session a_login a_world a_world-Holds a_world_finds refl

timer_unregisters_example :
    find 7 (suspend_timer_fired 1 (handle_disconnect 20 5 a_world)).registry ≡ none
timer_unregisters_example = timer_unregisters 20 5 0 a_session a_world a_world-Holds a_world_finds

abbrev no_devices : DeviceSource
no_devices tenant product = some []

abbrev an_env : Settings
an_env = record { devices = no_devices; store_config = default_store_config; max_missed = 2 }

abbrev connected_world : World
connected_world =
    handle_connection no_devices 10 passed (ok a_login) 5
      (record (empty_world 0) { clients = map_set 5 a_client (empty_world 0).clients })

GatewayReach-exact_example :
    (set_contains 0 (
        get_devices_by_tenant "tenant"
          (λ s. true)
          connected_world.sessions
          connected_world.registry)
      ≡ belongs is_device "tenant" (λ s. true) 0 connected_world)
    × (set_contains 0 (
          get_browsers_by_tenant "tenant"
            (λ s. true)
            connected_world.sessions
            connected_world.registry)
        ≡ belongs is_browser "tenant" (λ s. true) 0 connected_world)
    × ((id : ℕ)
        → find id connected_world.registry ≡ some 0
        → (s : Session) × (map_get 0 connected_world.sessions ≡ some s) × (s.session_id ≡ id))
GatewayReach-exact_example =
    GatewayReach-exact {env = an_env} "tenant" (λ s. true) 0
      (then_step (then_step (boots 0) (opens 5 a_client)) (connects 10 passed (ok a_login) 5))

abbrev full_world : World
full_world = record a_world {
  sessions = (0, record a_session { session_id = 1 }) ∷ [];
  registry = record a_world.registry { sessions = (1, 0) ∷ [] };
  store = two_events;
}

full_world_active : is_active full_world.clients (record a_session { session_id = 1 }) ≡ true
unfolding is_active map_get
full_world_active = refl

full_world_finds : find 1 full_world.registry ≡ some 0
unfolding find map_get
full_world_finds = refl

full_world_at : map_get 0 full_world.sessions ≡ some (record a_session { session_id = 1 })
unfolding map_get
full_world_at = refl

deliver_pending_once_example :
    let s = record a_session { session_id = 1 } in
    let w' = deliver_pending_events 300 s full_world in
    let pending = get_pending 300 1 two_events in
    (w'.outputs ≡ [] ++ sent_messages 5 pending)
    × All (λ r. is_qos1 r.qos ≡ true → Without r.event_id (get_pending 400 1 w'.store)) pending
deliver_pending_once_example =
    deliver_pending_once 300 400 5 (record a_session { session_id = 1 }) full_world refl
      full_world_active (Reach-IsIndexed two_events-Reach)

retry_user_round_example :
    let s = record a_session { session_id = 1 } in
    let due = get_pending_with_retry small (λ id. 0) 300 1 two_events in
    (is_active full_world.clients s ≡ false
      → retry_user small (λ id. 0) 300 1 full_world ≡ full_world)
    × (is_active full_world.clients s ≡ true
        → retry_user small (λ id. 0) 300 1 full_world ≡ record full_world {
          outputs = [] ++ retried_messages 5 due;
          store = mark_all 300 1 due two_events;
        })
retry_user_round_example =
    retry_user_round small (λ id. 0) 300 1 0 (record a_session { session_id = 1 }) full_world
      full_world_finds full_world_at

replaced_client_ignored_example :
    let taken = establish_session 20 a_login 9 a_world in
    (taken.1 ≡ 0)
    × (socket_of (map_get 0 taken.0.sessions) ≡ some 9)
    × (handle_disconnect 30 5 taken.0 ≡ taken.0)
replaced_client_ignored_example =
    replaced_client_ignored 20 30 5 0 9 a_session a_login a_world a_world-Holds a_world_finds refl
      (omega arith)
