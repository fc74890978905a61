-- ===== src/Events/Examples.antt =====
-- The events on a small world.
use gateway_realtime.Common.{
  map_get, map_set, set_contains, set_add, length, All, string_eq, nat_eq, ℕ, ◌≤◌, ◌<◌, ◌≡◌, refl,
  true, none, some, List, [], ◌∷◌, arith,
}
use gateway_realtime.EventRecord.{qos2}
use gateway_realtime.EventStore.Create.{create}
use gateway_realtime.EventStore.Limits.{ids_of}
use gateway_realtime.EventStore.Queries.{get_pending}
use gateway_realtime.EventStore.State.{default_store_config, empty_store, index_of}
use gateway_realtime.EventStore.Steps.{Reach, Reach-IsIndexed}
use gateway_realtime.Events.Binary.{stream_header, read_id, read_id-stream_header}
use gateway_realtime.Events.Classes.{EventClass, rfid_scan, cancel_reservasi, upload_audio_end}
use gateway_realtime.Events.Dispatch.{active_ids, offline_ids, qos2_options, stored_world, qossing}
use gateway_realtime.Events.Execute.{told_browsers}
use gateway_realtime.Events.Qossing.{sent_world, qos1_offline_pending, cancel_only_stores}
use gateway_realtime.Events.Receivers.{receivers_by, get_receivers}
use gateway_realtime.Events.Tenant.{of_tenant, get_receivers-tenant}
use gateway_realtime.Feedback.{quiet_store}
use gateway_realtime.Gateway.Agreement.{GatewayReach-WorldOk}
use gateway_realtime.Gateway.History.{Settings, empty_world, GatewayReach, boots}
use gateway_realtime.Gateway.Sample.{a_session, a_world, a_device_session, some_services, an_app}
use gateway_realtime.Json.{no_fields}
use gateway_realtime.Principal.{browser, absensi}
use gateway_realtime.Registry.{empty_registry, register, get_browsers_by_tenant}
use gateway_realtime.Registry.Indexes.{IsRegistry, register-IsRegistry}
use gateway_realtime.Session.{is_active}
use gateway_realtime.SessionManager.{get_active_sockets_by_type, get_id_enduser_by_type}
use gateway_realtime.World.{World}
use gateway_realtime.WsError.{ok}

read_id-stream_header_example :
    (12 < 4294967296
      → (header : List ℕ) × (stream_header 12 ≡ some header)
        × (read_id header ≡ 12)
        × (length header ≡ 5)
        × All (λ b. b < 256) header)
    × (4294967296 ≤ 12 → stream_header 12 ≡ none)
read_id-stream_header_example = read_id-stream_header 12

abbrev an_env : Settings
an_env = record {
  devices = λ tenant product. some [];
  store_config = default_store_config;
  max_missed = 2;
}

a_world-IsRegistry : IsRegistry a_world.sessions a_world.registry
unfolding empty_world empty_registry register map_get map_set set_add
a_world-IsRegistry =
    let start : GatewayReach an_env (empty_world 0) = boots 0 in
    let empty = (GatewayReach-WorldOk start).registered in
    register-IsRegistry 0 a_session [] empty_registry empty refl refl

abbrev upload_receivers : List ℕ
upload_receivers = 0 ∷ []

-- Another class of uploads, to browsers.
abbrev upload_to_browsers : EventClass
upload_to_browsers = record upload_audio_end { receiver = browser }

uploads_to_itself :
    (get_receivers some_services 60000 5 upload_to_browsers "" 0 a_session an_app).1
    ≡ ok upload_receivers
unfolding get_receivers receivers_by get_active_sockets_by_type get_browsers_by_tenant is_active
    map_get
uploads_to_itself = refl

a_world_at : map_get 0 a_world.sessions ≡ some a_session
unfolding map_get
a_world_at = refl

itself : set_contains 0 upload_receivers ≡ true
unfolding set_contains
itself = refl

get_receivers-tenant_example : of_tenant "tenant" (map_get 0 a_world.sessions) ≡ true
get_receivers-tenant_example =
    get_receivers-tenant some_services 60000 5 upload_to_browsers "" 0 a_session an_app
      upload_receivers 0 a_world-IsRegistry a_world_at uploads_to_itself itself

scan_ids :
    get_id_enduser_by_type some_services.ids a_device_session browser (some absensi)
    ≡ some (3 ∷ 7 ∷ [])
unfolding get_id_enduser_by_type
scan_ids = refl

fresh_unused : map_get "fresh" (empty_store 0).events ≡ none
unfolding empty_store map_get
fresh_unused = refl

store_has_room : length (empty_store 0).events < 100000
unfolding empty_store
store_has_room = omega arith

users_have_room :
    All
      (λ target. length (index_of target (empty_store 0).user_events) < 1000)
      (offline_ids (active_ids a_world (0 ∷ [])) (3 ∷ 7 ∷ []))
unfolding empty_store is_active map_get set_contains
users_have_room = (omega arith, tt)

three_is_offline : set_contains 3 (offline_ids (active_ids a_world (0 ∷ [])) (3 ∷ 7 ∷ [])) ≡ true
unfolding is_active map_get set_contains
three_is_offline = refl

qos1_offline_pending_example :
    (w' : World) × (qossing default_store_config some_services 50 rfid_scan browser a_device_session
        (0 ∷ [])
        no_fields
        a_world
      ≡ ok w')
    × (w'.outputs ≡ (sent_world rfid_scan (0 ∷ []) no_fields a_world).outputs)
    × (set_contains "fresh" (ids_of (get_pending 60 3 w'.store)) ≡ true)
unfolding default_store_config
qos1_offline_pending_example =
    qos1_offline_pending default_store_config some_services 50 60 rfid_scan browser a_device_session
      (0 ∷ []) no_fields a_world (3 ∷ 7 ∷ []) 3 refl scan_ids
      (Reach-IsIndexed {config = default_store_config} (Reach.starts 0)) fresh_unused store_has_room
      users_have_room three_is_offline (omega arith)

users_of_tenant : some_services.ids browser "tenant" (some absensi) ≡ 3 ∷ 7 ∷ []
users_of_tenant = refl

cancel_only_stores_example :
    (told_browsers a_device_session a_world ≡ [])
    × (qossing default_store_config some_services 50 cancel_reservasi browser a_device_session
          (told_browsers a_device_session a_world)
          no_fields
          a_world
        ≡ stored_world a_world (
            create default_store_config 50 "fresh"
              (3 ∷ 7 ∷ [])
              cancel_reservasi.label_to_receiver
              no_fields
              qos2
              (qos2_options cancel_reservasi a_device_session)
              (quiet_store a_world)))
cancel_only_stores_example =
    cancel_only_stores default_store_config some_services 50 a_device_session no_fields a_world 3
      (7 ∷ []) refl users_of_tenant
