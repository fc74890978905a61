-- ===== src/Heartbeat/Examples.antt =====
-- The heartbeat on one client.
use gateway_realtime.Common.{
  map_get, map_update, string_eq, nat_eq, ℕ, ◌<◌, ◌≡◌, refl, [], ◌∷◌, ◌++◌, arith,
}
use gateway_realtime.Gateway.Sample.{a_client, a_world}
use gateway_realtime.Heartbeat.{beat, beat_found, beat_each, heartbeat, ponged}
use gateway_realtime.Heartbeat.Laws.{
  done_to, Listed, WithoutPong, heard, unheard, silent_client_closed,
}
use gateway_realtime.Registry.{get_all_sessions}
use gateway_realtime.Session.{is_active}
use gateway_realtime.SessionManager.{get_active_sockets}
use gateway_realtime.World.{closed, pinged, World, output}

abbrev silent_world : World
silent_world = record a_world { clients = (5, ponged a_client) ∷ [] }

silent_world-WithoutPong : WithoutPong 2 5 0 silent_world
unfolding map_get
silent_world-WithoutPong = heard a_client refl refl

silent_world-Listed : Listed 5 silent_world
unfolding get_active_sockets is_active map_get ponged get_all_sessions
silent_world-Listed = refl

silent_round : WithoutPong 2 5 1 (heartbeat 2 silent_world)
silent_round = unheard silent_world-WithoutPong (omega arith) silent_world-Listed refl

silent_round-Listed : Listed 5 (heartbeat 2 silent_world)
unfolding heartbeat beat_each beat_found beat map_update output get_active_sockets is_active map_get
    ponged get_all_sessions
silent_round-Listed = refl

silent_twice : WithoutPong 2 5 2 (heartbeat 2 (heartbeat 2 silent_world))
silent_twice = unheard silent_round (omega arith) silent_round-Listed refl

silent_twice-Listed : Listed 5 (heartbeat 2 (heartbeat 2 silent_world))
unfolding heartbeat beat_each beat_found beat map_update output get_active_sockets is_active map_get
    ponged get_all_sessions
silent_twice-Listed = refl

silent_client_closed_example :
    (2 < 2
      → done_to 5 (heartbeat 2 (heartbeat 2 (heartbeat 2 silent_world)))
        ≡ done_to 5 (heartbeat 2 (heartbeat 2 silent_world)) ++ pinged 5 ∷ [])
    × (◌≡◌ {A = ℕ} 2 2
        → done_to 5 (heartbeat 2 (heartbeat 2 (heartbeat 2 silent_world)))
          ≡ done_to 5 (heartbeat 2 (heartbeat 2 silent_world))
            ++ closed 5 1001 "Heartbeat timeout" ∷ [])
silent_client_closed_example = silent_client_closed (omega arith) silent_twice silent_twice-Listed
