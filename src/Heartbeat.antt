-- ===== src/Heartbeat.antt =====
-- services/websocket-hearbeat.service.ts.
mod Examples
pub mod Laws
use gateway_realtime.Common.{
  leb, nat_beq, if◌then◌else◌, map_get, string_eq, nat_eq, ℕ, ◌+◌, true, false, Option, none, some,
  List, [], ◌∷◌,
}
use gateway_realtime.Session.{Client}
use gateway_realtime.SessionManager.{get_active_sockets}
use gateway_realtime.World.{Output, closed, terminated, pinged, World, output, update_client}

pub data Beat : Type 0 where
  ping close_it : Beat

abbrev pub pinged_client : Client → Client
pinged_client c = record c { is_alive = false }

abbrev pub miss : Client → Client
miss c = record c { missed_pongs = c.missed_pongs + 1 }

-- What a round does to one open client.
unfoldable pub beat : ℕ → Client → Client × Beat
beat max_missed c =
    if c.is_alive
    then (pinged_client c, ping)
    else if leb max_missed (c.missed_pongs + 1)
    then (miss c, close_it)
    else (pinged_client (miss c), ping)

abbrev pub beat_output : ℕ → Beat → Output
beat_output client ping = pinged client
beat_output client close_it = closed client 1001 "Heartbeat timeout"

abbrev pub beat_with : ℕ → Client × Beat → World → World
beat_with client (c, b) w = output (beat_output client b) (update_client client (λ _. c) w)

unfoldable pub beat_found : ℕ → ℕ → Option Client → World → World
beat_found max_missed client none w = w
beat_found max_missed client (some c) w =
    if nat_beq c.ready_state 1 then beat_with client (beat max_missed c) w else w

unfoldable pub beat_each : ℕ → List ℕ → World → World
unfolding beat_found
beat_each max_missed [] w = w
beat_each max_missed (client ∷ clients) w =
    beat_each max_missed clients (beat_found max_missed client (map_get client w.clients) w)

-- A round of the interval.
unfoldable pub heartbeat : ℕ → World → World
heartbeat max_missed w = beat_each max_missed (get_active_sockets w) w

unfoldable pub terminate_each : List ℕ → World → World
terminate_each [] w = w
terminate_each (client ∷ clients) w = terminate_each clients (output (terminated client) w)

unfoldable pub on_module_destroy : World → World
on_module_destroy w = terminate_each (get_active_sockets w) w

-- What a pong makes of a client.
unfoldable pub ponged : Client → Client
ponged c = record c { is_alive = true; missed_pongs = 0 }
