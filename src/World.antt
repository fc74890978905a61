-- ===== src/World.antt =====
-- The state that the WebSocket services share: the client and session objects, the registry, the
-- event store, the armed suspend timers, and what has been done to the sockets, oldest first.
use gateway_realtime.Common.{
  Map, map_delete, map_update, nat_eq, string_eq, ℕ, String, Option, none, some, List, [], ◌∷◌,
  ◌++◌,
}
use gateway_realtime.EventStore.State.{EventStore}
use gateway_realtime.Json.{Json}
use gateway_realtime.Registry.{Registry}
use gateway_realtime.Session.{Client, Session, Clients, Sessions}

-- A call of a client's `send`, `close`, `terminate` or `ping`.
pub data Output : Type 0 where
  sent : ℕ → Json → Output
  sent_bytes : ℕ → List ℕ → Output
  closed : ℕ → ℕ → String → Output
  terminated pinged : ℕ → Output

-- A timer is a number; `timers` says which session an armed one belongs to. `next` is unused as the
-- number of a timer and of a session.
pub record World : Type 0 where
  pub clients : Clients
  pub sessions : Sessions
  pub registry : Registry
  pub store : EventStore
  pub timers : Map ℕ ℕ
  pub next : ℕ
  pub outputs : List Output

unfoldable pub output : Output → World → World
output o w = record w { outputs = w.outputs ++ (o ∷ []) }

abbrev pub send : ℕ → Json → World → World
send client message w = output (sent client message) w

-- `socket?.send(message)`
abbrev pub send_to : Option ℕ → Json → World → World
send_to none message w = w
send_to (some client) message w = send client message w

abbrev pub update_session : ℕ → (Session → Session) → World → World
update_session ref f w = record w { sessions = map_update ref f w.sessions }

abbrev pub update_client : ℕ → (Client → Client) → World → World
update_client client f w = record w { clients = map_update client f w.clients }

-- A change of the store that emits nothing, such as a mark.
abbrev pub change_store : (EventStore → EventStore) → World → World
change_store f w = record w { store = f w.store }

-- `clearTimeout` of a timer that may not be there.
abbrev pub clear_timer : Option ℕ → World → World
clear_timer none w = w
clear_timer (some timer) w = record w { timers = map_delete timer w.timers }

-- The socket of the session that a number stands for.
abbrev pub socket_of : Option Session → Option ℕ
socket_of none = none
socket_of (some s) = s.socket
