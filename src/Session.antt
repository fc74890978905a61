-- ===== src/Session.antt =====
-- schema/websocket.session.ts and types/ws-client.type.ts. Sessions and clients are objects that
-- point at each other; here each has a number, and a pointer is that number. `ready_state` is the
-- socket's: only the peer and the library change it, never a handler while it runs.
use gateway_realtime.Common.{
  nat_beq, Map, map_get, nat_eq, string_eq, ℕ, String, Bool, true, false, Option, none, some,
}
use gateway_realtime.Principal.{EnduserType, browser, device, desktop, Product, Principal}

pub data ConnectionState : Type 0 where
  connecting online suspend replace offline : ConnectionState

abbrev pub state_name : ConnectionState → String
state_name connecting = "CONNECTING"
state_name online = "ONLINE"
state_name suspend = "SUSPEND"
state_name replace = "REPLACE"
state_name offline = "OFFLINE"

pub record Client : Type 0 where
  pub ready_state : ℕ
  pub session : Option ℕ
  pub is_alive : Bool
  pub missed_pongs : ℕ
  pub is_resume : Bool

pub record Session : Type 0 where
  pub session_id : ℕ
  pub principal : Principal
  pub type : EnduserType
  pub product : Option Product
  pub state : ConnectionState
  pub socket : Option ℕ
  pub suspend_timer : Option ℕ
  pub last_seen : ℕ
  pub created_at : ℕ

unfoldable pub new_session : ℕ → ℕ → Principal → EnduserType → Option Product → Option ℕ → Session
new_session now session_id principal type product socket = record {
  session_id = session_id;
  principal = principal;
  type = type;
  product = product;
  state = connecting;
  socket = socket;
  suspend_timer = none;
  last_seen = now;
  created_at = now;
}

abbrev pub Clients : Type 0
Clients = Map ℕ Client

abbrev pub Sessions : Type 0
Sessions = Map ℕ Session

abbrev pub is_open_client : Option Client → Bool
is_open_client none = false
is_open_client (some c) = nat_beq c.ready_state 1

-- `socket?.readyState === 1`
abbrev pub is_open : Clients → Option ℕ → Bool
is_open clients none = false
is_open clients (some client) = is_open_client (map_get client clients)

unfoldable pub is_active : Clients → Session → Bool
is_active clients s = is_open clients s.socket

-- A device belongs to the tenant's devices, a browser or a desktop to its browsers.
abbrev pub is_device : EnduserType → Bool
is_device device = true
is_device _ = false

abbrev pub is_browser : EnduserType → Bool
is_browser browser = true
is_browser desktop = true
is_browser _ = false
