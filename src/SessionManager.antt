-- ===== src/SessionManager.antt =====
-- services/websocket-sesi-manager.service.ts.
use gateway_realtime.Common.{
  if◌then◌else◌, or_default, map_get, map_set, nat_eq, string_eq, ℕ, ◌+◌, String, Bool, true, false,
  not, Option, none, some, List, [], ◌∷◌, ◌++◌,
}
use gateway_realtime.Principal.{
  EnduserType, browser, device, self, desktop, server, Product, Principal, client_id_of,
}
use gateway_realtime.Registry.{
  register, find, get_all_sessions, get_devices_by_tenant, get_browsers_by_tenant,
}
use gateway_realtime.Session.{
  ConnectionState, connecting, suspend, replace, Client, Session, new_session, Clients, Sessions,
  is_open, is_active, is_browser,
}
use gateway_realtime.World.{
  closed, terminated, World, output, update_session, update_client, clear_timer,
}

abbrev pub bind_client : ℕ → Option Bool → Client → Client
bind_client ref resume c = record c {
  session = some ref;
  is_resume = or_default resume c.is_resume;
}

abbrev pub take_socket : ℕ → ℕ → Session → Session
take_socket now client s = record s { socket = some client; state = connecting; last_seen = now }

unfoldable pub resume_session : ℕ → ℕ → Session → ℕ → World → World
resume_session now ref s client w =
    let w1 =
      if is_open w.clients s.socket then output (terminated (or_default s.socket 0)) w else w in
    let w2 = clear_timer s.suspend_timer w1 in
    update_client client (bind_client ref (some true))
      (update_session ref (λ s. take_socket now client (record s { suspend_timer = none })) w2)

-- The part of `replaceSession` for an old socket that is still open.
unfoldable pub drop_old_socket : ℕ → Session → World → World
drop_old_socket ref s w =
    if is_open w.clients s.socket
    then output (closed (or_default s.socket 0) 1000 "REPLACED") (
        clear_timer s.suspend_timer
          (update_session ref (λ s. record s { state = replace; suspend_timer = none }) w))
    else w

unfoldable pub replace_session : ℕ → ℕ → Session → ℕ → World → World
replace_session now ref s client w =
    update_client client (bind_client ref (some (not (is_browser s.type))))
      (update_session ref (take_socket now client) (drop_old_socket ref s w))

-- What the guard hands on of an accepted connection.
pub record Authenticated : Type 0 where
  pub id_enduser : ℕ
  pub auth : Principal
  pub type : EnduserType
  pub product : Option Product

unfoldable pub create_session : ℕ → Authenticated → ℕ → World → World
create_session now a client w =
    let s = new_session now a.id_enduser a.auth a.type a.product (some client) in
    update_client client (bind_client w.next none) (record w {
      sessions = map_set w.next s w.sessions;
      registry = register w.next s w.registry;
      next = w.next + 1;
    })

abbrev pub is_suspended : ConnectionState → Bool
is_suspended suspend = true
is_suspended _ = false

unfoldable pub establish_with :
    ℕ → Authenticated → ℕ → Option ℕ → Option Session → World → World × ℕ
establish_with now a client (some ref) (some s) w =
    if is_suspended s.state
    then (resume_session now ref s client w, ref)
    else (replace_session now ref s client w, ref)
establish_with now a client _ _ w = (create_session now a client w, w.next)

abbrev pub session_at : Option ℕ → Sessions → Option Session
session_at none sessions = none
session_at (some ref) sessions = map_get ref sessions

-- The world after it and the session that the client now has.
unfoldable pub establish_session : ℕ → Authenticated → ℕ → World → World × ℕ
establish_session now a client w =
    let found = find a.id_enduser w.registry in
    establish_with now a client found (session_at found w.sessions) w

abbrev pub socket_list : Option ℕ → List ℕ
socket_list none = []
socket_list (some client) = client ∷ []

abbrev pub active_socket : Clients → Option Session → List ℕ
active_socket clients none = []
active_socket clients (some s) = if is_active clients s then socket_list s.socket else []

abbrev pub active_sockets : World → List ℕ → List ℕ
active_sockets w [] = []
active_sockets w (ref ∷ refs) =
    active_socket w.clients (map_get ref w.sessions) ++ active_sockets w refs

unfoldable pub get_active_sockets : World → List ℕ
get_active_sockets w = active_sockets w (get_all_sessions w.registry)

-- `ref` is the session that asks and `s` what it is.
unfoldable pub get_active_sockets_by_type : ℕ → Session → EnduserType → World → List ℕ
get_active_sockets_by_type ref s browser w =
    get_browsers_by_tenant (client_id_of s.principal) (is_active w.clients) w.sessions w.registry
get_active_sockets_by_type ref s desktop w =
    get_browsers_by_tenant (client_id_of s.principal) (is_active w.clients) w.sessions w.registry
get_active_sockets_by_type ref s device w =
    get_devices_by_tenant (client_id_of s.principal) (is_active w.clients) w.sessions w.registry
get_active_sockets_by_type ref s self w = ref ∷ []
get_active_sockets_by_type ref s server w = []

unfoldable pub get_session_by_id : ℕ → World → Option ℕ
get_session_by_id user w = find user w.registry

-- The ids that the database has for a tenant, a type of end user and a product.
abbrev pub IdSource : Type 0
IdSource = EnduserType → String → Option Product → List ℕ

-- `none` is the exception `UNSUPPORTED_AUTH_TYPE`: only browsers and devices have a strategy.
unfoldable pub get_id_enduser_by_type :
    IdSource → Session → EnduserType → Option Product → Option (List ℕ)
get_id_enduser_by_type ids s browser product = some (ids browser (client_id_of s.principal) product)
get_id_enduser_by_type ids s device product = some (ids device (client_id_of s.principal) product)
get_id_enduser_by_type ids s _ product = none
