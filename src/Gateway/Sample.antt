-- ===== src/Gateway/Sample.antt =====
-- A small world: one browser session whose client is 5, and a device.
use gateway_realtime.Common.{true, false, none, some, [], ◌∷◌}
use gateway_realtime.EventStore.State.{empty_store}
use gateway_realtime.Events.State.{App, Services}
use gateway_realtime.Json.{no_fields}
use gateway_realtime.Principal.{
  browser, device, absensi, bell, Principal, browser_user, device_user,
}
use gateway_realtime.Session.{ConnectionState, Client, Session}
use gateway_realtime.World.{World}
use gateway_realtime.WsError.{ok}

abbrev pub a_browser : Principal
a_browser = browser_user (record {
  client_id = "tenant";
  products = [];
  role = "admin";
  white_list_send = [];
  white_list_get = [];
  role_product = bell;
})

abbrev pub a_session : Session
a_session = record {
  session_id = 7;
  principal = a_browser;
  type = browser;
  product = none;
  state = ConnectionState.online;
  socket = some 5;
  suspend_timer = none;
  last_seen = 10;
  created_at = 10;
}

abbrev pub a_client : Client
a_client = record {
  ready_state = 1;
  session = some 0;
  is_alive = true;
  missed_pongs = 0;
  is_resume = false;
}

abbrev pub a_world : World
a_world = record {
  clients = (5, a_client) ∷ [];
  sessions = (0, a_session) ∷ [];
  registry = record {
    sessions = (7, 0) ∷ [];
    tenant_devices = [];
    tenant_browsers = ("tenant", 0 ∷ []) ∷ [];
  };
  store = empty_store 0;
  timers = [];
  next = 1;
  outputs = [];
}

abbrev pub a_device : Principal
a_device = device_user (record {
  client_id = "tenant";
  products = [];
  device_id = "gate";
  blacklist_send = none;
  blacklist_get = none;
  id_device = "12";
  device_product = absensi;
})

abbrev pub a_device_session : Session
a_device_session = record a_session {
  session_id = 1;
  principal = a_device;
  type = device;
  socket = some 9;
}

abbrev pub some_services : Services
some_services = record {
  events_of = λ product. record { id = "scan"; label = "login"; id_device = "12" } ∷ [];
  ids = λ type tenant product. 3 ∷ 7 ∷ [];
  call = λ request. ok no_fields;
  dto_errors = λ label payload. none;
  fresh_id = λ w. "fresh";
}

abbrev pub an_app : App
an_app = record { world = a_world; caches = []; emitted = []; unhandled = [] }
