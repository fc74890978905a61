-- ===== src/Events/Helpers.antt =====
-- Who may send an event and who gets it: events/helpers.
use gateway_realtime.Common.{
  or_default, is_some, map_get, set_contains, filter, any, ◌==◌, nat_eq, string_eq, ℕ, String, Bool,
  true, ◌&&◌, not, List, [],
}
use gateway_realtime.Principal.{
  EnduserType, browser, device, desktop, Principal, browser_user, device_user, id_device_of,
}
use gateway_realtime.Registry.{passes}
use gateway_realtime.Session.{Session, Sessions}
use gateway_realtime.WsError.{plain_error, Outcome, ok, thrown}

pub record EventEntry : Type 0 where
  pub id : String
  pub label : String
  pub id_device : String

-- `e.id_device === user.id_device`, where the user may have none.
abbrev pub same_device : EventEntry → Principal → Bool
same_device e p = or_default (id_device_of p) "" == e.id_device && is_some (id_device_of p)

abbrev pub blacklist_send_of : Principal → List String
blacklist_send_of (device_user u) = or_default u.blacklist_send []
blacklist_send_of _ = []

abbrev pub blacklist_get_of : Principal → List String
blacklist_get_of (device_user u) = or_default u.blacklist_get []
blacklist_get_of _ = []

abbrev pub white_list_get_of : Principal → List String
white_list_get_of (browser_user u) = u.white_list_get
white_list_get_of _ = []

pub data Helper : Type 0 where
  browser_helper device_helper default_helper : Helper

unfoldable pub get_helper : EnduserType → Helper
get_helper browser = browser_helper
get_helper desktop = browser_helper
get_helper device = device_helper
get_helper _ = default_helper

abbrev browser_events : Principal → String → List EventEntry → Outcome (List EventEntry)
browser_events (browser_user u) event entries =
    ok (filter (λ m. set_contains m.id u.white_list_send && (m.label == event)) entries)
browser_events (device_user u) event [] = ok []
browser_events (device_user u) event entries =
    thrown (plain_error "Cannot read properties of undefined (reading 'includes')")

abbrev pub device_may_send : Principal → String → EventEntry → Bool
device_may_send p event e =
    not (set_contains e.id (blacklist_send_of p)) && ((e.label == event) && same_device e p)

-- `thrown` where the code reads a field that the principal does not have.
unfoldable pub filter_events :
    Helper → Principal → String → List EventEntry → Outcome (List EventEntry)
filter_events browser_helper p event entries = browser_events p event entries
filter_events device_helper p event entries = ok (filter (device_may_send p event) entries)
filter_events default_helper p event entries = ok entries

unfoldable pub receives : Helper → List EventEntry → Session → Bool
receives browser_helper allowed s =
    any (λ e. set_contains e.id (white_list_get_of s.principal)) allowed
receives device_helper allowed s =
    any (λ e. same_device e s.principal && not (set_contains e.id (blacklist_get_of s.principal)))
      allowed
receives default_helper allowed s = true

-- `ref` is the number of a session object.
unfoldable pub filter_receivers : Helper → List EventEntry → Sessions → List ℕ → List ℕ
filter_receivers h allowed sessions refs =
    filter (λ ref. passes (receives h allowed) (map_get ref sessions)) refs
