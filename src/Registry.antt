-- ===== src/Registry.antt =====
-- services/websocket-registry.service.ts. The map and the two indexes hold session objects by their
-- numbers; `sessions` says what these objects are.
pub mod Indexes
pub mod Unregister
use gateway_realtime.Common.{
  nat_beq, if◌then◌else◌, or_default, Map, map_get, map_set, map_delete, map_values, set_add,
  set_delete, filter, nat_eq, string_eq, ℕ, String, Bool, false, Option, none, some, List, [], ◌∷◌,
}
use gateway_realtime.Principal.{client_id_of}
use gateway_realtime.Session.{Session, Sessions, is_device, is_browser}

pub record Registry : Type 0 where
  pub sessions : Map ℕ ℕ
  pub tenant_devices : Map String (List ℕ)
  pub tenant_browsers : Map String (List ℕ)

unfoldable pub empty_registry : Registry
empty_registry = record { sessions = []; tenant_devices = []; tenant_browsers = [] }

-- The sessions that an index has for a tenant, none if the tenant is missing.
abbrev pub set_of : String → Map String (List ℕ) → List ℕ
set_of tenant index = or_default (map_get tenant index) []

abbrev pub add_to : String → ℕ → Map String (List ℕ) → Map String (List ℕ)
add_to tenant ref index = map_set tenant (set_add ref (set_of tenant index)) index

-- A tenant whose set becomes empty leaves the index.
abbrev pub put_set : String → List ℕ → Map String (List ℕ) → Map String (List ℕ)
put_set tenant [] index = map_delete tenant index
put_set tenant (x ∷ xs) index = map_set tenant (x ∷ xs) index

abbrev pub drop_from_found :
    String → ℕ → Option (List ℕ) → Map String (List ℕ) → Map String (List ℕ)
drop_from_found tenant ref none index = index
drop_from_found tenant ref (some refs) index = put_set tenant (set_delete ref refs) index

abbrev pub drop_from : String → ℕ → Map String (List ℕ) → Map String (List ℕ)
drop_from tenant ref index = drop_from_found tenant ref (map_get tenant index) index

unfoldable pub register : ℕ → Session → Registry → Registry
register ref s reg =
    let tenant = client_id_of s.principal in
    record {
      sessions = map_set s.session_id ref reg.sessions;
      tenant_devices =
          if is_device s.type then add_to tenant ref reg.tenant_devices else reg.tenant_devices;
      tenant_browsers =
          if is_browser s.type then add_to tenant ref reg.tenant_browsers else reg.tenant_browsers;
    }

unfoldable pub unregister_session : ℕ → ℕ → Option Session → Registry → Registry
unregister_session session_id ref none reg = reg
unregister_session session_id ref (some s) reg =
    let tenant = client_id_of s.principal in
    record {
      sessions = map_delete session_id reg.sessions;
      tenant_devices =
          if is_device s.type then drop_from tenant ref reg.tenant_devices else reg.tenant_devices;
      tenant_browsers =
          if is_browser s.type
          then drop_from tenant ref reg.tenant_browsers
          else reg.tenant_browsers;
    }

unfoldable pub unregister_found : ℕ → Sessions → Option ℕ → Registry → Registry
unfolding unregister_session
unregister_found session_id sessions none reg = reg
unregister_found session_id sessions (some ref) reg =
    unregister_session session_id ref (map_get ref sessions) reg

unfoldable pub unregister : ℕ → Sessions → Registry → Registry
unfolding unregister_found
unregister session_id sessions reg =
    unregister_found session_id sessions (map_get session_id reg.sessions) reg

unfoldable pub find : ℕ → Registry → Option ℕ
find session_id reg = map_get session_id reg.sessions

unfoldable pub get_all_sessions : Registry → List ℕ
get_all_sessions reg = map_values reg.sessions

abbrev pub passes : (Session → Bool) → Option Session → Bool
passes p none = false
passes p (some s) = p s

-- `Array.from(set).filter(filter)`; without a filter it is the test that always holds.
unfoldable pub get_devices_by_tenant : String → (Session → Bool) → Sessions → Registry → List ℕ
get_devices_by_tenant tenant p sessions reg =
    filter (λ ref. passes p (map_get ref sessions)) (set_of tenant reg.tenant_devices)

unfoldable pub get_browsers_by_tenant : String → (Session → Bool) → Sessions → Registry → List ℕ
get_browsers_by_tenant tenant p sessions reg =
    filter (λ ref. passes p (map_get ref sessions)) (set_of tenant reg.tenant_browsers)

abbrev pub same_ref : Option ℕ → ℕ → Bool
same_ref none ref = false
same_ref (some found) ref = nat_beq found ref
