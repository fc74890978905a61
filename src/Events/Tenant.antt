-- ===== src/Events/Tenant.antt =====
-- No event reaches another tenant: events/base-ws.event.ts.
use gateway_realtime.Common.{
  nat_beq_iff, Bool-cases, Map, map_get, set_contains, filter, ◌==◌, nat_eq, string_eq, ℕ, String,
  ◌≡◌, refl, sym, ap, ◌∙◌, inl, inr, Bool, true, false, Option, none, some, List, [], ◌∷◌, arith,
  eq_iff,
}
use gateway_realtime.Events.Classes.{
  EventKind, forwards, acknowledges, scans, cancels, lists_reservations, creates_bell,
  destroys_bell, destroys_all_bells, uploads, EventClass,
}
use gateway_realtime.Events.Helpers.{
  EventEntry, get_helper, filter_events, receives, filter_receivers,
}
use gateway_realtime.Events.Receivers.{
  receivers_allowed, base_receivers, receivers_by, get_receivers,
}
use gateway_realtime.Events.State.{App, Services, still_cached, get_events_product}
use gateway_realtime.Principal.{EnduserType, browser, device, self, desktop, server, client_id_of}
use gateway_realtime.Registry.{set_of, passes, get_devices_by_tenant, get_browsers_by_tenant}
use gateway_realtime.Registry.Indexes.{contains-filter, counts, IsRegistry}
use gateway_realtime.Session.{Session, is_active, is_device, is_browser}
use gateway_realtime.SessionManager.{get_active_sockets_by_type}
use gateway_realtime.World.{World}
use gateway_realtime.WsError.{Outcome, ok, thrown}

abbrev pub of_tenant : String → Option Session → Bool
of_tenant tenant none = false
of_tenant tenant (some s) = client_id_of s.principal == tenant

counts-tenant :
    (kind : EnduserType → Bool) (tenant : String) (ref : ℕ) (registered : Map ℕ ℕ)
    (o : Option Session)
    → counts kind tenant ref registered o ≡ true
    → of_tenant tenant o ≡ true
counts-tenant kind tenant ref registered none h = absurd (cc)
counts-tenant kind tenant ref registered (some s) h = ground (arith, h)

filtered_is_there :
    (r : ℕ) (p : ℕ → Bool) (refs : List ℕ)
    → set_contains r (filter p refs) ≡ true
    → set_contains r refs ≡ true
filtered_is_there r p refs h = ground (arith, contains-filter r p refs, h)

-- The sessions that the test passes among those of an index.
index-tenant :
    (kind : EnduserType → Bool) (tenant : String) (p : ℕ → Bool) (r : ℕ) (w : World)
    (index : Map String (List ℕ))
    → set_contains r (set_of tenant index)
      ≡ counts kind tenant r w.registry.sessions (map_get r w.sessions)
    → set_contains r (filter p (set_of tenant index)) ≡ true
    → of_tenant tenant (map_get r w.sessions) ≡ true
index-tenant kind tenant p r w index v h =
    counts-tenant kind tenant r w.registry.sessions (map_get r w.sessions)
      (sym v ∙ filtered_is_there r p (set_of tenant index) h)

active-tenant :
    (ref : ℕ) (s : Session) (type : EnduserType) (w : World) (r : ℕ)
    → IsRegistry w.sessions w.registry
    → map_get ref w.sessions ≡ some s
    → set_contains r (get_active_sockets_by_type ref s type w) ≡ true
    → of_tenant (client_id_of s.principal) (map_get r w.sessions) ≡ true
unfolding get_active_sockets_by_type get_browsers_by_tenant get_devices_by_tenant set_contains
active-tenant ref s browser w r v at h =
    let tenant = client_id_of s.principal in
    index-tenant is_browser tenant (λ ref. passes (is_active w.clients) (map_get ref w.sessions)) r
      w w.registry.tenant_browsers (v.browsers tenant r) h
active-tenant ref s desktop w r v at h =
    let tenant = client_id_of s.principal in
    index-tenant is_browser tenant (λ ref. passes (is_active w.clients) (map_get ref w.sessions)) r
      w w.registry.tenant_browsers (v.browsers tenant r) h
active-tenant ref s device w r v at h =
    let tenant = client_id_of s.principal in
    index-tenant is_device tenant (λ ref. passes (is_active w.clients) (map_get ref w.sessions)) r w
      w.registry.tenant_devices (v.devices tenant r) h
active-tenant ref s self w r v at h =
    let q : ref ≡ r = ground (arith, h, nat_beq_iff ref r) in
    ap (λ k. of_tenant (client_id_of s.principal) (map_get k w.sessions)) (sym q)
    ∙ rw at (ground (arith, eq_iff (client_id_of s.principal) (client_id_of s.principal)))
active-tenant ref s server w r v at h = absurd (cc)

allowed-tenant :
    (c : EventClass) (ref : ℕ) (s : Session) (o : Outcome (List EventEntry)) (w : World)
    (receivers : List ℕ) (r : ℕ)
    → IsRegistry w.sessions w.registry
    → map_get ref w.sessions ≡ some s
    → receivers_allowed c ref s o w ≡ ok receivers
    → set_contains r receivers ≡ true
    → of_tenant (client_id_of s.principal) (map_get r w.sessions) ≡ true
unfolding receivers_allowed filter_receivers
allowed-tenant c ref s (thrown e) w receivers r v at h k = absurd (cc)
allowed-tenant c ref s (ok []) w receivers r v at h k = absurd (cc)
allowed-tenant c ref s (ok (e ∷ es)) w receivers r v at h k =
    let p =
      λ (ref : ℕ). passes (receives (get_helper c.receiver) (e ∷ es)) (map_get ref w.sessions) in
    let active = get_active_sockets_by_type ref s c.receiver w in
    let same : filter p active ≡ receivers = cc h in
    active-tenant ref s c.receiver w r v at
      (filtered_is_there r p active (ap (set_contains r) same ∙ k))

cached-world :
    (sv : Services) (ttl now : ℕ) (c : EventClass) (app : App)
    → (get_events_product sv ttl now c app).0.world ≡ app.world
unfolding get_events_product
cached-world sv ttl now c app =
    elim (Bool-cases (still_cached ttl now (map_get c.label app.caches))) [
      | inl e ↦ rw e refl
      | inr e ↦ rw e refl
    ]

base-tenant :
    (sv : Services) (ttl now : ℕ) (c : EventClass) (event : String) (ref : ℕ) (s : Session)
    (app : App) (receivers : List ℕ) (r : ℕ)
    → IsRegistry app.world.sessions app.world.registry
    → map_get ref app.world.sessions ≡ some s
    → (base_receivers sv ttl now c event ref s app).1 ≡ ok receivers
    → set_contains r receivers ≡ true
    → of_tenant (client_id_of s.principal) (map_get r app.world.sessions) ≡ true
unfolding base_receivers
base-tenant sv ttl now c event ref s app receivers r v at h k =
    let entries = (get_events_product sv ttl now c app).1 in
    let events = filter_events (get_helper s.type) s.principal event entries in
    allowed-tenant c ref s events app.world receivers r v at
      (ap (receivers_allowed c ref s events) (sym (cached-world sv ttl now c app)) ∙ h) k

by-tenant :
    (sv : Services) (ttl now : ℕ) (c : EventClass) (event : String) (ref : ℕ) (s : Session)
    (kind : EventKind) (app : App) (receivers : List ℕ) (r : ℕ)
    → IsRegistry app.world.sessions app.world.registry
    → map_get ref app.world.sessions ≡ some s
    → (receivers_by sv ttl now c event ref s kind app).1 ≡ ok receivers
    → set_contains r receivers ≡ true
    → of_tenant (client_id_of s.principal) (map_get r app.world.sessions) ≡ true
unfolding receivers_by set_contains
by-tenant sv ttl now c event ref s acknowledges app receivers r v at h k =
    let none_at_all : [] ≡ receivers = cc h in
    absurd (ground (arith, ap (set_contains r) none_at_all ∙ k))
by-tenant sv ttl now c event ref s uploads app receivers r v at h k =
    let same : get_active_sockets_by_type ref s c.receiver app.world ≡ receivers = cc h in
    active-tenant ref s c.receiver app.world r v at (ap (set_contains r) same ∙ k)
by-tenant sv ttl now c event ref s forwards app receivers r v at h k =
    base-tenant sv ttl now c event ref s app receivers r v at h k
by-tenant sv ttl now c event ref s scans app receivers r v at h k =
    base-tenant sv ttl now c event ref s app receivers r v at h k
by-tenant sv ttl now c event ref s cancels app receivers r v at h k =
    base-tenant sv ttl now c event ref s app receivers r v at h k
by-tenant sv ttl now c event ref s lists_reservations app receivers r v at h k =
    base-tenant sv ttl now c event ref s app receivers r v at h k
by-tenant sv ttl now c event ref s creates_bell app receivers r v at h k =
    base-tenant sv ttl now c event ref s app receivers r v at h k
by-tenant sv ttl now c event ref s destroys_bell app receivers r v at h k =
    base-tenant sv ttl now c event ref s app receivers r v at h k
by-tenant sv ttl now c event ref s destroys_all_bells app receivers r v at h k =
    base-tenant sv ttl now c event ref s app receivers r v at h k

-- Where the registry agrees with the sessions, every receiver of an event, of any class, is a session
-- of the sender's tenant.
pub get_receivers-tenant :
    (sv : Services) (ttl now : ℕ) (c : EventClass) (event : String) (ref : ℕ) (s : Session)
    (app : App) (receivers : List ℕ) (r : ℕ)
    → IsRegistry app.world.sessions app.world.registry
    → map_get ref app.world.sessions ≡ some s
    → (get_receivers sv ttl now c event ref s app).1 ≡ ok receivers
    → set_contains r receivers ≡ true
    → of_tenant (client_id_of s.principal) (map_get r app.world.sessions) ≡ true
unfolding get_receivers
get_receivers-tenant sv ttl now c event ref s app receivers r v at h k =
    by-tenant sv ttl now c event ref s c.kind app receivers r v at h k
