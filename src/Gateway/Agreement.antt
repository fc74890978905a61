-- ===== src/Gateway/Agreement.antt =====
-- In every history of the gateway, the registry and its indexes agree with the sessions.
use gateway_realtime.Common.{
  Bool-cases, map_get, set_contains, string_eq, nat_eq, ℕ, String, ◌≡◌, refl, ap, ◌∙◌, inl, inr,
  Bool, ◌&&◌, Option, none, some, arith,
}
use gateway_realtime.EventStore.State.{get_all_user_ids}
use gateway_realtime.Gateway.{
  error_message, handle_error, close_code, close_reason, reject, fresh_client, ready_message,
  accept, guard_error, authenticate_client, handle_connection, session_of, same_client,
  disconnect_from, handle_disconnect, on_pong,
}
use gateway_realtime.Gateway.Connected.{
  on_connect-Quiet, on_disconnect-WorldOk, suspend_timer_fired-WorldOk,
}
use gateway_realtime.Gateway.History.{
  Settings, GatewayStep, opens, moves, connects, disconnects, timer_fires, pongs, beats, retries,
  stores, empty_world, GatewayReach, boots, then_step, beat_each-Quiet, retry_users-Quiet,
  emit_notices-Quiet,
}
use gateway_realtime.Gateway.Quiet.{Quiet, Quiet-trans, Quiet-of}
use gateway_realtime.Gateway.Registered.{
  WorldOk, Quiet-WorldOk, output-Quiet, update_client-Quiet, establish_session-WorldOk,
}
use gateway_realtime.Heartbeat.{heartbeat, ponged}
use gateway_realtime.Lifecycle.{on_connect}
use gateway_realtime.Lifecycle.Snapshot.{DeviceSource}
use gateway_realtime.Principal.{EnduserType}
use gateway_realtime.RateLimit.Guard.{GuardResult, passed, too_many, no_extractor, invalid_rule}
use gateway_realtime.Registry.{
  empty_registry, set_of, find, passes, get_devices_by_tenant, get_browsers_by_tenant,
}
use gateway_realtime.Registry.Indexes.{contains-filter, counts}
use gateway_realtime.Retry.{retry_pending_events}
use gateway_realtime.Session.{Session, is_open, is_device, is_browser}
use gateway_realtime.SessionManager.{Authenticated, establish_session, get_active_sockets}
use gateway_realtime.World.{sent, closed, World, output, update_client, socket_of}
use gateway_realtime.WsError.{Thrown, normalize_ws_error, Outcome, ok, thrown}

reject-Quiet : (err : Thrown) (client : ℕ) (w : World) → Quiet w (reject err client w)
unfolding reject handle_error
reject-Quiet err client w =
    let e = normalize_ws_error err in
    let last = closed client (close_code e.code) (close_reason e.message) in
    elim (Bool-cases (is_open w.clients (some client))) [
      | inl o ↦ rw o (
          Quiet-trans w (output (sent client (error_message e)) w) _
            (output-Quiet (sent client (error_message e)) w)
            (output-Quiet last (output (sent client (error_message e)) w)))
      | inr o ↦ rw o (output-Quiet last w)
    ]

accept-WorldOk :
    (devices : DeviceSource) (now : ℕ) (a : Authenticated) (client : ℕ) (w : World)
    → WorldOk w
    → WorldOk (accept devices now a client w)
unfolding accept
accept-WorldOk devices now a client w v =
    let (w1, ref) = establish_session now a client w in
    let w2 = on_connect devices now ref w1 in
    Quiet-WorldOk w1 _
      (Quiet-trans w1 w2 _ (on_connect-Quiet devices now ref w1)
        (output-Quiet (sent client ready_message) w2))
      (establish_session-WorldOk now a client w v)

authenticate-WorldOk :
    (devices : DeviceSource) (now : ℕ) (auth : Outcome Authenticated) (client : ℕ) (w : World)
    → WorldOk w
    → WorldOk (authenticate_client devices now auth client w)
unfolding authenticate_client
authenticate-WorldOk devices now (ok a) client w v = accept-WorldOk devices now a client w v
authenticate-WorldOk devices now (thrown err) client w v =
    Quiet-WorldOk w _ (reject-Quiet err client w) v

handle_connection-WorldOk :
    (devices : DeviceSource) (now : ℕ) (limited : GuardResult) (auth : Outcome Authenticated)
    (client : ℕ) (w : World)
    → WorldOk w
    → WorldOk (handle_connection devices now limited auth client w)
unfolding handle_connection
handle_connection-WorldOk devices now passed auth client w v =
    authenticate-WorldOk devices now auth client (update_client client fresh_client w)
      (Quiet-WorldOk w _ (update_client-Quiet client fresh_client w) v)
handle_connection-WorldOk devices now (too_many seconds) auth client w v =
    Quiet-WorldOk w _ (reject-Quiet (guard_error (too_many seconds)) client w) v
handle_connection-WorldOk devices now no_extractor auth client w v =
    Quiet-WorldOk w _ (reject-Quiet (guard_error no_extractor) client w) v
handle_connection-WorldOk devices now invalid_rule auth client w v =
    Quiet-WorldOk w _ (reject-Quiet (guard_error invalid_rule) client w) v

disconnect_from-WorldOk :
    (now client : ℕ) (o : Option ℕ) (w : World)
    → WorldOk w
    → WorldOk (disconnect_from now client o w)
unfolding disconnect_from
disconnect_from-WorldOk now client none w v = v
disconnect_from-WorldOk now client (some ref) w v =
    elim (Bool-cases (same_client (socket_of (map_get ref w.sessions)) client)) [
      | inl e ↦ rw e (on_disconnect-WorldOk now ref w v)
      | inr e ↦ rw e v
    ]

GatewayStep-WorldOk :
    {env : Settings} {w w' : World} → GatewayStep env w w' → WorldOk w → WorldOk w'
GatewayStep-WorldOk {w = w} (opens client c) v =
    Quiet-WorldOk w _ (Quiet-of w _ refl refl (omega arith)) v
GatewayStep-WorldOk {w = w} (moves client ready_state) v =
    Quiet-WorldOk w _ (Quiet-of w _ refl refl (omega arith)) v
GatewayStep-WorldOk {env} {w = w} (connects now limited auth client) v =
    handle_connection-WorldOk env.devices now limited auth client w v
GatewayStep-WorldOk {w = w} (disconnects now client) v =
    unfold handle_disconnect in
    disconnect_from-WorldOk now client (session_of (map_get client w.clients)) w v
GatewayStep-WorldOk {w = w} (timer_fires timer) v = suspend_timer_fired-WorldOk timer w v
GatewayStep-WorldOk {w = w} (pongs client) v =
    unfold on_pong in Quiet-WorldOk w _ (update_client-Quiet client ponged w) v
GatewayStep-WorldOk {env} {w = w} beats v =
    unfold heartbeat in
    Quiet-WorldOk w _ (beat_each-Quiet env.max_missed (get_active_sockets w) w) v
GatewayStep-WorldOk {env} {w = w} (retries draws now) v =
    unfold retry_pending_events in
    Quiet-WorldOk w _ (retry_users-Quiet env.store_config draws now (get_all_user_ids w.store) w) v
GatewayStep-WorldOk {w = w} (stores st step) v = Quiet-WorldOk w _ (emit_notices-Quiet st w) v

empty_world-WorldOk : (now : ℕ) → WorldOk (empty_world now)
unfolding empty_world empty_registry map_get set_contains
empty_world-WorldOk now = record {
  registered = record {
    named = λ id ref h. absurd (cc);
    devices = λ tenant ref. refl;
    browsers = λ tenant ref. refl;
  };
  fresh = λ ref h. refl;
}

pub GatewayReach-WorldOk : {env : Settings} {w : World} → GatewayReach env w → WorldOk w
GatewayReach-WorldOk (boots now) = empty_world-WorldOk now
GatewayReach-WorldOk (then_step r s) = GatewayStep-WorldOk s (GatewayReach-WorldOk r)

-- Whether a session is one of a tenant's of a kind, passes the filter and is registered under its
-- id.
abbrev pub belongs : (EnduserType → Bool) → String → (Session → Bool) → ℕ → World → Bool
belongs kind tenant p ref w =
    passes p (map_get ref w.sessions)
    && counts kind tenant ref w.registry.sessions (map_get ref w.sessions)

-- After any history, `getDevicesByTenant` gives exactly the registered sessions of the tenant's
-- devices that pass the filter, `getBrowsersByTenant` those of its browsers and desktops, and the
-- session that is registered under an id has that id.
pub GatewayReach-exact :
    {env : Settings} {w : World} (tenant : String) (p : Session → Bool) (ref : ℕ)
    → GatewayReach env w
    → (set_contains ref (get_devices_by_tenant tenant p w.sessions w.registry)
        ≡ belongs is_device tenant p ref w)
      × (set_contains ref (get_browsers_by_tenant tenant p w.sessions w.registry)
          ≡ belongs is_browser tenant p ref w)
      × ((id : ℕ)
          → find id w.registry ≡ some ref
          → (s : Session) × (map_get ref w.sessions ≡ some s) × (s.session_id ≡ id))
unfolding get_devices_by_tenant get_browsers_by_tenant find
GatewayReach-exact {w = w} tenant p ref reach =
    let v = (GatewayReach-WorldOk reach).registered in
    let test = λ (r : ℕ). passes p (map_get r w.sessions) in
    (
      contains-filter ref test (set_of tenant w.registry.tenant_devices)
          ∙ ap (λ b. test ref && b) (v.devices tenant ref),
      contains-filter ref test (set_of tenant w.registry.tenant_browsers)
          ∙ ap (λ b. test ref && b) (v.browsers tenant ref),
      λ id h. v.named id ref h,
    )
