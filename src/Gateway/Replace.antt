-- ===== src/Gateway/Replace.antt =====
-- What becomes of the old client when a user connects again: `replaceSession` of
-- services/websocket-sesi-manager.service.ts.
use gateway_realtime.Common.{
  nat_beq_iff, Bool-cases, map_get, map_update, get-update, string_eq, nat_eq, ℕ, ◌≡◌, refl, sym,
  ap, ◌∙◌, ◌≢◌, inl, inr, false, not, none, some, arith,
}
use gateway_realtime.Gateway.{session_of, handle_disconnect}
use gateway_realtime.Gateway.Gone.{clear_timer-cleared, Holds}
use gateway_realtime.Gateway.Reconnect.{handle_disconnect_stale}
use gateway_realtime.Registry.{find}
use gateway_realtime.Session.{ConnectionState, replace, Session, is_open, is_browser}
use gateway_realtime.SessionManager.{
  bind_client, take_socket, drop_old_socket, replace_session, Authenticated, is_suspended,
  establish_with, establish_session,
}
use gateway_realtime.World.{World, output, update_session, socket_of}

-- The clients stay as they are, and the session object stays.
dropped :
    (ref : ℕ) (s : Session) (w : World)
    → map_get ref w.sessions ≡ some s
    → ((drop_old_socket ref s w).clients ≡ w.clients)
      × ((t : Session) × (map_get ref (drop_old_socket ref s w).sessions ≡ some t))
unfolding drop_old_socket output
dropped ref s w at = elim (Bool-cases (is_open w.clients s.socket)) [
  | inl e ↦
      let replaced = λ (s : Session). record s { state = replace; suspend_timer = none } in
      let v = update_session ref replaced w in
      let shape = clear_timer-cleared s.suspend_timer v in
      let there : map_get ref (map_update ref replaced w.sessions) ≡ some (replaced s) =
        get-update ref ref replaced w.sessions ∙ rw at (ground (arith, nat_beq_iff ref ref)) in
      rw e (
        ap {A = World} (λ x. x.clients) shape,
        (replaced s, ap {A = World} (λ x. map_get ref x.sessions) shape ∙ there),
      )
  | inr e ↦ rw e (refl, (s, at))
]

establish_online :
    (now ref : ℕ) (s : Session) (a : Authenticated) (other : ℕ) (w : World)
    → map_get ref w.sessions ≡ some s
    → s.state ≡ ConnectionState.online
    → map_get s.session_id w.registry.sessions ≡ some ref
    → a.id_enduser ≡ s.session_id
    → establish_session now a other w ≡ (replace_session now ref s other w, ref)
unfolding establish_session establish_with find
establish_online now ref s a other w at o found same =
    let awake : is_suspended s.state ≡ false = rw o refl in rw (same, found, at, awake) refl

replaced_stale :
    (now later client ref other : ℕ) (s : Session) (w : World)
    → Holds client ref s w
    → client ≢ other
    → let taken = replace_session now ref s other w in
      (socket_of (map_get ref taken.sessions) ≡ some other)
      × (handle_disconnect later client taken ≡ taken)
unfolding replace_session
replaced_stale now later client ref other s w h d =
    let (clients, (t, there)) = dropped ref s w h.at in
    let w1 = drop_old_socket ref s w in
    let taken = replace_session now ref s other w in
    let at : map_get ref taken.sessions ≡ some (take_socket now other t) =
      get-update ref ref (take_socket now other) w1.sessions
      ∙ rw there (ground (arith, nat_beq_iff ref ref)) in
    let bind = bind_client ref (some (not (is_browser s.type))) in
    let untouched : map_get client taken.clients ≡ map_get client w.clients =
      get-update client other bind w1.clients
      ∙ ground (arith, nat_beq_iff other client, d, ap (map_get client) clients) in
    (
      ap socket_of at,
      handle_disconnect_stale later client ref (take_socket now other t) taken
          (ap session_of untouched ∙ h.bound) at (λ q. d (sym (cc q))),
    )

-- A user who connects again while the session is online takes it over: the session is the same one,
-- with the new client as its socket, and the end of the old client's connection, when it is reported
-- afterwards, changes nothing.
pub replaced_client_ignored :
    (now later client ref other : ℕ) (s : Session) (a : Authenticated) (w : World)
    → Holds client ref s w
    → map_get s.session_id w.registry.sessions ≡ some ref
    → a.id_enduser ≡ s.session_id
    → client ≢ other
    → let taken = establish_session now a other w in
      (taken.1 ≡ ref)
      × (socket_of (map_get ref taken.0.sessions) ≡ some other)
      × (handle_disconnect later client taken.0 ≡ taken.0)
replaced_client_ignored now later client ref other s a w h found same d =
    let (socket, ignored) = replaced_stale now later client ref other s w h d in
    rw (establish_online now ref s a other w h.at h.online found same) (refl, socket, ignored)
