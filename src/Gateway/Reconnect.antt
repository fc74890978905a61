-- ===== src/Gateway/Reconnect.antt =====
-- What becomes of a session whose connection ends: lifesycles/base.lifesycle.ts.
use gateway_realtime.Common.{
  nat_beq_iff, map_get, map_delete, map_update, get-set, get-delete, get-update, nat_eq, string_eq,
  ℕ, ◌≡◌, refl, ap, ◌∙◌, ◌≢◌, false, Option, none, some, List, arith,
}
use gateway_realtime.Gateway.{session_of, same_client, disconnect_from, handle_disconnect}
use gateway_realtime.Gateway.Gone.{
  cleared, suspended, gone_world, Holds, disconnected, gone_world-at,
}
use gateway_realtime.Lifecycle.{
  resolve, leave, go_offline, timer_of, fire_found, suspend_timer_fired,
}
use gateway_realtime.Lifecycle.Outputs.{after_disconnect-OnlyOutputs}
use gateway_realtime.Registry.{unregister_session, unregister_found, unregister, find}
use gateway_realtime.Session.{Session}
use gateway_realtime.SessionManager.{
  take_socket, resume_session, Authenticated, establish_with, establish_session,
}
use gateway_realtime.World.{Output, World, update_session}

gone_world-stale :
    (now later client ref : ℕ) (s : Session) (outs : List Output) (w : World)
    → Holds client ref s w
    → handle_disconnect later client (gone_world now ref s outs w) ≡ gone_world now ref s outs w
unfolding handle_disconnect disconnect_from
gone_world-stale now later client ref s outs w h =
    rw (h.bound, gone_world-at now ref s outs w h.at) refl

-- The end of a connection is reported twice, by the socket and by the framework: the second report,
-- whenever it comes, changes nothing if nothing has happened in between.
pub handle_disconnect_twice :
    (now later client ref : ℕ) (s : Session) (w : World)
    → Holds client ref s w
    → handle_disconnect later client (handle_disconnect now client w)
      ≡ handle_disconnect now client w
handle_disconnect_twice now later client ref s w h =
    let (outs, e) = disconnected now client ref s w h in
    rw e (gone_world-stale now later client ref s outs w h)

same_client_ne :
    (socket : Option ℕ) (client : ℕ) → socket ≢ some client → same_client socket client ≡ false
same_client_ne none client h = refl
same_client_ne (some current) client h = ground (arith, λ (q : current ≡ client). h (ap some q))

-- The report of a client whose session has another socket by now, or none, changes nothing.
pub handle_disconnect_stale :
    (now client ref : ℕ) (s : Session) (w : World)
    → session_of (map_get client w.clients) ≡ some ref
    → map_get ref w.sessions ≡ some s
    → s.socket ≢ some client
    → handle_disconnect now client w ≡ w
unfolding handle_disconnect disconnect_from
handle_disconnect_stale now client ref s w bound at h =
    rw (bound, at, same_client_ne s.socket client h) refl

abbrev back_world : ℕ → ℕ → ℕ → ℕ → Session → List Output → World → World
back_world now later ref other s outs w =
    resume_session later ref (suspended now w.next s) other (gone_world now ref s outs w)

gone_world-back :
    (now later ref other : ℕ) (s : Session) (a : Authenticated) (outs : List Output) (w : World)
    → map_get ref w.sessions ≡ some s
    → map_get s.session_id w.registry.sessions ≡ some ref
    → a.id_enduser ≡ s.session_id
    → establish_session later a other (gone_world now ref s outs w)
      ≡ (back_world now later ref other s outs w, ref)
unfolding establish_session establish_with find
gone_world-back now later ref other s a outs w at found same =
    rw (same, found, gone_world-at now ref s outs w at) refl

back_world-fired :
    (now later ref other : ℕ) (s : Session) (outs : List Output) (w : World)
    → map_get ref w.sessions ≡ some s
    → let after = suspend_timer_fired w.next (back_world now later ref other s outs w) in
      (after.registry ≡ w.registry)
      × ((t : Session) × (map_get ref after.sessions ≡ some t)
          × (t.socket ≡ some other)
          × (t.principal ≡ s.principal))
unfolding suspend_timer_fired fire_found resume_session
back_world-fired now later ref other s outs w at =
    let taken = λ (s : Session). take_socket later other (record s { suspend_timer = none }) in
    let g = gone_world now ref s outs w in
    let gone : map_get w.next (map_delete w.next g.timers) ≡ none =
      get-delete w.next w.next g.timers ∙ ground (arith, nat_beq_iff w.next w.next) in
    let there : map_get ref (map_update ref taken g.sessions)
        ≡ some (taken (suspended now w.next s)) =
      get-update ref ref taken g.sessions
      ∙ rw (gone_world-at now ref s outs w at) (ground (arith, nat_beq_iff ref ref)) in
    rw gone (refl, (taken (suspended now w.next s), there, refl, refl))

leave-find :
    (ref : ℕ) (s : Session) (t : Session) (w : World)
    → map_get s.session_id w.registry.sessions ≡ some ref
    → map_get ref w.sessions ≡ some t
    → find s.session_id (leave ref s w).registry ≡ none
unfolding find unregister unregister_found unregister_session
leave-find ref s t w found at =
    let w1 = record w { registry = unregister s.session_id w.sessions w.registry } in
    let told = after_disconnect-OnlyOutputs (resolve s.type) s w1 in
    ap (λ v. map_get s.session_id v.registry.sessions) told
    ∙ rw (found, at)
        (get-delete s.session_id s.session_id w.registry.sessions
          ∙ ground (arith, nat_beq_iff s.session_id s.session_id))

gone_world-fired :
    (now ref : ℕ) (s : Session) (outs : List Output) (w : World)
    → map_get ref w.sessions ≡ some s
    → map_get s.session_id w.registry.sessions ≡ some ref
    → find s.session_id (suspend_timer_fired w.next (gone_world now ref s outs w)).registry ≡ none
unfolding suspend_timer_fired fire_found timer_of
gone_world-fired now ref s outs w at found =
    let g = gone_world now ref s outs w in
    let gone = suspended now w.next s in
    let armed : map_get w.next g.timers ≡ some ref =
      get-set w.next w.next ref (cleared s.suspend_timer w.timers)
      ∙ ground (arith, nat_beq_iff w.next w.next) in
    let there : map_get ref (map_update ref go_offline g.sessions) ≡ some (go_offline gone) =
      get-update ref ref go_offline g.sessions
      ∙ rw (gone_world-at now ref s outs w at) (ground (arith, nat_beq_iff ref ref)) in
    rw (armed, gone_world-at now ref s outs w at)
      (leave-find ref (go_offline gone) (go_offline gone)
        (update_session ref go_offline (record g { timers = map_delete w.next g.timers })) found
        there)

-- A session whose user comes back before its suspend timer fires stays: it is the session that the
-- new client gets, still registered, with the new client as its socket, and the timer, should it
-- fire all the same, changes neither it nor the registry.
pub reconnect_in_time :
    (now later client ref other : ℕ) (s : Session) (a : Authenticated) (w : World)
    → Holds client ref s w
    → map_get s.session_id w.registry.sessions ≡ some ref
    → a.id_enduser ≡ s.session_id
    → let back = establish_session later a other (handle_disconnect now client w) in
      let after = suspend_timer_fired w.next back.0 in
      (back.1 ≡ ref)
      × (after.registry ≡ w.registry)
      × ((t : Session) × (map_get ref after.sessions ≡ some t)
          × (t.socket ≡ some other)
          × (t.principal ≡ s.principal))
reconnect_in_time now later client ref other s a w h found same =
    let (outs, e) = disconnected now client ref s w h in
    let (registry, session) = back_world-fired now later ref other s outs w h.at in
    rw (e, gone_world-back now later ref other s a outs w h.at found same) (refl, registry, session)

-- If nothing happens before its suspend timer fires, the session is no longer registered.
pub timer_unregisters :
    (now client ref : ℕ) (s : Session) (w : World)
    → Holds client ref s w
    → map_get s.session_id w.registry.sessions ≡ some ref
    → find s.session_id (suspend_timer_fired w.next (handle_disconnect now client w)).registry
      ≡ none
timer_unregisters now client ref s w h found =
    let (outs, e) = disconnected now client ref s w h in
    rw e (gone_world-fired now ref s outs w h.at found)
