-- ===== src/Gateway/Gone.antt =====
-- The world after the connection of an online session has ended: lifesycles/base.lifesycle.ts.
use gateway_realtime.Common.{
  nat_beq, nat_beq_iff, Map, map_get, map_set, map_delete, map_update, get-update, string_eq,
  nat_eq, ℕ, ◌+◌, ◌≡◌, refl, ap, ◌∙◌, Bool, true, ◌||◌, Option, none, some, List, arith,
}
use gateway_realtime.Gateway.{session_of, same_client, disconnect_from, handle_disconnect}
use gateway_realtime.Lifecycle.{
  resolve, after_suspend, go_suspend, on_suspend, arm, disconnect_in, seen, disconnect_as,
  disconnect_found, on_disconnect,
}
use gateway_realtime.Lifecycle.Outputs.{after_suspend-OnlyOutputs}
use gateway_realtime.Principal.{EnduserType, browser, device, self, desktop, server}
use gateway_realtime.Session.{ConnectionState, suspend, Session, is_device, is_browser}
use gateway_realtime.World.{Output, World, update_session, clear_timer}

abbrev pub cleared : Option ℕ → Map ℕ ℕ → Map ℕ ℕ
cleared none timers = timers
cleared (some timer) timers = map_delete timer timers

pub clear_timer-cleared :
    (timer : Option ℕ) (w : World)
    → clear_timer timer w ≡ record w { timers = cleared timer w.timers }
clear_timer-cleared none w = refl
clear_timer-cleared (some timer) w = refl

abbrev pub suspended : ℕ → ℕ → Session → Session
suspended now timer s = record s {
  state = suspend;
  socket = none;
  last_seen = now;
  suspend_timer = some timer;
}

-- The world after the end of a connection, but for what has been sent.
abbrev pub gone_world : ℕ → ℕ → Session → List Output → World → World
gone_world now ref s outs w = record w {
  timers = map_set w.next ref (cleared s.suspend_timer w.timers);
  sessions =
      map_update ref (λ s. record s { suspend_timer = some w.next })
        (map_update ref go_suspend (map_update ref (seen now) w.sessions));
  next = w.next + 1;
  outputs = outs;
}

suspend_and_arm :
    (now ref : ℕ) (s : Session) (w : World)
    → (outs : List Output) × (arm ref
          (on_suspend ref (seen now s) (update_session ref (seen now) w))
        ≡ gone_world now ref s outs w)
unfolding on_suspend
suspend_and_arm now ref s w =
    let w0 = update_session ref (seen now) w in
    let w1 = update_session ref go_suspend w0 in
    let w2 = clear_timer s.suspend_timer w1 in
    let w3 = after_suspend (resolve s.type) (go_suspend (seen now s)) w2 in
    let told = after_suspend-OnlyOutputs (resolve s.type) (go_suspend (seen now s)) w2 in
    (
      w3.outputs,
      ap {A = World} (arm ref) told
          ∙ ap {A = World} (λ v. arm ref (record v { outputs = w3.outputs }))
              (clear_timer-cleared s.suspend_timer w1),
    )

abbrev pub has_lifecycle : EnduserType → Bool
has_lifecycle type = is_device type || is_browser type

disconnect_as-gone :
    (now ref : ℕ) (s : Session) (type : EnduserType) (w : World)
    → has_lifecycle type ≡ true
    → disconnect_as now ref s (resolve type) w
      ≡ disconnect_in s.state ref (seen now s) (update_session ref (seen now) w)
unfolding disconnect_as resolve
disconnect_as-gone now ref s browser w h = refl
disconnect_as-gone now ref s device w h = refl
disconnect_as-gone now ref s desktop w h = refl
disconnect_as-gone now ref s self w h = absurd (cc)
disconnect_as-gone now ref s server w h = absurd (cc)

-- A client that holds the socket of an online session.
pub record Holds (client ref : ℕ) (s : Session) (w : World) : Type 0 where
  pub bound : session_of (map_get client w.clients) ≡ some ref
  pub at : map_get ref w.sessions ≡ some s
  pub socket : s.socket ≡ some client
  pub online : s.state ≡ ConnectionState.online
  pub has_lifecycle : has_lifecycle s.type ≡ true

disconnect_in-online :
    (state : ConnectionState) (ref : ℕ) (s : Session) (w : World)
    → state ≡ ConnectionState.online
    → disconnect_in state ref s w ≡ arm ref (on_suspend ref s w)
unfolding disconnect_in
disconnect_in-online state ref s w e = rw e refl

pub disconnected :
    (now client ref : ℕ) (s : Session) (w : World)
    → Holds client ref s w
    → (outs : List Output) × (handle_disconnect now client w ≡ gone_world now ref s outs w)
unfolding handle_disconnect disconnect_from on_disconnect disconnect_found
disconnected now client ref s w h =
    let (outs, e) = suspend_and_arm now ref s w in
    let mine : same_client s.socket client ≡ true =
      rw h.socket (ground (arith, nat_beq_iff client client)) in
    (
      outs,
      rw (h.bound, h.at, mine)
          (disconnect_as-gone now ref s s.type w h.has_lifecycle
            ∙ disconnect_in-online s.state ref (seen now s) (update_session ref (seen now) w)
                h.online
            ∙ e),
    )

pub gone_world-at :
    (now ref : ℕ) (s : Session) (outs : List Output) (w : World)
    → map_get ref w.sessions ≡ some s
    → map_get ref (gone_world now ref s outs w).sessions ≡ some (suspended now w.next s)
gone_world-at now ref s outs w at =
    let here : nat_beq ref ref ≡ true = ground (arith, nat_beq_iff ref ref) in
    rw
      (
        get-update ref ref (λ s. record s { suspend_timer = some w.next })
            (map_update ref go_suspend (map_update ref (seen now) w.sessions)),
        get-update ref ref go_suspend (map_update ref (seen now) w.sessions),
        get-update ref ref (seen now) w.sessions,
        here,
        at,
      )
      refl
