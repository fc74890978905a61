-- ===== src/Gateway/Connected.antt =====
-- The handlers of the gateway keep the registry in agreement with the session objects.
use gateway_realtime.Common.{
  Bool-cases, map_get, map_delete, nat_eq, string_eq, ℕ, refl, inl, inr, Option, none, some, arith,
}
use gateway_realtime.Gateway.Quiet.{
  Quiet, Quiet-refl, Quiet-trans, Quiet-of, OnlyOutputs-Quiet, OnlyDeliveries-Quiet,
  SameSessions-update, update_session-Quiet, clear_timer-Quiet,
}
use gateway_realtime.Gateway.Registered.{WorldOk, Quiet-WorldOk}
use gateway_realtime.Lifecycle.{
  Lifecycle, device_lifecycle, browser_lifecycle, default_lifecycle, resolve,
  deliver_pending_events, resumes, client_at, go_online, connect_session, connect_as, connect_found,
  on_connect, go_suspend, on_suspend, arm, leave, disconnect_in, seen, disconnect_as,
  disconnect_found, on_disconnect, go_offline, timer_of, fire_found, suspend_timer_fired,
}
use gateway_realtime.Lifecycle.Outputs.{
  after_suspend-OnlyOutputs, after_disconnect-OnlyOutputs, after_resume-OnlyOutputs,
  after_connect-OnlyOutputs, deliver_pending-OnlyDeliveries,
}
use gateway_realtime.Lifecycle.Snapshot.{DeviceSource}
use gateway_realtime.Registry.{unregister}
use gateway_realtime.Registry.Unregister.{unregister-IsRegistry}
use gateway_realtime.Session.{
  ConnectionState, connecting, online, suspend, replace, offline, Session,
}
use gateway_realtime.SessionManager.{is_suspended}
use gateway_realtime.World.{World, update_session, clear_timer}

connect_session-Quiet :
    (devices : DeviceSource) (now ref : ℕ) (s : Session) (w : World)
    → Quiet w (connect_session devices now ref s w)
unfolding connect_session
connect_session-Quiet devices now ref s w =
    let s' = go_online now s in
    let w1 = update_session ref (go_online now) w in
    let w2 = deliver_pending_events now s' w1 in
    let before : Quiet w w2 =
      Quiet-trans w w1 w2 (update_session-Quiet ref (go_online now) w (λ s. (refl, refl, refl)))
        (OnlyDeliveries-Quiet w1 w2 (deliver_pending-OnlyDeliveries now s' w1)) in
    elim (Bool-cases (resumes (client_at s'.socket w2.clients))) [
      | inl e ↦ rw e (
          Quiet-trans w w2 _ before
            (OnlyOutputs-Quiet w2 _ (after_resume-OnlyOutputs (resolve s.type) s' w2)))
      | inr e ↦ rw e (
          Quiet-trans w w2 _ before
            (OnlyOutputs-Quiet w2 _ (after_connect-OnlyOutputs devices (resolve s.type) ref s' w2)))
    ]

connect_as-Quiet :
    (devices : DeviceSource) (now ref : ℕ) (s : Session) (l : Lifecycle) (w : World)
    → Quiet w (connect_as devices now ref s l w)
unfolding connect_as
connect_as-Quiet devices now ref s device_lifecycle w = connect_session-Quiet devices now ref s w
connect_as-Quiet devices now ref s browser_lifecycle w = connect_session-Quiet devices now ref s w
connect_as-Quiet devices now ref s default_lifecycle w = Quiet-refl w

connect_found-Quiet :
    (devices : DeviceSource) (now ref : ℕ) (o : Option Session) (w : World)
    → Quiet w (connect_found devices now ref o w)
unfolding connect_found
connect_found-Quiet devices now ref none w = Quiet-refl w
connect_found-Quiet devices now ref (some s) w =
    connect_as-Quiet devices now ref s (resolve s.type) w

pub on_connect-Quiet :
    (devices : DeviceSource) (now ref : ℕ) (w : World) → Quiet w (on_connect devices now ref w)
unfolding on_connect
on_connect-Quiet devices now ref w = connect_found-Quiet devices now ref (map_get ref w.sessions) w

pub on_suspend-Quiet : (ref : ℕ) (s : Session) (w : World) → Quiet w (on_suspend ref s w)
unfolding on_suspend
on_suspend-Quiet ref s w =
    let w1 = update_session ref go_suspend w in
    let w2 = clear_timer s.suspend_timer w1 in
    Quiet-trans w w1 _ (update_session-Quiet ref go_suspend w (λ s. (refl, refl, refl))) (
      Quiet-trans w1 w2 _ (clear_timer-Quiet s.suspend_timer w1)
        (OnlyOutputs-Quiet w2 _ (after_suspend-OnlyOutputs (resolve s.type) (go_suspend s) w2)))

arm-Quiet : (ref : ℕ) (w : World) → Quiet w (arm ref w)
arm-Quiet ref w = record {
  same =
      SameSessions-update ref (λ s. record s { suspend_timer = some w.next }) w.sessions
        (λ s. (refl, refl, refl));
  registry = refl;
  next = omega arith;
}

leave-WorldOk : (ref : ℕ) (s : Session) (w : World) → WorldOk w → WorldOk (leave ref s w)
leave-WorldOk ref s w v =
    let w1 = record w { registry = unregister s.session_id w.sessions w.registry } in
    let v1 : WorldOk w1 = record {
      registered = unregister-IsRegistry s.session_id w.sessions w.registry v.registered;
      fresh = v.fresh;
    } in
    Quiet-WorldOk w1 _ (OnlyOutputs-Quiet w1 _ (after_disconnect-OnlyOutputs (resolve s.type) s w1))
      v1

suspended-WorldOk :
    (ref : ℕ) (s : Session) (w : World) → WorldOk w → WorldOk (arm ref (on_suspend ref s w))
suspended-WorldOk ref s w v =
    let w1 = on_suspend ref s w in
    Quiet-WorldOk w _ (Quiet-trans w w1 _ (on_suspend-Quiet ref s w) (arm-Quiet ref w1)) v

disconnect_in-WorldOk :
    (state : ConnectionState) (ref : ℕ) (s : Session) (w : World)
    → WorldOk w
    → WorldOk (disconnect_in state ref s w)
unfolding disconnect_in
disconnect_in-WorldOk replace ref s w v = v
disconnect_in-WorldOk offline ref s w v = leave-WorldOk ref s w v
disconnect_in-WorldOk connecting ref s w v = suspended-WorldOk ref s w v
disconnect_in-WorldOk online ref s w v = suspended-WorldOk ref s w v
disconnect_in-WorldOk suspend ref s w v = suspended-WorldOk ref s w v

disconnect_as-WorldOk :
    (now ref : ℕ) (s : Session) (l : Lifecycle) (w : World)
    → WorldOk w
    → WorldOk (disconnect_as now ref s l w)
unfolding disconnect_as
disconnect_as-WorldOk now ref s default_lifecycle w v = v
disconnect_as-WorldOk now ref s device_lifecycle w v =
    disconnect_in-WorldOk s.state ref (seen now s) (update_session ref (seen now) w)
      (Quiet-WorldOk w _ (update_session-Quiet ref (seen now) w (λ s. (refl, refl, refl))) v)
disconnect_as-WorldOk now ref s browser_lifecycle w v =
    disconnect_in-WorldOk s.state ref (seen now s) (update_session ref (seen now) w)
      (Quiet-WorldOk w _ (update_session-Quiet ref (seen now) w (λ s. (refl, refl, refl))) v)

disconnect_found-WorldOk :
    (now ref : ℕ) (o : Option Session) (w : World)
    → WorldOk w
    → WorldOk (disconnect_found now ref o w)
unfolding disconnect_found
disconnect_found-WorldOk now ref none w v = v
disconnect_found-WorldOk now ref (some s) w v = disconnect_as-WorldOk now ref s (resolve s.type) w v

pub on_disconnect-WorldOk :
    (now ref : ℕ) (w : World) → WorldOk w → WorldOk (on_disconnect now ref w)
unfolding on_disconnect
on_disconnect-WorldOk now ref w v = disconnect_found-WorldOk now ref (map_get ref w.sessions) w v

timer_of-WorldOk :
    (ref : ℕ) (o : Option Session) (w : World) → WorldOk w → WorldOk (timer_of ref o w)
unfolding timer_of
timer_of-WorldOk ref none w v = v
timer_of-WorldOk ref (some s) w v = elim (Bool-cases (is_suspended s.state)) [
  | inl e ↦
      let w1 = update_session ref go_offline w in
      rw e (
        leave-WorldOk ref (go_offline s) w1
          (Quiet-WorldOk w w1 (update_session-Quiet ref go_offline w (λ s. (refl, refl, refl))) v))
  | inr e ↦ rw e v
]

fire_found-WorldOk : (o : Option ℕ) (w : World) → WorldOk w → WorldOk (fire_found o w)
unfolding fire_found
fire_found-WorldOk none w v = v
fire_found-WorldOk (some ref) w v = timer_of-WorldOk ref (map_get ref w.sessions) w v

pub suspend_timer_fired-WorldOk :
    (timer : ℕ) (w : World) → WorldOk w → WorldOk (suspend_timer_fired timer w)
unfolding suspend_timer_fired
suspend_timer_fired-WorldOk timer w v =
    let w1 = record w { timers = map_delete timer w.timers } in
    fire_found-WorldOk (map_get timer w.timers) w1
      (Quiet-WorldOk w w1 (Quiet-of w w1 refl refl (omega arith)) v)
