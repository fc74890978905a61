-- ===== src/Lifecycle/Outputs.antt =====
-- What the lifecycles leave alone: telling the browsers of a tenant changes only what has been sent.
use gateway_realtime.Common.{
  Bool-cases, map_get, nat_eq, string_eq, ℕ, ◌≡◌, refl, ap, ◌∙◌, inl, inr, Option, none, some, List,
  [], ◌∷◌,
}
use gateway_realtime.EventRecord.{EventRecord}
use gateway_realtime.EventStore.Queries.{get_pending}
use gateway_realtime.Json.{Json, no_fields}
use gateway_realtime.Lifecycle.{
  Lifecycle, device_lifecycle, browser_lifecycle, default_lifecycle, after_connect, after_resume,
  after_suspend, after_disconnect, mark_sent, pending_message, deliver_record, deliver_records,
  deliver_pending_events,
}
use gateway_realtime.Lifecycle.Notify.{
  opt_str, watching_browsers, send_each, device_event, state_field, device_connected,
  device_disconnected, device_suspend, device_reconnect,
}
use gateway_realtime.Lifecycle.Snapshot.{
  DeviceSource, shown_product, device_states, snapshot_message, other_product, snapshot_items,
  send_snapshot,
}
use gateway_realtime.Principal.{client_id_of, role_product_of, id_device_of, device_id_of}
use gateway_realtime.Registry.{get_devices_by_tenant}
use gateway_realtime.Session.{Session, is_active}
use gateway_realtime.World.{World, output, send_to, change_store, socket_of}

-- `w'` differs from `w` in what has been sent at most.
abbrev pub OnlyOutputs : World → World → Type 0
OnlyOutputs w w' = w' ≡ record w { outputs = w'.outputs }

-- In that and the event store at most.
abbrev pub OnlyDeliveries : World → World → Type 0
OnlyDeliveries w w' = w' ≡ record w { outputs = w'.outputs; store = w'.store }

pub OnlyOutputs-trans :
    (w w' w'' : World) → OnlyOutputs w w' → OnlyOutputs w' w'' → OnlyOutputs w w''
OnlyOutputs-trans w w' w'' h k = k ∙ ap {A = World} (λ v. record v { outputs = w''.outputs }) h

OnlyDeliveries-trans :
    (w w' w'' : World) → OnlyDeliveries w w' → OnlyDeliveries w' w'' → OnlyDeliveries w w''
OnlyDeliveries-trans w w' w'' h k =
    k ∙ ap {A = World} (λ v. record v { outputs = w''.outputs; store = w''.store }) h

pub send_to-OnlyOutputs :
    (socket : Option ℕ) (message : Json) (w : World) → OnlyOutputs w (send_to socket message w)
unfolding output
send_to-OnlyOutputs none message w = refl
send_to-OnlyOutputs (some client) message w = refl

pub send_each-OnlyOutputs :
    (message : Json) (refs : List ℕ) (w : World) → OnlyOutputs w (send_each message refs w)
unfolding send_each
send_each-OnlyOutputs message [] w = refl
send_each-OnlyOutputs message (ref ∷ refs) w =
    let w' = send_to (socket_of (map_get ref w.sessions)) message w in
    OnlyOutputs-trans w w' (send_each message refs w')
      (send_to-OnlyOutputs (socket_of (map_get ref w.sessions)) message w)
      (send_each-OnlyOutputs message refs w')

pub after_suspend-OnlyOutputs :
    (l : Lifecycle) (s : Session) (w : World) → OnlyOutputs w (after_suspend l s w)
unfolding after_suspend device_suspend
after_suspend-OnlyOutputs device_lifecycle s w =
    send_each-OnlyOutputs
      (device_event "device-suspend"
        (opt_str "id" (id_device_of s.principal) (state_field s no_fields)))
      (watching_browsers s w) w
after_suspend-OnlyOutputs browser_lifecycle s w = refl
after_suspend-OnlyOutputs default_lifecycle s w = refl

pub after_disconnect-OnlyOutputs :
    (l : Lifecycle) (s : Session) (w : World) → OnlyOutputs w (after_disconnect l s w)
unfolding after_disconnect device_disconnected
after_disconnect-OnlyOutputs device_lifecycle s w =
    send_each-OnlyOutputs
      (device_event "device-disconnected"
        (opt_str "id" (id_device_of s.principal) (state_field s no_fields)))
      (watching_browsers s w) w
after_disconnect-OnlyOutputs browser_lifecycle s w = refl
after_disconnect-OnlyOutputs default_lifecycle s w = refl

pub after_resume-OnlyOutputs :
    (l : Lifecycle) (s : Session) (w : World) → OnlyOutputs w (after_resume l s w)
unfolding after_resume device_reconnect
after_resume-OnlyOutputs device_lifecycle s w =
    send_each-OnlyOutputs
      (device_event "device-reconnect" (
        opt_str "id" (id_device_of s.principal)
          (state_field s (opt_str "deviceId" (device_id_of s.principal) no_fields))))
      (watching_browsers s w) w
after_resume-OnlyOutputs browser_lifecycle s w = refl
after_resume-OnlyOutputs default_lifecycle s w = refl

send_snapshot-OnlyOutputs :
    (devices : DeviceSource) (s : Session) (w : World) → OnlyOutputs w (send_snapshot devices s w)
unfolding send_snapshot
send_snapshot-OnlyOutputs devices s w =
    elim (Bool-cases (other_product s.product (role_product_of s.principal))) [
      | inl e ↦ rw e refl
      | inr e ↦
          let tenant = client_id_of s.principal in
          let refs = get_devices_by_tenant tenant (shown_product s.product) w.sessions w.registry in
          rw e (
            send_to-OnlyOutputs s.socket
              (snapshot_message
                (snapshot_items (device_states w.sessions refs []) (devices tenant s.product)))
              w)
    ]

pub after_connect-OnlyOutputs :
    (devices : DeviceSource) (l : Lifecycle) (ref : ℕ) (s : Session) (w : World)
    → OnlyOutputs w (after_connect devices l ref s w)
unfolding after_connect device_connected
after_connect-OnlyOutputs devices device_lifecycle ref s w =
    send_each-OnlyOutputs
      (device_event "device-connected" (
        opt_str "id" (id_device_of s.principal)
          (opt_str "deviceId" (device_id_of s.principal) (state_field s no_fields))))
      (watching_browsers s w) w
after_connect-OnlyOutputs devices browser_lifecycle ref s w = send_snapshot-OnlyOutputs devices s w
after_connect-OnlyOutputs devices default_lifecycle ref s w = refl

deliver_record-OnlyDeliveries :
    (now : ℕ) (s : Session) (r : EventRecord) (socket : Option ℕ) (w : World)
    → OnlyDeliveries w
        (change_store (mark_sent now s.session_id r) (send_to socket (pending_message r) w))
unfolding output
deliver_record-OnlyDeliveries now s r none w = refl
deliver_record-OnlyDeliveries now s r (some client) w = refl

deliver_records-OnlyDeliveries :
    (now : ℕ) (s : Session) (rs : List EventRecord) (w : World)
    → OnlyDeliveries w (deliver_records now s rs w)
unfolding deliver_records
deliver_records-OnlyDeliveries now s [] w = refl
deliver_records-OnlyDeliveries now s (r ∷ rs) w = elim (Bool-cases (is_active w.clients s)) [
  | inl e ↦
      let w' = deliver_record now s r w in
      rw e (
        OnlyDeliveries-trans w w' (deliver_records now s rs w')
          (unfold deliver_record in deliver_record-OnlyDeliveries now s r s.socket w)
          (deliver_records-OnlyDeliveries now s rs w'))
  | inr e ↦ rw e refl
]

pub deliver_pending-OnlyDeliveries :
    (now : ℕ) (s : Session) (w : World) → OnlyDeliveries w (deliver_pending_events now s w)
unfolding deliver_pending_events
deliver_pending-OnlyDeliveries now s w =
    deliver_records-OnlyDeliveries now s (get_pending now s.session_id w.store) w
