-- ===== src/Events/Qossing.antt =====
-- What `qossing` leaves in the event store and what it sends: events/json/base-ws-json.event.ts and
-- events/json/absensi/cancel-reservasi.event.ts.
use gateway_realtime.Common.{
  map_get, set_contains, length, filter, All, string_eq, nat_eq, ℕ, ◌+◌, ◌≤◌, ◌<◌, String, ◌≡◌,
  refl, sym, ap, ◌∙◌, subst, Bool, true, false, Option, none, some, List, [], ◌∷◌, arith,
}
use gateway_realtime.EventRecord.{qos1, qos2}
use gateway_realtime.EventStore.Create.{create}
use gateway_realtime.EventStore.Delivery.{create_delivers, create_emits_nothing}
use gateway_realtime.EventStore.Invariant.{IsIndexed}
use gateway_realtime.EventStore.Limits.{ids_of}
use gateway_realtime.EventStore.Queries.{get_pending}
use gateway_realtime.EventStore.State.{StoreConfig, index_of}
use gateway_realtime.Events.Classes.{EventClass, cancel_reservasi}
use gateway_realtime.Events.Dispatch.{
  active_ids, offline_ids, qos1_options, qos2_options, stored_world, qos1_store, qos2_send,
  qos2_store, qos_with_ids, qossing_at, qossing,
}
use gateway_realtime.Events.Execute.{told_of_cancel, told_browsers}
use gateway_realtime.Events.State.{Services}
use gateway_realtime.Feedback.{handle_notices, quiet_store, emit_notices}
use gateway_realtime.Json.{Fields, plain_message}
use gateway_realtime.Lifecycle.Notify.{send_each}
use gateway_realtime.Lifecycle.Outputs.{send_each-OnlyOutputs}
use gateway_realtime.Principal.{EnduserType, browser, absensi, client_id_of, role_product_of}
use gateway_realtime.Registry.{set_of, passes, get_browsers_by_tenant}
use gateway_realtime.Session.{Session}
use gateway_realtime.SessionManager.{get_id_enduser_by_type}
use gateway_realtime.World.{World}
use gateway_realtime.WsError.{Outcome, ok, thrown}

qos1_store-pending :
    (config : StoreConfig) (sv : Services) (now later : ℕ) (c : EventClass) (users : List ℕ)
    (payload : Fields) (w : World) (user : ℕ)
    → IsIndexed w.store
    → map_get (sv.fresh_id w) w.store.events ≡ none
    → length w.store.events < config.max_events_total
    → All
        (λ target. length (index_of target w.store.user_events) < config.max_events_per_user)
        users
    → set_contains user users ≡ true
    → later ≤ now + c.ttl
    → (w' : World) × (qos1_store config sv now c users payload w ≡ ok w')
      × (w'.outputs ≡ w.outputs)
      × (set_contains (sv.fresh_id w) (ids_of (get_pending later user w'.store)) ≡ true)
unfolding qos1_store set_contains handle_notices
qos1_store-pending config sv now later c [] payload w user v fresh room few target alive =
    absurd (cc)
qos1_store-pending config sv now later c (id ∷ ids) payload w user v fresh room few target alive =
    let start = quiet_store w in
    let start_v : IsIndexed start = record {
      listed = v.listed;
      named = v.named;
      distinct = v.distinct;
    } in
    let (st, e, pending, other) =
      create_delivers config now later (sv.fresh_id w) (id ∷ ids) c.label_to_receiver payload qos1
        (qos1_options c) start user start_v fresh room few target (λ t. alive) in
    let silent =
      create_emits_nothing config now (sv.fresh_id w) (id ∷ ids) c.label_to_receiver payload qos1
        (qos1_options c) start st room few e in
    let quiet : emit_notices st w ≡ record w { store = record st { notices = [] } } =
      unfold emit_notices in rw (silent, handle_notices) refl in
    (
      emit_notices st w,
      rw e refl,
      ap (λ v. v.outputs) quiet,
      ap (λ v. set_contains (sv.fresh_id w) (ids_of (get_pending later user v.store))) quiet
          ∙ (unfold get_pending in pending),
    )

-- The world after the message has gone to those who are online.
abbrev pub sent_world : EventClass → List ℕ → Fields → World → World
sent_world c receivers payload w = send_each (plain_message c.label_to_receiver payload) receivers w

-- An event of QoS 1 is sent to the receivers and, for each user of the database who is not among
-- them, is pending until its time to live is over; if the store and the user are below their limits
-- and the id is unused.
pub qos1_offline_pending :
    (config : StoreConfig) (sv : Services) (now later : ℕ) (c : EventClass) (receiver : EnduserType)
    (s : Session) (receivers : List ℕ) (payload : Fields) (w : World) (targets : List ℕ) (user : ℕ)
    → let sent_w = sent_world c receivers payload w in
      let event_id = sv.fresh_id sent_w in
      let users = offline_ids (active_ids w receivers) targets in
      c.qos ≡ qos1
      → get_id_enduser_by_type sv.ids s receiver c.product ≡ some targets
      → IsIndexed w.store
      → map_get event_id w.store.events ≡ none
      → length w.store.events < config.max_events_total
      → All
          (λ target. length (index_of target w.store.user_events) < config.max_events_per_user)
          users
      → set_contains user users ≡ true
      → later ≤ now + c.ttl
      → (w' : World) × (qossing config sv now c receiver s receivers payload w ≡ ok w')
        × (w'.outputs ≡ sent_w.outputs)
        × (set_contains event_id (ids_of (get_pending later user w'.store)) ≡ true)
unfolding qossing qos_with_ids
qos1_offline_pending config sv now later c receiver s receivers payload w targets user q known v
      fresh room few target alive =
    let sent_w = sent_world c receivers payload w in
    let users = offline_ids (active_ids w receivers) targets in
    let same : sent_w.store ≡ w.store =
      ap (λ v. v.store)
        (send_each-OnlyOutputs (plain_message c.label_to_receiver payload) receivers w) in
    let (v', fresh', room', few') =
      subst
        (λ st.
          IsIndexed st
          × (map_get (sv.fresh_id sent_w) st.events ≡ none)
          × (length st.events < config.max_events_total)
          × All (λ target. length (index_of target st.user_events) < config.max_events_per_user)
              users)
        (sym same) (v, fresh, room, few) in
    let (w', e, outs, pending) =
      qos1_store-pending config sv now later c users payload sent_w user v' fresh' room' few' target
        alive in
    let sends : qos_with_ids config sv now c s receivers payload
          (get_id_enduser_by_type sv.ids s receiver c.product) qos1 w
        ≡ ok w' =
      rw known e in
    (
      w',
      ap (λ qos. qossing_at config sv now c receiver s receivers payload qos w) q ∙ sends,
      outs,
      pending,
    )

filter_nothing : (p : ℕ → Bool) (xs : List ℕ) → ((x : ℕ) → p x ≡ false) → filter p xs ≡ []
filter_nothing p [] h = refl
filter_nothing p (x ∷ xs) h = rw (h x) (filter_nothing p xs h)

passes_nothing :
    (w : World) (s : Session) (o : Option Session)
    → role_product_of s.principal ≡ none
    → passes (told_of_cancel w s) o ≡ false
passes_nothing w s none h = refl
passes_nothing w s (some t) h = rw h (ground arith)

told_nothing :
    (s : Session) (w : World) → role_product_of s.principal ≡ none → told_browsers s w ≡ []
unfolding told_browsers get_browsers_by_tenant
told_nothing s w h =
    filter_nothing (λ ref. passes (told_of_cancel w s) (map_get ref w.sessions))
      (set_of (client_id_of s.principal) w.registry.tenant_browsers)
      (λ ref. passes_nothing w s (map_get ref w.sessions) h)

-- With nobody to send to, what is left of a send is the world that it is given.
qos2_send-nobody :
    (now : ℕ) (c : EventClass) (event_id : String) (payload : Fields) (made : Outcome World)
    → qos2_send now c event_id [] [] payload made ≡ made
unfolding qos2_send send_each
qos2_send-nobody now c event_id payload (thrown e) = refl
qos2_send-nobody now c event_id payload (ok w) = refl

offline_ids-nobody : (targets : List ℕ) → offline_ids [] targets ≡ targets
unfolding set_contains
offline_ids-nobody [] = refl
offline_ids-nobody (x ∷ xs) = ap (λ ids. x ∷ ids) (offline_ids-nobody xs)

cancel_sends_nothing :
    (config : StoreConfig) (sv : Services) (now : ℕ) (s : Session) (payload : Fields) (w : World)
    (id : ℕ) (ids : List ℕ)
    → sv.ids browser (client_id_of s.principal) (some absensi) ≡ id ∷ ids
    → qossing config sv now cancel_reservasi browser s [] payload w
      ≡ stored_world w (
          create config now
            (sv.fresh_id w)
            (id ∷ ids)
            cancel_reservasi.label_to_receiver
            payload
            qos2
            (qos2_options cancel_reservasi s)
            (quiet_store w))
unfolding qossing qos_with_ids get_id_enduser_by_type qos2_store
cancel_sends_nothing config sv now s payload w id ids e =
    rw (e, offline_ids-nobody (id ∷ ids), qos2_store)
      (qos2_send-nobody now cancel_reservasi (sv.fresh_id w) payload (
        stored_world w (
          create config now (sv.fresh_id w) (id ∷ ids) cancel_reservasi.label_to_receiver payload
            qos2 (qos2_options cancel_reservasi s) (quiet_store w))))

-- When a device cancels a reservation, no session is among those to be told, since the code looks
-- for the product of a browser's role in the principal of the device. So where the database has a
-- user for the browsers, all that `qossing` does is to create the event for these users: its message
-- is sent to nobody, and the world is the one that the creation leaves with its notices handled.
pub cancel_only_stores :
    (config : StoreConfig) (sv : Services) (now : ℕ) (s : Session) (payload : Fields) (w : World)
    (id : ℕ) (ids : List ℕ)
    → role_product_of s.principal ≡ none
    → sv.ids browser (client_id_of s.principal) (some absensi) ≡ id ∷ ids
    → (told_browsers s w ≡ [])
      × (qossing config sv now cancel_reservasi browser s (told_browsers s w) payload w
          ≡ stored_world w (
              create config now
                (sv.fresh_id w)
                (id ∷ ids)
                cancel_reservasi.label_to_receiver
                payload
                qos2
                (qos2_options cancel_reservasi s)
                (quiet_store w)))
cancel_only_stores config sv now s payload w id ids h e = (
  told_nothing s w h,
  ap (λ refs. qossing config sv now cancel_reservasi browser s refs payload w) (told_nothing s w h)
      ∙ cancel_sends_nothing config sv now s payload w id ids e,
)
