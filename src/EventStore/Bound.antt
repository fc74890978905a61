-- ===== src/EventStore/Bound.antt =====
-- How many events the store can hold: services/event-store.service.ts.
use gateway_realtime.Common.{
  leb, Bool-cases, Option-cases, or_default, map_get, map_update, length-set-le, length-update,
  set_delete, length, nat_eq, string_eq, ℕ, ◌+◌, ◌≤◌, String, ◌≡◌, ap, inl, inr, Option, none, some,
  List, [], ◌∷◌, arith,
}
use gateway_realtime.EventRecord.{Qos, set_expiry_timer}
use gateway_realtime.EventStore.Create.{
  CreateOptions, new_record, add_targets, enforce_next, enforce_limits, make_room, insert_event,
  schedule_expiry, count_created, create,
}
use gateway_realtime.EventStore.ForceOut.{force_cleanup-le}
use gateway_realtime.EventStore.Invariant.{IsIndexed}
use gateway_realtime.EventStore.Limits.{
  gather, forget_user, evict, evict_all, ids_of, over_limit, enforce_found, enforce_per_user_limit,
}
use gateway_realtime.EventStore.Removal.{length-remove_event-le}
use gateway_realtime.EventStore.State.{StoreConfig, by_force, EventStore}
use gateway_realtime.EventStore.Stats.{update_stats}
use gateway_realtime.Json.{Fields}

length-evict-le :
    (user : ℕ) (event_id : String) (st : EventStore)
    → length (evict user event_id st).events ≤ length st.events
unfolding evict
length-evict-le user event_id st =
    let st' : EventStore = record st {
      user_events = map_update user (set_delete event_id) st.user_events;
      events = map_update event_id (forget_user user) st.events;
    } in
    ground (
      arith,
      length-remove_event-le event_id by_force st',
      length-update event_id (forget_user user) st.events,
    )

length-evict_all-le :
    (user : ℕ) (ids : List String) (st : EventStore)
    → length (evict_all user ids st).events ≤ length st.events
unfolding evict_all
length-evict_all-le user [] st = omega arith
length-evict_all-le user (event_id ∷ ids) st =
    omega (
      arith,
      length-evict-le user event_id st,
      length-evict_all-le user ids (evict user event_id st),
    )

length-enforce_found-le :
    (config : StoreConfig) (now user : ℕ) (found : Option (List String)) (st st' : EventStore)
    → enforce_found config now user found st ≡ some st'
    → length st'.events ≤ length st.events
unfolding enforce_found
length-enforce_found-le config now user none st st' e = ground arith
length-enforce_found-le config now user (some ids) st st' e =
    elim (Bool-cases (leb (length ids) config.max_events_per_user)) [
      | inl few ↦ ground (arith, few)
      | inr many ↦ elim (Option-cases (gather ids st.events)) [
        | inl n ↦ absurd (ground (arith, many, n))
        | inr (rs, s) ↦
            let out = ids_of (over_limit config.max_events_per_user now user rs) in
            ground (arith, many, s, length-evict_all-le user out st)
      ]
    ]

length-enforce_limits-le :
    (config : StoreConfig) (now : ℕ) (targets : List ℕ) (st st' : EventStore)
    → enforce_limits config now targets st ≡ some st'
    → length st'.events ≤ length st.events
unfolding enforce_limits enforce_next
length-enforce_limits-le config now [] st st' e = ground arith
length-enforce_limits-le config now (user ∷ users) st st' e =
    elim (Option-cases (enforce_per_user_limit config now user st)) [
      | inl n ↦ absurd (ground (arith, n))
      | inr (st₁, s) ↦
          let first : length st₁.events ≤ length st.events =
            unfold enforce_per_user_limit in
            length-enforce_found-le config now user (map_get user st.user_events) st st₁ s in
          omega
            (arith, first, length-enforce_limits-le config now users st₁ st' (ground (arith, s)))
    ]

pub length-make_room-le :
    (config : StoreConfig) (st : EventStore)
    → IsIndexed st
    → length (make_room config st).events ≤ config.max_events_total
unfolding make_room
length-make_room-le config st v = ground (arith, force_cleanup-le config st v)

length-schedule_expiry :
    (now : ℕ) (event_id : String) (ttl : Option ℕ) (st : EventStore)
    → length (schedule_expiry now event_id ttl st).events ≡ length st.events
unfolding schedule_expiry
length-schedule_expiry now event_id ttl st =
    ground (arith, length-update event_id (set_expiry_timer (now + or_default ttl 0)) st.events)

-- `create` leaves at most one event more than `MAX_EVENTS_TOTAL`, however many there were.
pub length-create-le :
    (config : StoreConfig) (now : ℕ) (event_id : String) (targets : List ℕ) (event_name : String)
    (payload : Fields) (qos : Qos) (options : CreateOptions) (st st' : EventStore)
    → IsIndexed st
    → create config now event_id targets event_name payload qos options st ≡ some st'
    → length st'.events ≤ config.max_events_total + 1
unfolding create count_created update_stats
length-create-le config now event_id targets event_name payload qos options st st' v e =
    let room = make_room config st in
    let inserted = insert_event now event_id targets event_name payload qos options room in
    elim (Option-cases (enforce_limits config now targets inserted)) [
      | inl n ↦ absurd (ground (arith, n))
      | inr (st₁, s) ↦
          let same : st'.events ≡ (schedule_expiry now event_id options.ttl st₁).events =
            ground (arith, s) in
          let new =
            add_targets now targets (new_record event_id event_name payload qos now options) in
          let grown : length inserted.events ≤ length room.events + 1 =
            unfold insert_event in length-set-le event_id new room.events in
          omega (
            arith,
            ap length same,
            length-schedule_expiry now event_id options.ttl st₁,
            length-enforce_limits-le config now targets inserted st₁ s,
            grown,
            length-make_room-le config st v,
          )
    ]
