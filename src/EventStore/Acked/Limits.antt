-- ===== src/EventStore/Acked/Limits.antt =====
-- The limits, the creation of another event and the cleanup keep an acknowledgement:
-- services/event-store.service.ts.
use gateway_realtime.Common.{
  ltb, leb, Bool-cases, Option-cases, truthy, map_option, map_get, map_update, get-set, get-delete,
  get-update, set_delete, contains-delete, length, nat_eq, string_eq, ℕ, String, ◌≡◌, subst, ◌≢◌,
  inl, inr, true, Option, none, some, List, [], ◌∷◌, arith, eq_iff,
}
use gateway_realtime.EventRecord.{Qos, EventRecord, set_expiry_timer, get_user_status}
use gateway_realtime.EventStore.Acked.{found_applied, KeepsAck, KeepsAck-refl, KeepsAck-trans}
use gateway_realtime.EventStore.Acked.Keeps.{
  update-KeepsAck, remove_event-KeepsAck, remove_events-KeepsAck,
}
use gateway_realtime.EventStore.Cleanup.{
  expired_ids, cleanup_expired_events, is_stale, cleanup_stale_delivered, cleanup,
}
use gateway_realtime.EventStore.Cleanup.Laws.{
  cleanup_expired-IsIndexed, stale_record, get-stale_events, cleanup_stale-IsIndexed,
  get_user_status-stale,
}
use gateway_realtime.EventStore.Create.{
  CreateOptions, new_record, add_targets, enforce_next, enforce_limits, make_room, insert_event,
  schedule_expiry, count_created, create,
}
use gateway_realtime.EventStore.Index.{contains-index_targets}
use gateway_realtime.EventStore.Invariant.{IsIndexed}
use gateway_realtime.EventStore.Invariant.Creation.{
  insert-IsIndexed, enforce_limits-IsIndexed, make_room-IsIndexed,
}
use gateway_realtime.EventStore.Invariant.Eviction.{
  index_of-update, evict-Indexed, evict-IsIndexed, enforce_per_user_limit-IsIndexed,
}
use gateway_realtime.EventStore.Limits.{
  gather, forget_user, has_no_users, evict, evict_all, ids_of, over_limit, enforce_found,
  enforce_per_user_limit, to_force_out, force_cleanup, enforce_memory_limits,
}
use gateway_realtime.EventStore.Remove.{remove_event}
use gateway_realtime.EventStore.State.{StoreConfig, by_expired, by_force, EventStore, index_of}
use gateway_realtime.EventStore.Stats.{update_stats}
use gateway_realtime.Json.{Fields}

found_applied-forget :
    (user other : ℕ) (found : Option EventRecord)
    → other ≢ user
    → found_applied user found ≡ true
    → found_applied user (map_option (forget_user other) found) ≡ true
unfolding get_user_status
found_applied-forget user other none ne a = a
found_applied-forget user other (some r) ne a = ground (arith, get-delete user other r.user_status)

forget-KeepsAck :
    (user : ℕ) (id : String) (other : ℕ) (event_id : String) (st : EventStore)
    → KeepsAck user id st (record st {
      user_events = map_update other (set_delete event_id) st.user_events;
      events = map_update event_id (forget_user other) st.events;
    })
forget-KeepsAck user id other event_id st = record {
  unlisted = λ l. ground (
    arith,
    index_of-update event_id other user st.user_events,
    contains-delete id event_id (index_of user st.user_events),
  );
  status = λ l a. ground (
    arith,
    index_of-update event_id other user st.user_events,
    contains-delete id event_id (index_of user st.user_events),
    get-update id event_id (forget_user other) st.events,
    found_applied-forget user other (map_get id st.events),
  );
}

evict-KeepsAck :
    (user : ℕ) (id : String) (other : ℕ) (event_id : String) (st : EventStore)
    → IsIndexed st
    → KeepsAck user id st (evict other event_id st)
unfolding evict
evict-KeepsAck user id other event_id st v =
    let st' : EventStore = record st {
      user_events = map_update other (set_delete event_id) st.user_events;
      events = map_update event_id (forget_user other) st.events;
    } in
    let first : KeepsAck user id st st' = forget-KeepsAck user id other event_id st in
    let v' : IsIndexed st' = evict-Indexed other event_id st.events st.user_events v in
    elim (Bool-cases (has_no_users (map_get event_id st'.events))) [
      | inl done ↦ rw done (
          KeepsAck-trans user id st st' (remove_event event_id by_force st') first
            (remove_event-KeepsAck user id event_id by_force st' v'))
      | inr more ↦ rw more first
    ]

evict_all-KeepsAck :
    (user : ℕ) (id : String) (other : ℕ) (ids : List String) (st : EventStore)
    → IsIndexed st
    → KeepsAck user id st (evict_all other ids st)
unfolding evict_all
evict_all-KeepsAck user id other [] st v = KeepsAck-refl user id st
evict_all-KeepsAck user id other (x ∷ ids) st v =
    KeepsAck-trans user id st (evict other x st) _ (evict-KeepsAck user id other x st v)
      (evict_all-KeepsAck user id other ids (evict other x st) (evict-IsIndexed other x st v))

enforce_found-KeepsAck :
    (user : ℕ) (id : String) (config : StoreConfig) (now other : ℕ) (found : Option (List String))
    (st st' : EventStore)
    → IsIndexed st
    → enforce_found config now other found st ≡ some st'
    → KeepsAck user id st st'
unfolding enforce_found
enforce_found-KeepsAck user id config now other none st st' v e =
    subst (KeepsAck user id st) (ground arith) (KeepsAck-refl user id st)
enforce_found-KeepsAck user id config now other (some ids) st st' v e =
    elim (Bool-cases (leb (length ids) config.max_events_per_user)) [
      | inl few ↦ subst (KeepsAck user id st) (ground (arith, few)) (KeepsAck-refl user id st)
      | inr many ↦ elim (Option-cases (gather ids st.events)) [
        | inl n ↦ absurd (ground (arith, many, n))
        | inr (rs, s) ↦
            let out = ids_of (over_limit config.max_events_per_user now other rs) in
            subst (KeepsAck user id st) (ground (arith, many, s))
              (evict_all-KeepsAck user id other out st v)
      ]
    ]

enforce_limits-KeepsAck :
    (user : ℕ) (id : String) (config : StoreConfig) (now : ℕ) (targets : List ℕ)
    (st st' : EventStore)
    → IsIndexed st
    → enforce_limits config now targets st ≡ some st'
    → KeepsAck user id st st'
unfolding enforce_limits enforce_next enforce_per_user_limit
enforce_limits-KeepsAck user id config now [] st st' v e =
    subst (KeepsAck user id st) (ground arith) (KeepsAck-refl user id st)
enforce_limits-KeepsAck user id config now (other ∷ users) st st' v e =
    let (st₁, e₁, v₁) = enforce_per_user_limit-IsIndexed config now other st v in
    KeepsAck-trans user id st st₁ st'
      (enforce_found-KeepsAck user id config now other (map_get other st.user_events) st st₁ v e₁)
      (enforce_limits-KeepsAck user id config now users st₁ st' v₁ (rw e₁ at e))

insert-KeepsAck :
    (user : ℕ) (id : String) (now : ℕ) (event_id : String) (targets : List ℕ) (event_name : String)
    (payload : Fields) (qos : Qos) (options : CreateOptions) (st : EventStore)
    → event_id ≢ id
    → KeepsAck user id st (insert_event now event_id targets event_name payload qos options st)
unfolding insert_event
insert-KeepsAck user id now event_id targets event_name payload qos options st ne =
    let new = add_targets now targets (new_record event_id event_name payload qos now options) in
    record {
      unlisted = λ l. ground (
        arith,
        contains-index_targets event_id id targets user st.user_events,
        eq_iff event_id id,
      );
      status = λ l a. ground (arith, get-set id event_id new st.events, eq_iff event_id id);
    }

make_room-KeepsAck :
    (user : ℕ) (id : String) (config : StoreConfig) (st : EventStore)
    → IsIndexed st
    → KeepsAck user id st (make_room config st)
unfolding make_room force_cleanup
make_room-KeepsAck user id config st v =
    let ids = ids_of (to_force_out config.max_events_total st.events) in
    elim (Bool-cases (leb config.max_events_total (length st.events))) [
      | inl full ↦ rw full (remove_events-KeepsAck user id by_force ids st v)
      | inr room ↦ rw room (KeepsAck-refl user id st)
    ]

schedule_expiry-KeepsAck :
    (user : ℕ) (id : String) (now : ℕ) (event_id : String) (ttl : Option ℕ) (st : EventStore)
    → KeepsAck user id st (schedule_expiry now event_id ttl st)
unfolding schedule_expiry set_expiry_timer
schedule_expiry-KeepsAck user id now event_id ttl st = elim (Bool-cases (truthy ttl)) [
  | inl set ↦
      rw set
        (unfold get_user_status in update-KeepsAck user id event_id _ st st.stats (λ r same e a. a))
  | inr unset ↦ rw unset (KeepsAck-refl user id st)
]

-- Creating another event.
pub create-KeepsAck :
    (user : ℕ) (id : String) (config : StoreConfig) (now : ℕ) (event_id : String) (targets : List ℕ)
    (event_name : String) (payload : Fields) (qos : Qos) (options : CreateOptions)
    (st st' : EventStore)
    → IsIndexed st
    → map_get event_id (make_room config st).events ≡ none
    → event_id ≢ id
    → create config now event_id targets event_name payload qos options st ≡ some st'
    → KeepsAck user id st st'
unfolding create count_created update_stats
create-KeepsAck user id config now event_id targets event_name payload qos options st st' v fresh ne
      e =
    let room = make_room config st in
    let room_v = make_room-IsIndexed config st v in
    let inserted = insert_event now event_id targets event_name payload qos options room in
    let inserted_v =
      insert-IsIndexed now event_id targets event_name payload qos options room fresh room_v in
    let (st₁, e₁, v₁) = enforce_limits-IsIndexed config now targets inserted inserted_v in
    let timed = schedule_expiry now event_id options.ttl st₁ in
    let whole : KeepsAck user id st timed =
      KeepsAck-trans user id st room timed (make_room-KeepsAck user id config st v) (
        KeepsAck-trans user id room inserted timed
          (insert-KeepsAck user id now event_id targets event_name payload qos options room ne)
          (KeepsAck-trans user id inserted st₁ timed
            (enforce_limits-KeepsAck user id config now targets inserted st₁ inserted_v e₁)
            (schedule_expiry-KeepsAck user id now event_id options.ttl st₁))) in
    let result : EventStore = update_stats now (count_created timed) in
    let same : result ≡ st' = ground (arith, rw e₁ at e) in
    subst (KeepsAck user id st) same (record { unlisted = whole.unlisted; status = whole.status })

stale_keeps :
    (user : ℕ) (config : StoreConfig) (now : ℕ) (found : Option EventRecord)
    → found_applied user found ≡ true
    → found_applied user (map_option (stale_record config now) found) ≡ true
unfolding is_stale
stale_keeps user config now none a = a
stale_keeps user config now (some r) a = ground (arith, get_user_status-stale config now user r)

pub cleanup_stale-KeepsAck :
    (user : ℕ) (id : String) (config : StoreConfig) (now : ℕ) (st : EventStore)
    → KeepsAck user id st (cleanup_stale_delivered config now st)
unfolding cleanup_stale_delivered
cleanup_stale-KeepsAck user id config now st = record {
  unlisted = λ l. l;
  status = λ l a. rw get-stale_events (stale_keeps user config now (map_get id st.events) a);
}

pub cleanup-KeepsAck :
    (user : ℕ) (id : String) (config : StoreConfig) (now : ℕ) (st : EventStore)
    → IsIndexed st
    → KeepsAck user id st (cleanup config now st)
unfolding cleanup enforce_memory_limits force_cleanup cleanup_expired_events
cleanup-KeepsAck user id config now st v =
    let st₁ = cleanup_expired_events now st in
    let v₁ = cleanup_expired-IsIndexed now st v in
    let st₂ = cleanup_stale_delivered config now st₁ in
    let v₂ = cleanup_stale-IsIndexed config now st₁ v₁ in
    let expired = remove_events-KeepsAck user id by_expired (expired_ids now st.events) st v in
    let first : KeepsAck user id st st₂ =
      KeepsAck-trans user id st st₁ st₂
        (record { unlisted = expired.unlisted; status = expired.status })
        (cleanup_stale-KeepsAck user id config now st₁) in
    let ids = ids_of (to_force_out config.max_events_total st₂.events) in
    elim (Bool-cases (ltb config.max_events_total (length st₂.events))) [
      | inl over ↦
          let whole =
            KeepsAck-trans user id st st₂ _ first
              (remove_events-KeepsAck user id by_force ids st₂ v₂) in
          rw over (record { unlisted = whole.unlisted; status = whole.status })
      | inr fits ↦ rw fits (record { unlisted = first.unlisted; status = first.status })
    ]
