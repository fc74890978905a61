-- ===== src/EventStore/Delivery.antt =====
-- A new event reaches the queue of each of its targets: `create` in
-- services/event-store.service.ts.
use gateway_realtime.Common.{
  leb, if◌then◌else◌, Bool-cases, Option-cases, or_default, truthy, map_option, map_get, map_set,
  get-set, get-update, set_contains, set_add, contains-add, length, All, string_eq, nat_eq, ℕ, ◌+◌,
  ◌≤◌, ◌<◌, String, ◌≡◌, refl, sym, ap, ◌∙◌, ◌≢◌, inl, inr, true, Option, none, some, List, [], ◌∷◌,
  arith, eq_iff,
}
use gateway_realtime.EventRecord.{
  stored, Qos, EventRecord, is_expired, set_expiry_timer, get_user_status, set_user_status,
  set_user_sequence,
}
use gateway_realtime.EventStore.Create.{
  CreateOptions, new_record, add_targets, index_targets, enforce_next, enforce_limits, make_room,
  insert_event, schedule_expiry, count_created, create,
}
use gateway_realtime.EventStore.Index.{contains-index_targets}
use gateway_realtime.EventStore.Invariant.{IsIndexed}
use gateway_realtime.EventStore.Invariant.Creation.{insert-IsIndexed, schedule_expiry-IsIndexed}
use gateway_realtime.EventStore.Limits.{is_pending, ids_of, enforce_found, enforce_per_user_limit}
use gateway_realtime.EventStore.Pending.{found_and, get_pending_exact}
use gateway_realtime.EventStore.Queries.{get_pending}
use gateway_realtime.EventStore.State.{StoreConfig, Index, EventStore, index_of}
use gateway_realtime.EventStore.Stats.{update_stats}
use gateway_realtime.Json.{Fields}

length-add_le :
    (event_id : String) (ids : List String)
    → length (set_add event_id ids)
      ≡ (if set_contains event_id ids then length ids else length ids + 1)
unfolding set_add set_contains
length-add_le event_id [] = omega arith
length-add_le event_id (x ∷ ids) = ground (arith, length-add_le event_id ids)

length-index_targets :
    (event_id : String) (users : List ℕ) (user : ℕ) (index : Index)
    → length (index_of user (index_targets event_id users index)) ≤ (
        if set_contains event_id (index_of user index)
        then length (index_of user index)
        else length (index_of user index) + 1)
unfolding index_targets
length-index_targets event_id [] user index = ground arith
length-index_targets event_id (other ∷ users) user index =
    let added = set_add event_id (index_of other index) in
    ground (
      arith,
      length-index_targets event_id users user (map_set other added index),
      get-set user other added index,
      length-add_le event_id (index_of other index),
      contains-add event_id event_id (index_of other index),
      eq_iff event_id event_id,
    )

-- Where every target has few enough events, the limit changes nothing.
enforce_limits_few :
    (config : StoreConfig) (now : ℕ) (targets : List ℕ) (st : EventStore)
    → All (λ user. length (index_of user st.user_events) ≤ config.max_events_per_user) targets
    → enforce_limits config now targets st ≡ some st
unfolding enforce_limits enforce_next enforce_per_user_limit enforce_found
enforce_limits_few config now [] st h = refl
enforce_limits_few config now (user ∷ users) st h =
    let others = enforce_limits_few config now users st h.1 in
    elim (Option-cases (map_get user st.user_events)) [
      | inl e ↦ rw (e, enforce_found) others
      | inr (ids, e) ↦
          let few : leb (length ids) config.max_events_per_user ≡ true = ground (arith, e, h.0) in
          rw (e, enforce_found, few) others
    ]

All-few :
    (limit : ℕ) (event_id : String) (all_targets targets : List ℕ) (index : Index)
    → All (λ user. length (index_of user index) < limit) targets
    → All
        (λ user. length (index_of user (index_targets event_id all_targets index)) ≤ limit)
        targets
All-few limit event_id all_targets [] index h = tt
All-few limit event_id all_targets (user ∷ users) index h = (
  ground (arith, length-index_targets event_id all_targets user index, h.0),
  All-few limit event_id all_targets users index h.1,
)

stored-target :
    (now user other : ℕ) (r : EventRecord)
    → get_user_status user r ≡ stored
    → get_user_status user (set_user_sequence other now (set_user_status other stored r)) ≡ stored
unfolding get_user_status set_user_sequence set_user_status
stored-target now user other r h = ground (arith, get-set user other stored r.user_status)

status-add_targets :
    (now : ℕ) (users : List ℕ) (user : ℕ) (r : EventRecord)
    → get_user_status user r ≡ stored
    → get_user_status user (add_targets now users r) ≡ stored
unfolding add_targets
status-add_targets now [] user r h = h
status-add_targets now (other ∷ users) user r h =
    status-add_targets now users user (set_user_sequence other now (set_user_status other stored r))
      (stored-target now user other r h)

expires-add_targets :
    (now : ℕ) (users : List ℕ) (r : EventRecord)
    → (add_targets now users r).expires_at ≡ r.expires_at
unfolding add_targets set_user_status set_user_sequence
expires-add_targets now [] r = refl
expires-add_targets now (user ∷ users) r =
    expires-add_targets now users (set_user_sequence user now (set_user_status user stored r))

-- The record of a new event is pending for every user until its time to live is over.
new_pending :
    (event_id event_name : String) (payload : Fields) (qos : Qos) (now later : ℕ)
    (options : CreateOptions) (targets : List ℕ) (user : ℕ)
    → (truthy options.ttl ≡ true → later ≤ now + or_default options.ttl 0)
    → is_pending later user
        (add_targets now targets (new_record event_id event_name payload qos now options))
      ≡ true
unfolding is_pending is_expired new_record
new_pending event_id event_name payload qos now later options targets user alive =
    let r = new_record event_id event_name payload qos now options in
    let unmarked : get_user_status user r ≡ stored = unfold get_user_status map_get in refl in
    ground (
      arith,
      status-add_targets now targets user r unmarked,
      expires-add_targets now targets r,
      alive,
    )

pending-schedule :
    (now later user : ℕ) (event_id : String) (ttl : Option ℕ) (st : EventStore)
    → found_and (is_pending later user) (map_get event_id st.events) ≡ true
    → found_and
        (is_pending later user)
        (map_get event_id (schedule_expiry now event_id ttl st).events)
      ≡ true
unfolding schedule_expiry
pending-schedule now later user event_id ttl st h =
    let due = now + or_default ttl 0 in
    elim (Bool-cases (truthy ttl)) [
      | inr unset ↦ rw unset h
      | inl set ↦ rw set (
          rw get-update
            (rw ((eq_iff event_id event_id).1 refl) (timed due (map_get event_id st.events) h)))
    ]
  where
    timed :
        (due : ℕ) (found : Option EventRecord)
        → found_and (is_pending later user) found ≡ true
        → found_and (is_pending later user) (map_option (set_expiry_timer due) found) ≡ true
    timed due none h = h
    timed due (some r) h = unfold set_expiry_timer is_pending is_expired get_user_status in h

schedule-same_index :
    (now : ℕ) (event_id : String) (ttl : Option ℕ) (st : EventStore)
    → (schedule_expiry now event_id ttl st).user_events ≡ st.user_events
unfolding schedule_expiry
schedule-same_index now event_id ttl st = ground arith

schedule-get_ne :
    (now : ℕ) (event_id other : String) (ttl : Option ℕ) (st : EventStore)
    → event_id ≢ other
    → map_get other (schedule_expiry now event_id ttl st).events ≡ map_get other st.events
unfolding schedule_expiry
schedule-get_ne now event_id other ttl st ne = ground (
  arith,
  get-update other event_id (set_expiry_timer (now + or_default ttl 0)) st.events,
  eq_iff event_id other,
)

make_room_below :
    (config : StoreConfig) (st : EventStore)
    → length st.events < config.max_events_total
    → make_room config st ≡ st
unfolding make_room
make_room_below config st h = ground arith

-- The store after a creation that no limit touches.
abbrev delivered_store :
    ℕ → String → List ℕ → String → Fields → Qos → CreateOptions → EventStore → EventStore
delivered_store now event_id targets event_name payload qos options st = update_stats now (
    count_created (
      schedule_expiry now event_id options.ttl
        (insert_event now event_id targets event_name payload qos options st)))

create_below :
    (config : StoreConfig) (now : ℕ) (event_id : String) (targets : List ℕ) (event_name : String)
    (payload : Fields) (qos : Qos) (options : CreateOptions) (st : EventStore)
    → length st.events < config.max_events_total
    → All (λ target. length (index_of target st.user_events) < config.max_events_per_user) targets
    → create config now event_id targets event_name payload qos options st
      ≡ some (delivered_store now event_id targets event_name payload qos options st)
unfolding create
create_below config now event_id targets event_name payload qos options st room few =
    let inserted = insert_event now event_id targets event_name payload qos options st in
    let kept : enforce_limits config now targets inserted ≡ some inserted =
      unfold insert_event in
      enforce_limits_few config now targets inserted
        (All-few config.max_events_per_user event_id targets targets st.user_events few) in
    rw (make_room_below config st room, kept)

delivered-pending :
    (now later : ℕ) (event_id : String) (targets : List ℕ) (event_name : String) (payload : Fields)
    (qos : Qos) (options : CreateOptions) (st : EventStore) (user : ℕ)
    → IsIndexed st
    → map_get event_id st.events ≡ none
    → set_contains user targets ≡ true
    → (truthy options.ttl ≡ true → later ≤ now + or_default options.ttl 0)
    → set_contains event_id (
        ids_of (
          get_pending later user
            (delivered_store now event_id targets event_name payload qos options st)))
      ≡ true
unfolding count_created update_stats
delivered-pending now later event_id targets event_name payload qos options st user v fresh target
      alive =
    let inserted = insert_event now event_id targets event_name payload qos options st in
    let timed = schedule_expiry now event_id options.ttl inserted in
    let v' : IsIndexed timed =
      schedule_expiry-IsIndexed now event_id options.ttl inserted
        (insert-IsIndexed now event_id targets event_name payload qos options st fresh v) in
    let result = delivered_store now event_id targets event_name payload qos options st in
    let result_v : IsIndexed result = record {
      listed = v'.listed;
      named = v'.named;
      distinct = v'.distinct;
    } in
    let new = add_targets now targets (new_record event_id event_name payload qos now options) in
    let there : found_and (is_pending later user) (map_get event_id inserted.events) ≡ true =
      unfold insert_event in
      ground (
        arith,
        get-set event_id event_id new st.events,
        eq_iff event_id event_id,
        new_pending event_id event_name payload qos now later options targets user alive,
      ) in
    let listed : set_contains event_id (index_of user inserted.user_events) ≡ true =
      unfold insert_event in
      ground (
        arith,
        contains-index_targets event_id event_id targets user st.user_events,
        eq_iff event_id event_id,
      ) in
    ground (
      arith,
      (get_pending_exact later user result result_v).0 event_id,
      pending-schedule now later user event_id options.ttl inserted there,
      schedule-same_index now event_id options.ttl inserted,
      listed,
    )

-- Where the store is below its limit and each target below its own, an event created under an
-- unused id throws nothing, is given by `getPending` for each target until its time to live is
-- over, and leaves every other event as it was.
pub create_delivers :
    (config : StoreConfig) (now later : ℕ) (event_id : String) (targets : List ℕ)
    (event_name : String) (payload : Fields) (qos : Qos) (options : CreateOptions) (st : EventStore)
    (user : ℕ)
    → IsIndexed st
    → map_get event_id st.events ≡ none
    → length st.events < config.max_events_total
    → All (λ target. length (index_of target st.user_events) < config.max_events_per_user) targets
    → set_contains user targets ≡ true
    → (truthy options.ttl ≡ true → later ≤ now + or_default options.ttl 0)
    → (st' : EventStore) × (create config now event_id targets event_name payload qos options st
        ≡ some st')
      × (set_contains event_id (ids_of (get_pending later user st')) ≡ true)
      × ((other : String) → event_id ≢ other → map_get other st'.events ≡ map_get other st.events)
unfolding count_created update_stats
create_delivers config now later event_id targets event_name payload qos options st user v fresh
      room few target alive =
    let inserted = insert_event now event_id targets event_name payload qos options st in
    let new = add_targets now targets (new_record event_id event_name payload qos now options) in
    (
      delivered_store now event_id targets event_name payload qos options st,
      create_below config now event_id targets event_name payload qos options st room few,
      delivered-pending now later event_id targets event_name payload qos options st user v fresh
          target alive,
      λ other ne.
          schedule-get_ne now event_id other options.ttl inserted ne
          ∙ (unfold insert_event in
              ground (arith, get-set other event_id new st.events, eq_iff event_id other)),
    )

schedule-same_notices :
    (now : ℕ) (event_id : String) (ttl : Option ℕ) (st : EventStore)
    → (schedule_expiry now event_id ttl st).notices ≡ st.notices
unfolding schedule_expiry
schedule-same_notices now event_id ttl st = ground arith

-- Such a creation emits nothing.
pub create_emits_nothing :
    (config : StoreConfig) (now : ℕ) (event_id : String) (targets : List ℕ) (event_name : String)
    (payload : Fields) (qos : Qos) (options : CreateOptions) (st st' : EventStore)
    → length st.events < config.max_events_total
    → All (λ target. length (index_of target st.user_events) < config.max_events_per_user) targets
    → create config now event_id targets event_name payload qos options st ≡ some st'
    → st'.notices ≡ st.notices
unfolding count_created update_stats insert_event
create_emits_nothing config now event_id targets event_name payload qos options st st' room few e =
    let below =
      create_below config now event_id targets event_name payload qos options st room few in
    let made = delivered_store now event_id targets event_name payload qos options st in
    let same : made ≡ st' = ap (λ o. or_default o made) (sym below ∙ e) in
    sym (ap {A = EventStore} (λ v. v.notices) same)
    ∙ schedule-same_notices now event_id options.ttl
        (insert_event now event_id targets event_name payload qos options st)
