-- ===== src/EventStore/Steps.antt =====
-- The histories of the event store: each call of a method that changes its maps, and each callback
-- of its timers. services/event-store.service.ts.
-- An event is created under an id that is not in use.
use gateway_realtime.Common.{
  ltb, Bool-cases, map_get, set_contains, length, nat_eq, string_eq, ℕ, ◌+◌, ◌≤◌, String, ◌≡◌,
  subst, inl, inr, none, some, List, arith,
}
use gateway_realtime.EventRecord.{Qos}
use gateway_realtime.EventStore.Bound.{length-create-le}
use gateway_realtime.EventStore.Cleanup.{cleanup_expired_events, cleanup_stale_delivered, cleanup}
use gateway_realtime.EventStore.Cleanup.Laws.{cleanup_expired-IsIndexed, cleanup_stale-IsIndexed}
use gateway_realtime.EventStore.Create.{
  CreateOptions, make_room, create, found_expired, expiry_fired,
}
use gateway_realtime.EventStore.ForceOut.{force_cleanup-le}
use gateway_realtime.EventStore.Invariant.{IsIndexed}
use gateway_realtime.EventStore.Invariant.Changes.{remove_event-IsIndexed, remove_events-IsIndexed}
use gateway_realtime.EventStore.Invariant.Creation.{create-IsIndexed}
use gateway_realtime.EventStore.Limits.{ids_of, to_force_out, force_cleanup, enforce_memory_limits}
use gateway_realtime.EventStore.Marked.{
  mark_delivered-Marking, mark_failed-Marking, mark_applied-Marking, Marking-IsIndexed,
  length-Marking,
}
use gateway_realtime.EventStore.Marks.{mark_delivered, mark_failed, mark_applied}
use gateway_realtime.EventStore.Removal.{get-remove_events, length-remove_event-le}
use gateway_realtime.EventStore.State.{StoreConfig, by_expired, by_force, EventStore, empty_store}
use gateway_realtime.Json.{Fields}

pub data Step (config : StoreConfig) (st : EventStore) : EventStore → Type 0 where
  creates :
      (now : ℕ) (event_id : String) (targets : List ℕ) (event_name : String) (payload : Fields)
      (qos : Qos) (options : CreateOptions) (st' : EventStore)
      → map_get event_id st.events ≡ none
      → create config now event_id targets event_name payload qos options st ≡ some st'
      → Step config st st'
  delivers :
      (now user : ℕ) (event_id : String) → Step config st (mark_delivered now user event_id st)
  fails :
      (now user : ℕ) (event_id error : String)
      → Step config st (mark_failed now user event_id error st)
  applies : (user : ℕ) (event_id : String) → Step config st (mark_applied user event_id st)
  expires : (now : ℕ) (event_id : String) → Step config st (expiry_fired now event_id st)
  cleans : (now : ℕ) → Step config st (cleanup config now st)

pub data Reach (config : StoreConfig) : EventStore → Type 0 where
  starts : (now : ℕ) → Reach config (empty_store now)
  next : {st st' : EventStore} → Reach config st → Step config st st' → Reach config st'

pub get-make_room-none :
    (config : StoreConfig) (event_id : String) (st : EventStore)
    → map_get event_id st.events ≡ none
    → map_get event_id (make_room config st).events ≡ none
unfolding make_room force_cleanup
get-make_room-none config event_id st fresh =
    let ids = ids_of (to_force_out config.max_events_total st.events) in
    ground (arith, get-remove_events by_force ids event_id st)

-- Creating an event under an unused id never throws, and keeps the index right.
pub create_total :
    (config : StoreConfig) (now : ℕ) (event_id : String) (targets : List ℕ) (event_name : String)
    (payload : Fields) (qos : Qos) (options : CreateOptions) (st : EventStore)
    → IsIndexed st
    → map_get event_id st.events ≡ none
    → (st' : EventStore) × (create config now event_id targets event_name payload qos options st
        ≡ some st')
      × IsIndexed st'
create_total config now event_id targets event_name payload qos options st v fresh =
    create-IsIndexed config now event_id targets event_name payload qos options st v
      (get-make_room-none config event_id st fresh)

enforce_memory-IsIndexed :
    (config : StoreConfig) (st : EventStore)
    → IsIndexed st
    → IsIndexed (enforce_memory_limits config st)
unfolding enforce_memory_limits force_cleanup
enforce_memory-IsIndexed config st v =
    let ids = ids_of (to_force_out config.max_events_total st.events) in
    elim (Bool-cases (ltb config.max_events_total (length st.events))) [
      | inl over ↦ rw over (remove_events-IsIndexed by_force ids st v)
      | inr fits ↦ rw fits v
    ]

pub cleanup-IsIndexed :
    (config : StoreConfig) (now : ℕ) (st : EventStore)
    → IsIndexed st
    → IsIndexed (cleanup config now st)
unfolding cleanup
cleanup-IsIndexed config now st v =
    enforce_memory-IsIndexed config
      (cleanup_stale_delivered config now (cleanup_expired_events now st))
      (cleanup_stale-IsIndexed config now (cleanup_expired_events now st)
        (cleanup_expired-IsIndexed now st v))

-- The cleanup brings the store down to `MAX_EVENTS_TOTAL` events.
pub length-cleanup-le :
    (config : StoreConfig) (now : ℕ) (st : EventStore)
    → IsIndexed st
    → length (cleanup config now st).events ≤ config.max_events_total
unfolding cleanup enforce_memory_limits
length-cleanup-le config now st v =
    let st' = cleanup_stale_delivered config now (cleanup_expired_events now st) in
    let v' =
      cleanup_stale-IsIndexed config now (cleanup_expired_events now st)
        (cleanup_expired-IsIndexed now st v) in
    ground (arith, force_cleanup-le config st' v')

expiry_fired-IsIndexed :
    (now : ℕ) (event_id : String) (st : EventStore)
    → IsIndexed st
    → IsIndexed (expiry_fired now event_id st)
unfolding expiry_fired
expiry_fired-IsIndexed now event_id st v =
    elim (Bool-cases (found_expired now (map_get event_id st.events))) [
      | inl over ↦ rw over (remove_event-IsIndexed event_id by_expired st v)
      | inr fresh ↦ rw fresh v
    ]

pub Step-IsIndexed :
    {config : StoreConfig} {st st' : EventStore} → Step config st st' → IsIndexed st → IsIndexed st'
Step-IsIndexed {config} {st} (creates now id targets name payload qos options st' fresh e) v =
    let (made, e', v') = create_total config now id targets name payload qos options st v fresh in
    let same : made ≡ st' = ground (arith, e', e) in subst IsIndexed same v'
Step-IsIndexed {config} {st} (delivers now user id) v =
    Marking-IsIndexed id st _ (mark_delivered-Marking now user id st) v
Step-IsIndexed {config} {st} (fails now user id error) v =
    Marking-IsIndexed id st _ (mark_failed-Marking now user id error st) v
Step-IsIndexed {config} {st} (applies user id) v =
    Marking-IsIndexed id st _ (mark_applied-Marking user id st) v
Step-IsIndexed {config} {st} (expires now id) v = expiry_fired-IsIndexed now id st v
Step-IsIndexed {config} {st} (cleans now) v = cleanup-IsIndexed config now st v

empty_store-IsIndexed : (now : ℕ) → IsIndexed (empty_store now)
unfolding empty_store map_get set_contains
empty_store-IsIndexed now = record {
  listed = λ user id h. absurd (cc);
  named = λ id. tt;
  distinct = tt;
}

-- In every store that a history of calls and callbacks leads to.
pub Reach-IsIndexed : {config : StoreConfig} {st : EventStore} → Reach config st → IsIndexed st
Reach-IsIndexed (starts now) = empty_store-IsIndexed now
Reach-IsIndexed (next r s) = Step-IsIndexed s (Reach-IsIndexed r)

Step-length :
    {config : StoreConfig} {st st' : EventStore}
    → Step config st st'
    → IsIndexed st
    → length st.events ≤ config.max_events_total + 1
    → length st'.events ≤ config.max_events_total + 1
Step-length {config} {st} (creates now id targets name payload qos options st' fresh e) v h =
    length-create-le config now id targets name payload qos options st st' v e
Step-length {config} {st} (delivers now user id) v h =
    omega (arith, length-Marking id st _ (mark_delivered-Marking now user id st))
Step-length {config} {st} (fails now user id error) v h =
    omega (arith, length-Marking id st _ (mark_failed-Marking now user id error st))
Step-length {config} {st} (applies user id) v h =
    omega (arith, length-Marking id st _ (mark_applied-Marking user id st))
Step-length {config} {st} (expires now id) v h =
    unfold expiry_fired in ground (arith, length-remove_event-le id by_expired st)
Step-length {config} {st} (cleans now) v h = omega (arith, length-cleanup-le config now st v)

-- No history lets the store hold more than `MAX_EVENTS_TOTAL + 1` events.
pub Reach-length :
    {config : StoreConfig} {st : EventStore}
    → Reach config st
    → length st.events ≤ config.max_events_total + 1
unfolding empty_store
Reach-length (starts now) = omega arith
Reach-length (next r s) = Step-length s (Reach-IsIndexed r) (Reach-length r)
