-- ===== src/EventStore/Limits.antt =====
-- `enforcePerUserLimit`, `forceCleanup` and `enforceMemoryLimits`:
-- services/event-store.service.ts.
use gateway_realtime.Common.{
  ltb, leb, nat_beq, if◌then◌else◌, Map, map_option, map_get, map_delete, map_update, map_values,
  set_delete, length, take, filter, sort_by, nat_eq, string_eq, ℕ, ◌+◌, ◌-◌, String, Bool, false,
  ◌&&◌, not, Option, none, some, List, [], ◌∷◌, map,
}
use gateway_realtime.EventRecord.{
  EventStatus, stored, delivered, applied, failed, EventRecord, is_expired, get_user_status,
  is_applied,
}
use gateway_realtime.EventStore.Remove.{remove_event, remove_events}
use gateway_realtime.EventStore.State.{StoreConfig, by_force, EventStore}

-- The end of `slice(0, length - limit)`: a negative end counts from the back.
unfoldable pub slice_end : ℕ → ℕ → ℕ
slice_end size limit = if leb limit size then size - limit else size - (limit - size)

abbrev pub created_le : EventRecord → EventRecord → Bool
created_le a b = leb a.created_at b.created_at

unfoldable pub cons_found :
    Option EventRecord → Option (List EventRecord) → Option (List EventRecord)
cons_found none rs = none
cons_found (some r) none = none
cons_found (some r) (some rs) = some (r ∷ rs)

-- `ids.map(id => events.get(id)!)`; `none` where an id has no event, on which the code throws.
unfoldable pub gather : List String → Map String EventRecord → Option (List EventRecord)
unfolding cons_found
gather [] events = some []
gather (event_id ∷ ids) events = cons_found (map_get event_id events) (gather ids events)

-- `getUserStatus(userId) !== 'APPLIED' && !isExpired`
unfoldable pub is_pending : ℕ → ℕ → EventRecord → Bool
is_pending now user r = not (is_applied (get_user_status user r)) && not (is_expired now r)

abbrev pub forget_user : ℕ → EventRecord → EventRecord
forget_user user r = record r {
  user_status = map_delete user r.user_status;
  user_sequence = map_delete user r.user_sequence;
}

abbrev pub has_no_users : Option EventRecord → Bool
has_no_users none = false
has_no_users (some r) = nat_beq (length r.user_status) 0

-- One round of the loop over `toRemove`.
unfoldable pub evict : ℕ → String → EventStore → EventStore
evict user event_id st =
    let st' = record st {
      user_events = map_update user (set_delete event_id) st.user_events;
      events = map_update event_id (forget_user user) st.events;
    } in
    if has_no_users (map_get event_id st'.events) then remove_event event_id by_force st' else st'

unfoldable pub evict_all : ℕ → List String → EventStore → EventStore
evict_all user [] st = st
evict_all user (event_id ∷ ids) st = evict_all user ids (evict user event_id st)

abbrev pub ids_of : List EventRecord → List String
ids_of rs = map (λ r. r.event_id) rs

-- The events that the limit drops for a user, oldest first.
unfoldable pub over_limit : ℕ → ℕ → ℕ → List EventRecord → List EventRecord
over_limit limit now user records =
    let pending = sort_by created_le (filter (is_pending now user) records) in
    take (slice_end (length pending) limit) pending

unfoldable pub enforce_found :
    StoreConfig → ℕ → ℕ → Option (List String) → EventStore → Option EventStore
enforce_found config now user none st = some st
enforce_found config now user (some ids) st =
    if leb (length ids) config.max_events_per_user
    then some st
    else map_option
        (λ rs. evict_all user (ids_of (over_limit config.max_events_per_user now user rs)) st)
        (gather ids st.events)

unfoldable pub enforce_per_user_limit : StoreConfig → ℕ → ℕ → EventStore → Option EventStore
unfolding enforce_found
enforce_per_user_limit config now user st =
    enforce_found config now user (map_get user st.user_events) st

abbrev pub status_weight : EventStatus → ℕ
status_weight failed = 4
status_weight delivered = 3
status_weight stored = 2
status_weight applied = 1

unfoldable pub weight_sum : Map ℕ EventStatus → ℕ
weight_sum [] = 0
weight_sum ((user, status) ∷ m) = status_weight status + weight_sum m

abbrev pub priority : EventRecord → ℕ
priority r = weight_sum r.user_status

-- The order of `eventsWithPriority`: higher priority first, then the older event.
abbrev pub priority_le : EventRecord → EventRecord → Bool
priority_le a b =
    if nat_beq (priority a) (priority b) then created_le a b else ltb (priority b) (priority a)

unfoldable pub to_force_out : ℕ → Map String EventRecord → List EventRecord
to_force_out limit events =
    take (slice_end (length events) limit) (sort_by priority_le (map_values events))

unfoldable pub force_cleanup : StoreConfig → EventStore → EventStore
force_cleanup config st =
    remove_events by_force (ids_of (to_force_out config.max_events_total st.events)) st

unfoldable pub enforce_memory_limits : StoreConfig → EventStore → EventStore
enforce_memory_limits config st =
    if ltb config.max_events_total (length st.events) then force_cleanup config st else st
