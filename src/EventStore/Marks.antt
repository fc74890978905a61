-- ===== src/EventStore/Marks.antt =====
-- `markDelivered`, `markFailed` and `markApplied`: services/event-store.service.ts.
use gateway_realtime.Common.{
  if◌then◌else◌, map_get, map_update, nat_eq, string_eq, ℕ, ◌+◌, String, Option, none, some,
}
use gateway_realtime.EventRecord.{
  delivered, applied, failed, EventRecord, get_user_status, set_user_status,
  increment_delivery_attempt, add_delivery_error, is_applied, is_failed, is_all_applied,
}
use gateway_realtime.EventStore.Remove.{remove_event}
use gateway_realtime.EventStore.State.{by_applied, EventStore}

abbrev pub change_event : String → (EventRecord → EventRecord) → EventStore → EventStore
change_event event_id f st = record st { events = map_update event_id f st.events }

unfoldable pub delivered_found : ℕ → ℕ → String → Option EventRecord → EventStore → EventStore
delivered_found now user event_id none st = st
delivered_found now user event_id (some r) st =
    if is_applied (get_user_status user r)
    then st
    else record (change_event event_id
        (λ r. increment_delivery_attempt now user (set_user_status user delivered r)) st) {
          stats = record st.stats { total_events_delivered = st.stats.total_events_delivered + 1 };
        }

unfoldable pub mark_delivered : ℕ → ℕ → String → EventStore → EventStore
unfolding delivered_found
mark_delivered now user event_id st =
    delivered_found now user event_id (map_get event_id st.events) st

unfoldable pub failed_found : ℕ → ℕ → String → String → Option EventRecord → EventStore → EventStore
failed_found now user event_id error none st = st
failed_found now user event_id error (some r) st =
    if is_failed (get_user_status user r)
    then st
    else record (change_event event_id
        (λ r.
          add_delivery_error user error
            (increment_delivery_attempt now user (set_user_status user failed r)))
        st) { stats = record st.stats { total_events_failed = st.stats.total_events_failed + 1 } }

unfoldable pub mark_failed : ℕ → ℕ → String → String → EventStore → EventStore
unfolding failed_found
mark_failed now user event_id error st =
    failed_found now user event_id error (map_get event_id st.events) st

unfoldable pub applied_found : ℕ → String → Option EventRecord → EventStore → EventStore
applied_found user event_id none st = st
applied_found user event_id (some r) st =
    let st' = record (change_event event_id (set_user_status user applied) st) {
      stats = record st.stats { total_events_applied = st.stats.total_events_applied + 1 };
    } in
    if is_all_applied (set_user_status user applied r)
    then remove_event event_id by_applied st'
    else st'

unfoldable pub mark_applied : ℕ → String → EventStore → EventStore
unfolding applied_found
mark_applied user event_id st = applied_found user event_id (map_get event_id st.events) st
