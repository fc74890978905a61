-- ===== src/EventStore/Queries.antt =====
-- `getPending` and `getPendingWithRetry`: services/event-store.service.ts. `draws` gives the number
-- that `Math.random()` draws for each event of the round.
use gateway_realtime.Common.{
  ltb, nat_beq, if◌then◌else◌, Map, map_get, sort_by, nat_eq, string_eq, ℕ, String, Bool, ◌&&◌, not,
  Option, none, some, List, [], ◌∷◌,
}
use gateway_realtime.EventRecord.{
  EventStatus, stored, delivered, applied, failed, EventRecord, is_expired, get_user_status,
  RetryPolicy, should_retry,
}
use gateway_realtime.EventStore.Limits.{created_le, is_pending}
use gateway_realtime.EventStore.State.{StoreConfig, EventStore, index_of}

unfoldable pub keep_found :
    (EventRecord → Bool) → Option EventRecord → List EventRecord → List EventRecord
keep_found p none rs = rs
keep_found p (some r) rs = if p r then r ∷ rs else rs

-- The events of a list of ids that are there and pass a test.
unfoldable pub select_events :
    (EventRecord → Bool) → List String → Map String EventRecord → List EventRecord
unfolding keep_found
select_events p [] events = []
select_events p (event_id ∷ ids) events =
    keep_found p (map_get event_id events) (select_events p ids events)

unfoldable pub get_pending : ℕ → ℕ → EventStore → List EventRecord
get_pending now user st =
    sort_by created_le
      (select_events (is_pending now user) (index_of user st.user_events) st.events)

abbrev pub retry_policy : StoreConfig → RetryPolicy
retry_policy config = record {
  max_attempts = config.max_attempt_per_event;
  delivered_timeout = config.delivered_timeout;
  backoff_base = config.base_backoff_event;
}

abbrev pub status_order : EventStatus → ℕ
status_order stored = 1
status_order delivered = 2
status_order failed = 3
status_order applied = 0

-- `aStatus !== bStatus ? order(a) - order(b) : a.createdAt - b.createdAt`
abbrev pub retry_le : ℕ → EventRecord → EventRecord → Bool
retry_le user a b =
    let oa = status_order (get_user_status user a) in
    let ob = status_order (get_user_status user b) in
    if nat_beq oa ob then created_le a b else ltb oa ob

abbrev pub is_due : StoreConfig → (String → ℕ) → ℕ → ℕ → EventRecord → Bool
is_due config draws now user r =
    not (is_expired now r) && should_retry user now (retry_policy config) (draws r.event_id) r

unfoldable pub get_pending_with_retry :
    StoreConfig → (String → ℕ) → ℕ → ℕ → EventStore → List EventRecord
get_pending_with_retry config draws now user st =
    sort_by (retry_le user)
      (select_events (is_due config draws now user) (index_of user st.user_events) st.events)
