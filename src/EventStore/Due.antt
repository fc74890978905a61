-- ===== src/EventStore/Due.antt =====
-- Which events a round of retries takes up: `getPendingWithRetry` in
-- services/event-store.service.ts and `shouldRetry` in schema/event.record.ts.
use gateway_realtime.Common.{
  map_get, set_contains, string_eq, nat_eq, ℕ, ◌≤◌, ◌<◌, String, ◌≡◌, ap, ◌∙◌, true, false, ◌&&◌,
  not, some, arith,
}
use gateway_realtime.EventRecord.{
  EventRecord, is_expired, get_user_status, get_delivery_attempts, get_last_delivery_attempt,
  random_scale, should_retry,
}
use gateway_realtime.EventRecord.Retry.{GivenUp, due_time, should_retry_due}
use gateway_realtime.EventStore.Invariant.{IsIndexed}
use gateway_realtime.EventStore.Limits.{ids_of}
use gateway_realtime.EventStore.Pending.{found_and, get_pending_with_retry_exact}
use gateway_realtime.EventStore.Queries.{retry_policy, is_due, get_pending_with_retry}
use gateway_realtime.EventStore.State.{StoreConfig, EventStore, index_of}

due_found :
    (config : StoreConfig) (draws : String → ℕ) (now user : ℕ) (id : String) (r : EventRecord)
    (st : EventStore)
    → IsIndexed st
    → map_get id st.events ≡ some r
    → set_contains id (ids_of (get_pending_with_retry config draws now user st)) ≡ (
        set_contains id (index_of user st.user_events)
        && (not (is_expired now r)
            && should_retry user now (retry_policy config) (draws r.event_id) r))
due_found config draws now user id r st v e =
    (get_pending_with_retry_exact config draws now user st v).0 id
    ∙ ap
        (λ found.
          set_contains id (index_of user st.user_events)
          && found_and (is_due config draws now user) found)
        e

-- A round of retries never takes up an event that is given up for the user, that is APPLIED, or
-- FAILED with its attempts used up. An event that is not given up, is listed for the user and has
-- not expired is taken up in every round from `due_time` on, that is after the last attempt, the
-- timeout and twice the backoff, whatever is drawn for the jitter.
pub retry_takes_due :
    (config : StoreConfig) (draws : String → ℕ) (now user : ℕ) (id : String) (r : EventRecord)
    (st : EventStore)
    → IsIndexed st
    → map_get id st.events ≡ some r
    → draws r.event_id < random_scale
    → let policy = retry_policy config in
      let attempts = get_delivery_attempts user r in
      let round = ids_of (get_pending_with_retry config draws now user st) in
      (GivenUp policy attempts (get_user_status user r) → set_contains id round ≡ false)
      × (¬ GivenUp policy attempts (get_user_status user r)
          → set_contains id (index_of user st.user_events) ≡ true
          → is_expired now r ≡ false
          → due_time policy attempts (get_last_delivery_attempt user r) ≤ now
          → set_contains id round ≡ true)
retry_takes_due config draws now user id r st v e d =
    let found = due_found config draws now user id r st v e in
    let due = should_retry_due user now (retry_policy config) (draws r.event_id) r d in
    (λ g. ground (arith, found, due.0 g), λ g l x h. ground (arith, found, due.1 g h, l, x))
