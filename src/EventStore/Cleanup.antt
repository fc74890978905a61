-- ===== src/EventStore/Cleanup.antt =====
-- The periodic cleanup: services/event-store.service.ts.

pub mod Laws
pub mod Stale
use gateway_realtime.Common.{
  ltb, if◌then◌else◌, or_default, truthy, Map, length, ℕ, ◌+◌, ◌-◌, String, Bool, ◌&&◌, List, [],
  ◌∷◌,
}
use gateway_realtime.EventRecord.{
  EventStatus, failed, EventRecord, is_expired, get_last_delivery_attempt, is_delivered,
}
use gateway_realtime.EventStore.Limits.{enforce_memory_limits}
use gateway_realtime.EventStore.Remove.{remove_events}
use gateway_realtime.EventStore.State.{StoreConfig, by_expired, EventStore}

unfoldable pub expired_ids : ℕ → Map String EventRecord → List String
expired_ids now [] = []
expired_ids now ((event_id, r) ∷ events) =
    if is_expired now r then event_id ∷ expired_ids now events else expired_ids now events

unfoldable pub cleanup_expired_events : ℕ → EventStore → EventStore
cleanup_expired_events now st =
    let ids = expired_ids now st.events in
    let st' = remove_events by_expired ids st in
    record st' {
      stats = record st'.stats {
        total_events_expired = st'.stats.total_events_expired + length ids;
      };
    }

-- `status === 'DELIVERED'`, and the last attempt is known and older than the timeout.
unfoldable pub is_stale : StoreConfig → ℕ → EventRecord → ℕ → EventStatus → Bool
is_stale config now r user status =
    let last = get_last_delivery_attempt user r in
    is_delivered status && (truthy last && ltb config.stale_timeout (now - or_default last 0))

-- The loop over `event.userStatus` for the statuses that are left; `r` is the event.
unfoldable pub fail_stale :
    StoreConfig → ℕ → EventRecord → Map ℕ EventStatus → Map ℕ EventStatus × ℕ
fail_stale config now r [] = ([], 0)
fail_stale config now r ((user, status) ∷ m) =
    let (others, count) = fail_stale config now r m in
    if is_stale config now r user status
    then ((user, failed) ∷ others, count + 1)
    else ((user, status) ∷ others, count)

unfoldable pub stale_events : StoreConfig → ℕ → Map String EventRecord → Map String EventRecord × ℕ
stale_events config now [] = ([], 0)
stale_events config now ((event_id, r) ∷ events) =
    let (others, count) = stale_events config now events in
    let (statuses, failures) = fail_stale config now r r.user_status in
    ((event_id, record r { user_status = statuses }) ∷ others, failures + count)

unfoldable pub cleanup_stale_delivered : StoreConfig → ℕ → EventStore → EventStore
cleanup_stale_delivered config now st =
    let (events, failures) = stale_events config now st.events in
    record st {
      events = events;
      stats = record st.stats { total_events_failed = st.stats.total_events_failed + failures };
    }

-- The callback of the interval.
unfoldable pub cleanup : StoreConfig → ℕ → EventStore → EventStore
cleanup config now st =
    let st' =
      enforce_memory_limits config
        (cleanup_stale_delivered config now (cleanup_expired_events now st)) in
    record st' { stats = record st'.stats { last_cleanup = now } }
