-- ===== src/EventStore/Sample.antt =====
-- Small stores that the examples run on.
use gateway_realtime.Common.{
  or_default, map_get, map_set, map_delete, map_update, set_contains, set_add, set_delete,
  insert_by, sort_by, nat_eq, string_eq, ◌≡◌, refl, true, none, some, [], ◌∷◌,
}
use gateway_realtime.EventRecord.{
  qos1, qos2, is_expired, set_expiry_timer, get_user_status, set_user_status, set_user_sequence,
  get_delivery_attempts, increment_delivery_attempt, get_last_delivery_attempt, is_all_applied,
  backoff_over, retry_delivered, retry_failed, retry_status, should_retry,
}
use gateway_realtime.EventStore.Cleanup.{
  expired_ids, cleanup_expired_events, is_stale, fail_stale, stale_events, cleanup_stale_delivered,
  cleanup,
}
use gateway_realtime.EventStore.Create.{
  CreateOptions, no_options, new_record, add_targets, index_targets, enforce_limits, make_room,
  insert_event, schedule_expiry, count_created, create, expiry_fired,
}
use gateway_realtime.EventStore.Limits.{
  slice_end, gather, is_pending, evict, evict_all, over_limit, enforce_per_user_limit, weight_sum,
  to_force_out, force_cleanup, enforce_memory_limits,
}
use gateway_realtime.EventStore.Marks.{mark_delivered, mark_failed, mark_applied}
use gateway_realtime.EventStore.Queries.{select_events, get_pending, get_pending_with_retry}
use gateway_realtime.EventStore.Remove.{unindex, feedback, remove_event, remove_events}
use gateway_realtime.EventStore.State.{StoreConfig, EventStore, empty_store}
use gateway_realtime.EventStore.Stats.{
  pending_count, pending_totals, update_stats, user_stats_from, get_user_stats,
}
use gateway_realtime.EventStore.Steps.{Step, Reach, starts}
use gateway_realtime.Json.{no_fields}

-- All that a run of the store computes with.
unfoldable pub store_run : Unit {0}
unfolding create count_created update_stats schedule_expiry insert_event new_record add_targets
    index_targets enforce_limits enforce_per_user_limit make_room force_cleanup to_force_out
    slice_end weight_sum over_limit evict evict_all gather is_pending is_expired get_user_status
    set_user_status set_user_sequence set_expiry_timer increment_delivery_attempt
    get_delivery_attempts get_last_delivery_attempt mark_delivered mark_failed mark_applied
    remove_event remove_events unindex feedback is_all_applied pending_count pending_totals
    empty_store map_get map_set map_delete map_update set_contains set_add set_delete insert_by
    sort_by get_pending select_events get_pending_with_retry cleanup cleanup_expired_events
    cleanup_stale_delivered enforce_memory_limits expired_ids stale_events fail_stale is_stale
    should_retry retry_status retry_delivered retry_failed backoff_over expiry_fired get_user_stats
    user_stats_from
store_run = tt

abbrev pub small : StoreConfig
small = record {
  max_events_per_user = 2;
  max_events_total = 3;
  delivered_timeout = 30000;
  stale_timeout = 3600000;
  max_attempt_per_event = 5;
  base_backoff_event = 1000;
}

abbrev pub with_ttl : CreateOptions
with_ttl = record {
  ttl = some 30000;
  sender_id = some 9;
  notify_sender = some true;
  sender_event_name = some "change-mode";
}

abbrev pub start : EventStore
start = empty_store 0

-- A store with one event for the users 1 and 2.
unfoldable pub one_event : EventStore
unfolding store_run
one_event =
    or_default (create small 100 "e1" (1 ∷ 2 ∷ []) "change-mode" no_fields qos2 with_ttl start)
      start

pub one_event_created :
    create small 100 "e1" (1 ∷ 2 ∷ []) "change-mode" no_fields qos2 with_ttl start ≡ some one_event
unfolding store_run one_event
one_event_created = refl

pub one_event-Reach : Reach small one_event
unfolding store_run
one_event-Reach = Reach.next (starts 0) (
    Step.creates 100 "e1" (1 ∷ 2 ∷ []) "change-mode" no_fields qos2 with_ttl one_event refl
      one_event_created)

-- And with one of QoS 1 for the user 1.
unfoldable pub two_events : EventStore
unfolding store_run one_event
two_events =
    or_default (create small 200 "e2" (1 ∷ []) "alarm" no_fields qos1 no_options one_event) start

two_events_created :
    create small 200 "e2" (1 ∷ []) "alarm" no_fields qos1 no_options one_event ≡ some two_events
unfolding store_run one_event two_events
two_events_created = refl

e2_unused : map_get "e2" one_event.events ≡ none
unfolding store_run one_event
e2_unused = refl

pub two_events-Reach : Reach small two_events
two_events-Reach = Reach.next one_event-Reach (
    Step.creates 200 "e2" (1 ∷ []) "alarm" no_fields qos1 no_options two_events e2_unused
      two_events_created)
