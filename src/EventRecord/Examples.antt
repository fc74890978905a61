-- ===== src/EventRecord/Examples.antt =====
-- Retries of one event: schema/event.record.ts.
use gateway_realtime.Common.{
  map_get, string_eq, nat_eq, ◌*◌, ◌^◌, ◌≤◌, ◌<◌, ◌≡◌, refl, true, false, none, some, [], ◌∷◌,
  arith,
}
use gateway_realtime.EventRecord.{
  failed, qos2, EventRecord, get_user_status, get_delivery_attempts, get_last_delivery_attempt,
  backoff_over, RetryPolicy, retry_delivered, retry_failed, retry_status, should_retry,
}
use gateway_realtime.EventRecord.Retry.{backoff_over_bounds}
use gateway_realtime.Json.{no_fields}

abbrev policy : RetryPolicy
policy = record { max_attempts = 5; delivered_timeout = 30000; backoff_base = 1000 }

abbrev sent : EventRecord
sent = record {
  event_id = "e1";
  event_name = "change-mode";
  payload = no_fields;
  qos = qos2;
  created_at = 1000;
  ttl = none;
  expires_at = none;
  sender_id = some 9;
  notify_sender = true;
  sender_event_name = none;
  user_status = (7, failed) ∷ [];
  user_sequence = [];
  delivery_attempts = (7, 2) ∷ [];
  last_delivery_attempt = (7, 2000) ∷ [];
  delivery_errors = [];
  expiry_timer = none;
}

record_run : Unit {0}
unfolding should_retry retry_status retry_delivered retry_failed backoff_over get_user_status
    get_delivery_attempts get_last_delivery_attempt map_get
record_run = tt

due_now : should_retry 7 8000 policy 0 sent ≡ true
unfolding record_run
due_now = refl

too_early : should_retry 7 3000 policy 0 sent ≡ false
unfolding record_run
too_early = refl

backoff_over_bounds_example :
    (2 * 1000 ≤ 1000 * 2 ^ 2 → backoff_over 1000 2 7 1000 ≡ false)
    × (3 * (1000 * 2 ^ 2) < 2 * 1000 → backoff_over 1000 2 7 1000 ≡ true)
backoff_over_bounds_example = backoff_over_bounds 1000 2 7 1000 (omega arith)
