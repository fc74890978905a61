-- ===== src/Feedback/Examples.antt =====
-- An event expires while its sender is online.
use gateway_realtime.Common.{string_eq, nat_eq, true, some, [], ◌∷◌}
use gateway_realtime.EventRecord.{stored, qos2, EventRecord}
use gateway_realtime.Gateway.Sample.{a_world}
use gateway_realtime.Json.{no_fields}
use gateway_realtime.World.{World}

abbrev sent_by_browser : EventRecord
sent_by_browser = record {
  event_id = "e1";
  event_name = "change-mode";
  payload = no_fields;
  qos = qos2;
  created_at = 10;
  ttl = some 30;
  expires_at = some 40;
  sender_id = some 7;
  notify_sender = true;
  sender_event_name = some "set-mode";
  user_status = (1, stored) ∷ [];
  user_sequence = [];
  delivery_attempts = [];
  last_delivery_attempt = [];
  delivery_errors = [];
  expiry_timer = some 40;
}

abbrev waiting_world : World
waiting_world = record a_world {
  store = record a_world.store {
    events = ("e1", sent_by_browser) ∷ [];
    user_events = (1, "e1" ∷ []) ∷ [];
  };
}
