-- ===== src/Json/Examples.antt =====
-- The message laws on a concrete payload.
use gateway_realtime.Common.{◌≡◌, some}
use gateway_realtime.Json.{
  num, str, obj, Fields, no_fields, field, get_field, object1, tracked_message, fields_of,
  tracked_message-meta, tracked_message-event,
}

abbrev pair_payload : Fields
pair_payload = field "event" (str "other") (field "data" (num 3) no_fields)

tracked_message-meta_example :
    get_field "meta" (fields_of (tracked_message "alarm" pair_payload "e1"))
    ≡ some (obj (object1 "eventId" (str "e1")))
tracked_message-meta_example = tracked_message-meta "alarm" pair_payload "e1"

tracked_message-event_example :
    get_field "event" (fields_of (tracked_message "alarm" pair_payload "e1")) ≡ some (str "other")
tracked_message-event_example = tracked_message-event "alarm" pair_payload "e1"
