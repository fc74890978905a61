-- ===== src/Feedback/Laws.antt =====
-- The sender of an event hears that it has expired: services/event-store.service.ts and
-- services/event-retry-heartbeat.service.ts.
use gateway_realtime.Common.{string_eq, nat_eq}
use gateway_realtime.EventRecord.{EventRecord}
use gateway_realtime.EventStore.State.{EventStore}
use gateway_realtime.Feedback.{shown_name}
use gateway_realtime.Json.{Json, str, obj, field, object1}
use gateway_realtime.Session.{Session}
use gateway_realtime.World.{World}

-- What the sender is sent.
abbrev pub expiry_feedback : EventRecord → Json
expiry_feedback r = obj (
    field "event" (str "event_expired") (
      field "eventId" (str r.event_id) (
        field "eventName" (str (shown_name r.sender_event_name r.event_name))
          (object1 "reason" (str "expired")))))
