-- ===== src/EventStore/State.antt =====
-- The fields of `EventStoreService`: services/event-store.service.ts.
use gateway_realtime.Common.{
  or_default, Map, map_get, map_keys, nat_eq, string_eq, ℕ, String, Option, List, [],
}
use gateway_realtime.EventRecord.{EventRecord}

-- The settings that the constructor reads.
pub record StoreConfig : Type 0 where
  pub max_events_per_user : ℕ
  pub max_events_total : ℕ
  pub delivered_timeout : ℕ
  pub stale_timeout : ℕ
  pub max_attempt_per_event : ℕ
  pub base_backoff_event : ℕ

unfoldable pub default_store_config : StoreConfig
default_store_config = record {
  max_events_per_user = 1000;
  max_events_total = 100000;
  delivered_timeout = 30000;
  stale_timeout = 3600000;
  max_attempt_per_event = 5;
  base_backoff_event = 1000;
}

pub record Stats : Type 0 where
  pub total_events_created : ℕ
  pub total_events_delivered : ℕ
  pub total_events_applied : ℕ
  pub total_events_failed : ℕ
  pub total_events_expired : ℕ
  pub current_pending : ℕ
  pub max_pending_per_user : ℕ
  pub current_users : ℕ
  pub last_cleanup : ℕ

pub data RemoveReason : Type 0 where
  by_applied by_expired by_force : RemoveReason

-- The payload of the emitted event `event.expired`.
pub record ExpiredNotice : Type 0 where
  pub event_id : String
  pub event_name : String
  pub sender_event_name : Option String
  pub reason : RemoveReason
  pub sender_id : Option ℕ

abbrev pub Index : Type 0
Index = Map ℕ (List String)

-- `notices` lists what has been emitted, oldest first.
pub record EventStore : Type 0 where
  pub events : Map String EventRecord
  pub user_events : Index
  pub stats : Stats
  pub notices : List ExpiredNotice

unfoldable pub empty_store : ℕ → EventStore
empty_store now = record {
  events = [];
  user_events = [];
  stats = record {
    total_events_created = 0;
    total_events_delivered = 0;
    total_events_applied = 0;
    total_events_failed = 0;
    total_events_expired = 0;
    current_pending = 0;
    max_pending_per_user = 0;
    current_users = 0;
    last_cleanup = now;
  };
  notices = [];
}

unfoldable pub get_all_user_ids : EventStore → List ℕ
get_all_user_ids st = map_keys st.user_events

unfoldable pub get_event : String → EventStore → Option EventRecord
get_event event_id st = map_get event_id st.events

-- The events that the index has for a user, none if the user is missing.
abbrev pub index_of : ℕ → Index → List String
index_of user index = or_default (map_get user index) []
