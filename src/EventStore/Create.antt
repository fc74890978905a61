-- ===== src/EventStore/Create.antt =====
-- `create` and the expiry timer that it sets: services/event-store.service.ts. The id that
-- `randomUUID()` draws is the argument `event_id`.
use gateway_realtime.Common.{
  leb, if◌then◌else◌, or_default, truthy, map_option, map_get, map_set, map_update, set_add, length,
  nat_eq, string_eq, ℕ, ◌+◌, String, Bool, false, Option, none, some, List, [], ◌∷◌,
}
use gateway_realtime.EventRecord.{
  stored, Qos, EventRecord, is_expired, set_expiry_timer, set_user_status, set_user_sequence,
}
use gateway_realtime.EventStore.Limits.{enforce_per_user_limit, force_cleanup}
use gateway_realtime.EventStore.Remove.{remove_event}
use gateway_realtime.EventStore.State.{StoreConfig, by_expired, Index, EventStore, index_of}
use gateway_realtime.EventStore.Stats.{update_stats}
use gateway_realtime.Json.{Fields}

pub record CreateOptions : Type 0 where
  pub ttl : Option ℕ
  pub sender_id : Option ℕ
  pub notify_sender : Option Bool
  pub sender_event_name : Option String

abbrev pub no_options : CreateOptions
no_options = record { ttl = none; sender_id = none; notify_sender = none; sender_event_name = none }

unfoldable pub new_record : String → String → Fields → Qos → ℕ → CreateOptions → EventRecord
new_record event_id event_name payload qos now options = record {
  event_id = event_id;
  event_name = event_name;
  payload = payload;
  qos = qos;
  created_at = now;
  ttl = options.ttl;
  expires_at = if truthy options.ttl then map_option (λ t. now + t) options.ttl else none;
  sender_id = options.sender_id;
  notify_sender = or_default options.notify_sender false;
  sender_event_name = options.sender_event_name;
  user_status = [];
  user_sequence = [];
  delivery_attempts = [];
  last_delivery_attempt = [];
  delivery_errors = [];
  expiry_timer = none;
}

-- The part of the loop over the targets that writes the record.
unfoldable pub add_targets : ℕ → List ℕ → EventRecord → EventRecord
add_targets now [] r = r
add_targets now (user ∷ users) r =
    add_targets now users (set_user_sequence user now (set_user_status user stored r))

-- The part that writes the index.
unfoldable pub index_targets : String → List ℕ → Index → Index
index_targets event_id [] index = index
index_targets event_id (user ∷ users) index =
    index_targets event_id users (map_set user (set_add event_id (index_of user index)) index)

unfoldable pub enforce_next :
    (EventStore → Option EventStore) → Option EventStore → Option EventStore
enforce_next k none = none
enforce_next k (some st) = k st

-- `none` is an exception that a round throws.
unfoldable pub enforce_limits : StoreConfig → ℕ → List ℕ → EventStore → Option EventStore
unfolding enforce_next
enforce_limits config now [] st = some st
enforce_limits config now (user ∷ users) st =
    enforce_next (enforce_limits config now users) (enforce_per_user_limit config now user st)

unfoldable pub make_room : StoreConfig → EventStore → EventStore
make_room config st =
    if leb config.max_events_total (length st.events) then force_cleanup config st else st

-- The store with the new event, before the limits are enforced.
unfoldable pub insert_event :
    ℕ → String → List ℕ → String → Fields → Qos → CreateOptions → EventStore → EventStore
insert_event now event_id targets event_name payload qos options st = record st {
  events =
      map_set event_id
        (add_targets now targets (new_record event_id event_name payload qos now options))
        st.events;
  user_events = index_targets event_id targets st.user_events;
}

unfoldable pub schedule_expiry : ℕ → String → Option ℕ → EventStore → EventStore
schedule_expiry now event_id ttl st =
    if truthy ttl
    then record st {
      events = map_update event_id (set_expiry_timer (now + or_default ttl 0)) st.events;
    }
    else st

unfoldable pub count_created : EventStore → EventStore
count_created st = record st {
  stats = record st.stats { total_events_created = st.stats.total_events_created + 1 };
}

unfoldable pub create :
    StoreConfig
    → ℕ
    → String
    → List ℕ
    → String
    → Fields
    → Qos
    → CreateOptions
    → EventStore
    → Option EventStore
create config now event_id targets event_name payload qos options st =
    map_option
      (λ limited.
        update_stats now (count_created (schedule_expiry now event_id options.ttl limited)))
      (enforce_limits config now targets
        (insert_event now event_id targets event_name payload qos options (make_room config st)))

unfoldable pub found_expired : ℕ → Option EventRecord → Bool
found_expired now none = false
found_expired now (some r) = is_expired now r

-- The callback of the timer: it removes the event if that is still there and has expired.
unfoldable pub expiry_fired : ℕ → String → EventStore → EventStore
unfolding found_expired
expiry_fired now event_id st =
    if found_expired now (map_get event_id st.events)
    then remove_event event_id by_expired st
    else st
