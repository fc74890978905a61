-- ===== src/EventStore/Examples.antt =====
-- Runs of the event store: services/event-store.service.ts.
use gateway_realtime.Common.{
  if◌then◌else◌, or_default, is_some, map_option, map_get, set_contains, length, take, string_eq,
  nat_eq, ◌==◌, ℕ, ◌+◌, ◌≤◌, ◌<◌, String, ◌≡◌, refl, ◌≢◌, ◌⊎◌, true, false, ◌&&◌, not, Option, none,
  some, List, [], ◌∷◌, arith,
}
use gateway_realtime.EventRecord.{
  delivered, failed, qos1, qos2, EventRecord, is_expired, get_user_status, get_delivery_attempts,
  get_last_delivery_attempt,
}
use gateway_realtime.EventRecord.Retry.{GivenUp, due_time}
use gateway_realtime.EventStore.Acked.History.{Later, at_once, Without, acked_never_pending}
use gateway_realtime.EventStore.Cleanup.{cleanup_expired_events, cleanup_stale_delivered, cleanup}
use gateway_realtime.EventStore.Cleanup.Laws.{get-cleanup_expired}
use gateway_realtime.EventStore.Cleanup.Stale.{LeftUnanswered, status-cleanup_stale}
use gateway_realtime.EventStore.Create.{no_options, create, found_expired}
use gateway_realtime.EventStore.Delivery.{create_delivers}
use gateway_realtime.EventStore.Due.{retry_takes_due}
use gateway_realtime.EventStore.Exact.{AllMarksListed, Reach-listed}
use gateway_realtime.EventStore.Forced.{weight, removed_before_kept}
use gateway_realtime.EventStore.Invariant.{has_target, IsIndexed}
use gateway_realtime.EventStore.Limits.{ids_of, over_limit, enforce_per_user_limit, force_cleanup}
use gateway_realtime.EventStore.Marks.{mark_delivered, mark_applied}
use gateway_realtime.EventStore.PerUser.{dropped_count, enforce_takes_oldest}
use gateway_realtime.EventStore.Queries.{get_pending, retry_policy, get_pending_with_retry}
use gateway_realtime.EventStore.Sample.{
  store_run, small, start, one_event, one_event-Reach, two_events, two_events-Reach,
}
use gateway_realtime.EventStore.State.{StoreConfig, EventStore, index_of}
use gateway_realtime.EventStore.Steps.{
  Step, Reach, create_total, length-cleanup-le, Reach-IsIndexed, Reach-length,
}
use gateway_realtime.Json.{no_fields}

half_acked : map_get "e1" (mark_applied 1 "e1" one_event).events ≢ none
unfolding store_run one_event
half_acked = λ e. cc

all_acked : (mark_applied 2 "e1" (mark_applied 1 "e1" one_event)).events ≡ []
unfolding store_run one_event
all_acked = refl

-- With a limit of 3 and three events there, a creation drops none, and the store has four.
four_events :
    map_option
      (λ st. length st.events)
      (create
        (record small { max_events_per_user = 9 })
        5
        "e4"
        (1 ∷ [])
        "x"
        no_fields
        qos1
        no_options
        (or_default
          (create
            (record small { max_events_per_user = 9 })
            4
            "e3"
            (1 ∷ [])
            "x"
            no_fields
            qos1
            no_options
            (or_default
              (create
                (record small { max_events_per_user = 9 })
                3
                "e2"
                (1 ∷ [])
                "x"
                no_fields
                qos1
                no_options
                one_event)
              start))
          start))
    ≡ some 4
unfolding store_run one_event
four_events = refl

abbrev marked_event : EventStore
marked_event = mark_delivered 150 1 "e1" one_event

marked_event-Reach : Reach small marked_event
marked_event-Reach = Reach.next one_event-Reach (Step.delivers 150 1 "e1")

Reach-listed_example :
    IsIndexed marked_event
    × (AllMarksListed marked_event-Reach
        → (user : ℕ) (id : String)
        → set_contains id (index_of user marked_event.user_events)
          ≡ has_target user (map_get id marked_event.events))
Reach-listed_example = Reach-listed marked_event-Reach

Reach-length_example : length one_event.events ≤ 3 + 1
Reach-length_example = Reach-length one_event-Reach

abbrev third : Option EventStore
third = create small 200 "e2" (2 ∷ []) "sync-alarm" no_fields qos1 no_options one_event

create_total_example : (st' : EventStore) × (third ≡ some st') × IsIndexed st'
unfolding store_run one_event
create_total_example =
    create_total small 200 "e2" (2 ∷ []) "sync-alarm" no_fields qos1 no_options one_event
      (Reach-IsIndexed one_event-Reach) refl

acked_never_pending_example :
    Without "e1" (get_pending 500 1 (mark_delivered 400 1 "e1" (mark_applied 1 "e1" one_event)))
acked_never_pending_example =
    acked_never_pending one_event {config = small} 500 (Reach-IsIndexed one_event-Reach)
      (Later.delivers 400 1 "e1" at_once)

create_delivers_example :
    (st' : EventStore) × (third ≡ some st')
    × (set_contains "e2" (ids_of (get_pending 300 2 st')) ≡ true)
    × ((other : String) → "e2" ≢ other → map_get other st'.events ≡ map_get other one_event.events)
unfolding store_run one_event
create_delivers_example =
    create_delivers small 200 300 "e2" (2 ∷ []) "sync-alarm" no_fields qos1 no_options one_event 2
      (Reach-IsIndexed one_event-Reach) refl (omega arith) (omega arith) refl (λ e. cc)

get-cleanup_expired_example : map_get "e1" (cleanup_expired_events 40000 one_event).events ≡ (
    if found_expired 40000 (map_get "e1" one_event.events)
    then none
    else map_get "e1" one_event.events)
get-cleanup_expired_example =
    get-cleanup_expired 40000 "e1" one_event (Reach-IsIndexed one_event-Reach)

length-cleanup-le_example : length (cleanup small 40000 one_event).events ≤ 3
length-cleanup-le_example =
    length-cleanup-le small 40000 one_event (Reach-IsIndexed one_event-Reach)

abbrev draft : EventRecord
draft = record {
  event_id = "e5";
  event_name = "x";
  payload = no_fields;
  qos = qos2;
  created_at = 10;
  ttl = none;
  expires_at = none;
  sender_id = none;
  notify_sender = false;
  sender_event_name = none;
  user_status = (1, delivered) ∷ [];
  user_sequence = [];
  delivery_attempts = [];
  last_delivery_attempt = (1, 20) ∷ [];
  delivery_errors = [];
  expiry_timer = none;
}

-- Three pending events and a limit of four: two are dropped all the same.
dropped_below_limit : length (over_limit 4 50 1 (draft ∷ draft ∷ draft ∷ [])) ≡ 2
unfolding store_run
dropped_below_limit = refl

abbrev stale_store : EventStore
stale_store = record start { events = ("e5", draft) ∷ [] }

draft_there : map_get "e5" stale_store.events ≡ some draft
unfolding map_get
draft_there = refl

status-cleanup_stale_example :
    (r' : EventRecord) × ((map_get "e5" (cleanup_stale_delivered small 4000000 stale_store).events
        ≡ some r')
      × ((r' ≡ record draft { user_status = r'.user_status })
          × ((LeftUnanswered small 4000000 1 draft → map_get 1 r'.user_status ≡ some failed)
              × (¬ LeftUnanswered small 4000000 1 draft
                  → map_get 1 r'.user_status ≡ map_get 1 draft.user_status))))
status-cleanup_stale_example =
    status-cleanup_stale small 4000000 1 "e5" draft stale_store draft_there

abbrev room_for_one : StoreConfig
room_for_one = record small { max_events_total = 1; max_events_per_user = 1 }

abbrev stored_as : String → EventRecord
stored_as id = or_default (map_get id two_events.events) draft

e1_there : map_get "e1" two_events.events ≡ some (stored_as "e1")
unfolding store_run one_event two_events
e1_there = refl

e2_there : map_get "e2" two_events.events ≡ some (stored_as "e2")
unfolding store_run one_event two_events
e2_there = refl

e1_gone : map_get "e1" (force_cleanup room_for_one two_events).events ≡ none
unfolding store_run one_event two_events
e1_gone = refl

e2_kept : is_some (map_get "e2" (force_cleanup room_for_one two_events).events) ≡ true
unfolding store_run one_event two_events
e2_kept = refl

removed_before_kept_example :
    (weight (stored_as "e2") < weight (stored_as "e1"))
    ⊎ ((weight (stored_as "e2") ≡ weight (stored_as "e1"))
        × ((stored_as "e1").created_at ≤ (stored_as "e2").created_at))
removed_before_kept_example =
    removed_before_kept room_for_one "e1" "e2" (stored_as "e1") (stored_as "e2") two_events
      (Reach-IsIndexed two_events-Reach) e1_there e2_there e1_gone e2_kept

both_listed : map_get 1 two_events.user_events ≡ some ("e1" ∷ "e2" ∷ [])
unfolding store_run one_event two_events
both_listed = refl

abbrev taken_of_one : List String
taken_of_one =
    let pending = get_pending 300 1 two_events in
    ids_of (take (dropped_count 1 (length pending)) pending)

oldest_taken : taken_of_one ≡ "e1" ∷ []
unfolding store_run one_event two_events
oldest_taken = refl

enforce_takes_oldest_example :
    (2 ≤ 1 → enforce_per_user_limit room_for_one 300 1 two_events ≡ some two_events)
    × (1 < 2
        → (st' : EventStore) × ((enforce_per_user_limit room_for_one 300 1 two_events ≡ some st')
            × (((id : String)
                  → set_contains id (index_of 1 st'.user_events)
                    ≡ (set_contains id ("e1" ∷ "e2" ∷ []) && not (set_contains id taken_of_one)))
                × ((other : ℕ)
                    → (1 == other) ≡ false
                    → index_of other st'.user_events ≡ index_of other two_events.user_events))))
enforce_takes_oldest_example =
    enforce_takes_oldest room_for_one 300 1 ("e1" ∷ "e2" ∷ []) two_events
      (Reach-IsIndexed two_events-Reach) both_listed

retry_takes_due_example :
    let round = ids_of (get_pending_with_retry small (λ x. 5) 40000 1 two_events) in
    let attempts = get_delivery_attempts 1 (stored_as "e2") in
    (GivenUp (retry_policy small) attempts (get_user_status 1 (stored_as "e2"))
      → set_contains "e2" round ≡ false)
    × (¬ GivenUp (retry_policy small) attempts (get_user_status 1 (stored_as "e2"))
        → set_contains "e2" (index_of 1 two_events.user_events) ≡ true
        → is_expired 40000 (stored_as "e2") ≡ false
        → due_time (retry_policy small) attempts (get_last_delivery_attempt 1 (stored_as "e2"))
          ≤ 40000
        → set_contains "e2" round ≡ true)
retry_takes_due_example =
    retry_takes_due small (λ x. 5) 40000 1 "e2" (stored_as "e2") two_events
      (Reach-IsIndexed two_events-Reach) e2_there (omega arith)
