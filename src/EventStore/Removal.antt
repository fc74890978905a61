-- ===== src/EventStore/Removal.antt =====
-- What removals leave of the events: `removeEvent` in services/event-store.service.ts.
use gateway_realtime.Common.{
  if◌then◌else◌, Option-cases, is_some, Map, map_get, get-delete, length-delete-le,
  length-delete-lt, set_contains, length, ◌==◌, nat_eq, string_eq, ◌+◌, ◌≤◌, ◌<◌, String, ◌≡◌, refl,
  inl, inr, true, false, Option, none, some, List, [], ◌∷◌, arith, eq_iff,
}
use gateway_realtime.EventRecord.{EventRecord}
use gateway_realtime.EventStore.Remove.{remove_found, remove_event, remove_events}
use gateway_realtime.EventStore.State.{RemoveReason, EventStore}

get-remove_found :
    (event_id other : String) (reason : RemoveReason) (found : Option EventRecord) (st : EventStore)
    → map_get event_id st.events ≡ found
    → map_get other (remove_found event_id reason found st).events
      ≡ (if event_id == other then none else map_get other st.events)
unfolding remove_found
get-remove_found event_id other reason none st e = ground (arith, eq_iff event_id other)
get-remove_found event_id other reason (some r) st e = get-delete other event_id st.events

-- A removal takes its own event out of the store, and no other.
pub get-remove_event :
    (event_id other : String) (reason : RemoveReason) (st : EventStore)
    → map_get other (remove_event event_id reason st).events
      ≡ (if event_id == other then none else map_get other st.events)
unfolding remove_event
get-remove_event event_id other reason st =
    get-remove_found event_id other reason (map_get event_id st.events) st refl

pub get-remove_events :
    (reason : RemoveReason) (ids : List String) (other : String) (st : EventStore)
    → map_get other (remove_events reason ids st).events
      ≡ (if set_contains other ids then none else map_get other st.events)
unfolding remove_events set_contains
get-remove_events reason [] other st = refl
get-remove_events reason (event_id ∷ ids) other st = ground (
  arith,
  get-remove_events reason ids other (remove_event event_id reason st),
  get-remove_event event_id other reason st,
)

pub length-remove_event-le :
    (event_id : String) (reason : RemoveReason) (st : EventStore)
    → length (remove_event event_id reason st).events ≤ length st.events
unfolding remove_event
length-remove_event-le event_id reason st = go (map_get event_id st.events)
  where
    go :
        (found : Option EventRecord)
        → length (remove_found event_id reason found st).events ≤ length st.events
    go none = unfold remove_found in omega arith
    go (some r) = unfold remove_found in length-delete-le event_id st.events

pub length-remove_event-lt :
    (event_id : String) (reason : RemoveReason) (st : EventStore) (r : EventRecord)
    → map_get event_id st.events ≡ some r
    → length (remove_event event_id reason st).events < length st.events
unfolding remove_event remove_found
length-remove_event-lt event_id reason st r e =
    rw (e, remove_found) (length-delete-lt event_id st.events e)

pub length-remove_events-le :
    (reason : RemoveReason) (ids : List String) (st : EventStore)
    → length (remove_events reason ids st).events ≤ length st.events
unfolding remove_events
length-remove_events-le reason [] st = omega arith
length-remove_events-le reason (event_id ∷ ids) st = omega (
  arith,
  length-remove_events-le reason ids (remove_event event_id reason st),
  length-remove_event-le event_id reason st,
)

-- Different ids of events that are there.
abbrev pub AllPresent : List String → Map String EventRecord → Type 0
AllPresent [] events = Unit {0}
AllPresent (x ∷ ids) events =
    (set_contains x ids ≡ false) × (is_some (map_get x events) ≡ true) × AllPresent ids events

AllPresent-remove :
    (event_id : String) (reason : RemoveReason) (ids : List String) (st : EventStore)
    → set_contains event_id ids ≡ false
    → AllPresent ids st.events
    → AllPresent ids (remove_event event_id reason st).events
unfolding set_contains
AllPresent-remove event_id reason [] st h p = tt
AllPresent-remove event_id reason (x ∷ ids) st h p = ground (
  arith,
  get-remove_event event_id x reason st,
  AllPresent-remove event_id reason ids st,
  eq_iff event_id x,
  eq_iff x event_id,
)

-- Removing different events that are there makes the store smaller by one each.
pub length-remove_events :
    (reason : RemoveReason) (ids : List String) (st : EventStore)
    → AllPresent ids st.events
    → length (remove_events reason ids st).events + length ids ≤ length st.events
unfolding remove_events
length-remove_events reason [] st p = omega arith
length-remove_events reason (x ∷ ids) st p = elim (Option-cases (map_get x st.events)) [
  | inl e ↦ absurd (ground (arith, e, p.1))
  | inr (r, e) ↦ omega (
    arith,
    length-remove_event-lt x reason st r e,
    length-remove_events reason ids (remove_event x reason st)
        (AllPresent-remove x reason ids st p.0 p.2),
  )
]
